-- ===== src/Runtime/Streams.antt =====
-- src/monitor_runtime.c: the stream of one context, from the events that its thread emits to those
-- that the consumer hands over.
use runtime_monitor.Base.{
  ℕ, ◌+◌, ◌≡◌, refl, sym, ap, ◌∙◌, arith, Bool, true, false, not, ◌||◌, if◌then◌else◌, bit, Option,
  none, some, List, [], ◌∷◌, ◌++◌, append_assoc, length, length-append, leb, if_false, u32,
}
use runtime_monitor.Event.{Event, EventType}
use runtime_monitor.Ring.{Ring, capacity, try_push, try_pop}
use runtime_monitor.Ring as Queue
use runtime_monitor.Ring.Bounds.{size}
use runtime_monitor.Ring.Bounds as Bounds
use runtime_monitor.Ring.Fifo.{
  contents, window, enqueue, dequeue, try_push_refines, try_pop_refines,
}
use runtime_monitor.Verifier.State.{Verifier, thread_at}
use runtime_monitor.Verifier.Gap.{expected}
use runtime_monitor.Verifier.Invariant.Threads.{Live}
use runtime_monitor.Verifier.Verdicts.Streams.{
  observe_all, in_order, in_order-append, in_order-prefix, taint_exact,
}
use runtime_monitor.Runtime.State.{Context, Runtime}
use runtime_monitor.Runtime.Producer.{single_writer_increment, new_event, produce, fresh_context}
use runtime_monitor.Runtime.Conservation.{
  Balanced, fresh-Balanced, produce-Balanced, consumed-Balanced,
}

-- The life of a context: the thread registers with it, emits events and the consumer takes events out,
-- in any order. The list has the events taken out, and the number counts the events dropped.
pub data Life : Context → List Event → ℕ → Type 0 where
  begins : (c : Context) (tid : ℕ) → Balanced c → Life (fresh_context c tid) [] 0
  produces :
      (c : Context) (out : List Event) (drops : ℕ) (r : Runtime) (t : EventType)
      (address result now : ℕ)
      → Life c out drops
      → Life
          (produce c (new_event r c t address result now))
          out
          (drops + bit (not (try_push c.queue (new_event r c t address result now)).0))
  delivers :
      (c : Context) (out : List Event) (drops : ℕ) (e : Event)
      → Life c out drops
      → (try_pop c.queue).0 ≡ some e
      → Life
          (record c { queue = (try_pop c.queue).1; consumed = single_writer_increment c.consumed })
          (out ++ e ∷ [])
          drops

pub Life-Balanced : (c : Context) (out : List Event) (drops : ℕ) → Life c out drops → Balanced c
Life-Balanced _ _ _ (begins c tid b) = fresh-Balanced c tid b
Life-Balanced _ _ _ (produces c out drops r t address result now l) =
    produce-Balanced c _ (Life-Balanced c out drops l)
Life-Balanced _ _ _ (delivers c out drops e l popped) =
    consumed-Balanced c e popped (Life-Balanced c out drops l)

-- All events so far that were not dropped.
abbrev sent : Context → List Event → List Event
sent c out = out ++ contents c.queue

record Numbered (c : Context) (out : List Event) : Type 0 where
  ordered : in_order 0 (sent c out) ≡ true
  next : c.producer.next_thread_sequence ≡ u32 (length (sent c out))

dequeued :
    (q : List Event) (x : Option Event × List Event) (e : Event)
    → x ≡ dequeue q
    → x.0 ≡ some e
    → q ≡ e ∷ x.1
unfolding dequeue
dequeued [] x e same popped = absurd (cc (sym popped ∙ ap (λ y. y.0) same))
dequeued (h ∷ q) x e same popped =
    let head_is : some h ≡ some e = sym (ap (λ y. y.0) same) ∙ popped in
    ap (λ y. y ∷ q) (some_injective head_is) ∙ ap (λ y. e ∷ y) (sym (ap (λ y. y.1) same))
  where
    value_or : Event → Option Event → Event
    value_or d none = d
    value_or d (some a) = a

    some_injective : some h ≡ some e → h ≡ e
    some_injective p = ap (value_or h) p

enqueued :
    (q : List Event) (x : Bool × List Event) (e : Event)
    → x ≡ enqueue q e
    → not x.0 ≡ false
    → x.1 ≡ q ++ e ∷ []
unfolding enqueue
enqueued q x e same done =
    ap (λ y. y.1) same
    ∙ has_room (leb capacity (length q)) (ap (λ (y : Bool × List Event). not y.0) (sym same) ∙ done)
  where
    has_room :
        (full : Bool)
        → let x : Bool × List Event = if full then (false, q) else (true, q ++ e ∷ []) in
          not x.0 ≡ false → x.1 ≡ q ++ e ∷ []
    has_room true h = absurd (cc)
    has_room false h = refl

-- A pop moves an event from the queue to those taken out.
sent_kept :
    (q : Ring) (out : List Event) (e : Event)
    → Bounds.IsValid q
    → (try_pop q).0 ≡ some e
    → (out ++ e ∷ []) ++ contents (try_pop q).1 ≡ out ++ contents q
sent_kept q out e v popped =
    append_assoc out (e ∷ []) (contents (try_pop q).1)
    ∙ ap (λ l. out ++ l)
        (sym (
          dequeued (contents q) ((try_pop q).0, contents (try_pop q).1) e (try_pop_refines q v)
            popped))

-- A push that succeeds puts the event at the end.
sent_more :
    (q : Ring) (out : List Event) (e : Event)
    → Bounds.IsValid q
    → not (try_push q e).0 ≡ false
    → out ++ contents (try_push q e).1 ≡ (out ++ contents q) ++ e ∷ []
sent_more q out e v done =
    ap (λ l. out ++ l)
      (enqueued (contents q) ((try_push q e).0, contents (try_push q e).1) e
        (try_push_refines q e v) done)
    ∙ sym (append_assoc out (contents q) (e ∷ []))

Life-Numbered :
    (c : Context) (out : List Event) (drops : ℕ) → Life c out drops → drops ≡ 0 → Numbered c out
unfolding produce fresh_context
Life-Numbered _ _ _ (begins c tid b) e = record {
  ordered = ap (in_order 0) nothing;
  next = sym (ap (λ l. u32 (length l)) nothing);
}
  where
    nothing : contents (Queue.init c.queue) ≡ []
    nothing =
        ap (window (Queue.init c.queue).slots (Queue.init c.queue).tail) (Bounds.size-init c.queue)
Life-Numbered _ _ _ (produces c out drops r t address result now l) e =
    let before = Life-Numbered c out drops l (omega (arith, e)) in
    let ev = new_event r c t address result now in
    let pushed = none_dropped (not (try_push c.queue ev).0) (omega (arith, e)) in
    let more = sent_more c.queue out ev (Life-Balanced c out drops l).queue pushed in
    record {
      ordered =
          ap (in_order 0) more
          ∙ in_order-append 0 (sent c out) ev (omega arith) before.ordered
              (omega (arith, before.next));
      next = omega (arith, before.next, ap length more, length-append (sent c out) (ev ∷ []));
    }
  where
    none_dropped : (b : Bool) → bit b ≡ 0 → b ≡ false
    none_dropped true h = absurd (omega (arith, h))
    none_dropped false h = refl
Life-Numbered _ _ _ (delivers c out drops e l popped) z =
    let before = Life-Numbered c out drops l z in
    let kept = sent_kept c.queue out e (Life-Balanced c out drops l).queue popped in
    record {
      ordered = ap (in_order 0) kept ∙ before.ordered;
      next = before.next ∙ ap (λ l. u32 (length l)) (sym kept);
    }

-- A context from which no event was dropped, whatever the order in which its thread emits and the
-- consumer takes events out, hands over events numbered 0, 1, 2 and so on, modulo 2^32. A verifier that
-- observes them in a slot in use, of a thread not tainted and not observed before, does not taint it.
pub undropped_trusted :
    (c : Context) (out : List Event) (v : Verifier) (i : ℕ)
    → Life c out 0
    → Live v i
    → (thread_at v i).trace_tainted ≡ false
    → (thread_at v i).sequence_initialized ≡ false
    → (in_order 0 out ≡ true) × ((thread_at (observe_all v i out) i).trace_tainted ≡ false)
undropped_trusted c out v i l live whole first = (
  ordered,
  taint_exact v i out live
      ∙ fine (thread_at v i).trace_tainted (expected (thread_at v i)) whole
          (if_false (thread_at v i).sequence_initialized _ _ first),
)
  where
    ordered : in_order 0 out ≡ true
    ordered = in_order-prefix 0 out (contents c.queue) (Life-Numbered c out 0 l refl).ordered

    fine : (b : Bool) (x : ℕ) → b ≡ false → x ≡ 0 → (b || not (in_order x out)) ≡ false
    fine b x p q = rw (p, q, ordered) refl
