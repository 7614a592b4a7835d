-- ===== src/Runtime/Draining.antt =====
-- src/monitor_runtime.c, `drain_context`: the progress of the loop, measured by the events in all queues.
use runtime_monitor.Base.{
  ℕ, zero, suc, ◌+◌, ◌≤◌, ◌<◌, ◌≡◌, inl, inr, refl, ◌∙◌, arith, Bool, true, false, some, bit,
  length, sum_by, sum_by-set,
}
use runtime_monitor.Event.{Event}
use runtime_monitor.Ring.{try_pop}
use runtime_monitor.Ring.Bounds.{size, size-try_pop}
use runtime_monitor.Runtime.State.{Context, Runtime, zero_context, context_at, set_context}
use runtime_monitor.Runtime.Producer.{single_writer_increment}
use runtime_monitor.Runtime.Consumer.{consume, drain_from}
use runtime_monitor.Runtime.Conservation.{
  IsValid, consumed-Balanced, set_context-IsValid, frame-IsValid,
}

abbrev pub waiting_events : Context → ℕ
waiting_events c = size c.queue

-- The events in all queues.
abbrev pub queued : Runtime → ℕ
queued r = sum_by waiting_events r.contexts

-- What a part of the loop does, between two values of `consumed_any`.
pub record Progress (any : Bool) (r : Runtime) (any' : Bool) (r' : Runtime) : Type 0 where
  pub valid : IsValid r'
  pub slots : r'.next_thread_slot ≡ r.next_thread_slot
  pub running : r'.consumer_running ≡ r.consumer_running
  pub fewer : queued r' + bit any' ≤ queued r + bit any
  pub quiet : any' ≡ false → (any ≡ false) × (r' ≡ r)

pub same-Progress : (any : Bool) (r : Runtime) → IsValid r → Progress any r any r
same-Progress any r ok = record {
  valid = ok;
  slots = refl;
  running = refl;
  fewer = omega arith;
  quiet = λ e. (e, refl);
}

pub then-Progress :
    (a b c : Bool) (r s t : Runtime) → Progress a r b s → Progress b s c t → Progress a r c t
then-Progress a b c r s t p q = record {
  valid = q.valid;
  slots = q.slots ∙ p.slots;
  running = q.running ∙ p.running;
  fewer = omega (arith, p.fewer, q.fewer);
  quiet = λ e. ((p.quiet (q.quiet e).0).0, (q.quiet e).1 ∙ (p.quiet (q.quiet e).0).1);
}

consume-Progress :
    (r : Runtime) (s : ℕ) (e : Event) (any : Bool)
    → IsValid r
    → s < length r.contexts
    → (try_pop (context_at r s).queue).0 ≡ some e
    → size (try_pop (context_at r s).queue).1 + 1 ≡ size (context_at r s).queue
    → Progress any r true (consume r s (try_pop (context_at r s).queue).1 e)
consume-Progress r s e any ok p popped smaller = record {
  valid =
      frame-IsValid (set_context r s c) _ refl refl
        (set_context-IsValid r s c (consumed-Balanced (context_at r s) e popped (ok.each s)) ok);
  slots = refl;
  running = refl;
  fewer = omega (arith, smaller, sum_by-set waiting_events r.contexts s c zero_context p);
  quiet = λ f. absurd (cc);
}
  where
    c : Context
    c = record (context_at r s) {
      queue = (try_pop (context_at r s).queue).1;
      consumed = single_writer_increment (context_at r s).consumed;
    }

pub drain_from-Progress :
    (n : ℕ) (r : Runtime) (s : ℕ) (any : Bool)
    → IsValid r
    → s < length r.contexts
    → let (any', r') = drain_from n r s any in Progress any r any' r'
unfolding drain_from
drain_from-Progress zero r s any ok p = same-Progress any r ok
drain_from-Progress (suc n) r s any ok p =
    elim (size-try_pop (context_at r s).queue (ok.each s).queue) [
      | inl (e, _) ↦ rw (e, drain_from) (same-Progress any r ok)
      | inr (ev, e, smaller) ↦
          let next = consume r s (try_pop (context_at r s).queue).1 ev in
          let step = consume-Progress r s ev any ok p e smaller in
          rw (e, drain_from)
            (then-Progress any true _ r next _ step (
              drain_from-Progress n next s true step.valid
                (omega (arith, step.valid.storage, ok.storage))))
    ]

-- A context from which nothing was drained has an empty queue: the batch is not 0.
pub drain_from-empty :
    (n : ℕ) (r : Runtime) (s : ℕ)
    → IsValid r
    → s < length r.contexts
    → (drain_from (suc n) r s false).0 ≡ false
    → size (context_at r s).queue ≡ 0
unfolding drain_from
drain_from-empty n r s ok p quiet = elim (size-try_pop (context_at r s).queue (ok.each s).queue) [
  | inl (_, none_left) ↦ none_left
  | inr (ev, e, smaller) ↦
      let next = consume r s (try_pop (context_at r s).queue).1 ev in
      let step = consume-Progress r s ev false ok p e smaller in
      let rest =
        drain_from-Progress n next s true step.valid
          (omega (arith, step.valid.storage, ok.storage)) in
      absurd (cc ((rest.quiet (rw (e, drain_from) at quiet)).0))
]
