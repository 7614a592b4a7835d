-- ===== src/Runtime/Conservation.antt =====
-- src/monitor_runtime.c: the balance of each context, between the events generated and those consumed,
-- dropped and queued, and what the producers do to it.
use runtime_monitor.Base.{
  ℕ, ◌+◌, ◌≤◌, ◌≡◌, inl, inr, refl, ◌∙◌, arith, not, ◌&&◌, Option, none, some, leb, ◌==◌, u32, u64,
  length, set, length-set, get_or-set_all, Bool-cases, if_all, replicate, length-replicate,
}
use runtime_monitor.Event.{Event, EventType, zero_event, thread_start, thread_exit}
use runtime_monitor.Ring.{capacity, try_pop}
use runtime_monitor.Ring.Bounds.{size, size-try_push, size-try_pop}
use runtime_monitor.Ring.Bounds as Bounds
use runtime_monitor.Runtime.State.{
  Context, Runtime, Tls, zero_context, max_contexts, context_at, set_context,
}
use runtime_monitor.Runtime.Producer.{
  single_writer_increment, produce, new_event, timestamp_now_ns, emit_event_to_context,
  thread_exit_destructor, claim_thread_slot, fresh_context, Answers, set_destructor, registered,
  register_from, register_current_thread, emit_registered, emit, unregistered,
}

-- One context: its queue is valid, its events are accounted for, and its next event carries the
-- number of events generated so far.
pub record Balanced (c : Context) : Type 0 where
  pub queue : Bounds.IsValid c.queue
  pub conserved : c.producer.generated ≡ u64 (c.consumed + c.producer.dropped + size c.queue)
  pub numbered : c.producer.next_thread_sequence ≡ u32 c.producer.generated

pub zero-Balanced : Balanced zero_context
zero-Balanced = record {
  queue =
      Bounds.empty-IsValid (replicate capacity zero_event) (length-replicate capacity zero_event);
  conserved = omega arith;
  numbered = omega arith;
}

pub produce-Balanced : (c : Context) (e : Event) → Balanced c → Balanced (produce c e)
unfolding produce single_writer_increment
produce-Balanced c e b = record {
  queue = Bounds.try_push-IsValid c.queue e b.queue;
  conserved = ground (arith, size-try_push c.queue e b.queue, b.conserved);
  numbered = ground (arith, b.numbered);
}

-- The context after an event was taken out of its queue.
pub consumed-Balanced :
    (c : Context) (e : Event)
    → (try_pop c.queue).0 ≡ some e
    → Balanced c
    → Balanced
        (record c { queue = (try_pop c.queue).1; consumed = single_writer_increment c.consumed })
unfolding single_writer_increment
consumed-Balanced c e some_event b = elim (size-try_pop c.queue b.queue) [
  | inl (n, _) ↦ absurd (cc)
  | inr (f, _, smaller) ↦ record {
    queue = Bounds.try_pop-IsValid c.queue b.queue;
    conserved = omega (arith, smaller, b.conserved);
    numbered = b.numbered;
  }
]

pub fresh-Balanced : (c : Context) (tid : ℕ) → Balanced c → Balanced (fresh_context c tid)
unfolding fresh_context
fresh-Balanced c tid b = record {
  queue = Bounds.init-IsValid c.queue b.queue.storage;
  conserved = omega (arith, Bounds.size-init c.queue);
  numbered = omega arith;
}

-- The contexts of a runtime, and the slots that are given out.
pub record IsValid (r : Runtime) : Type 0 where
  pub storage : length r.contexts ≡ max_contexts
  pub each : (i : ℕ) → Balanced (context_at r i)
  pub slots : r.next_thread_slot ≤ max_contexts

-- A change of one context.
pub set_context-IsValid :
    (r : Runtime) (s : ℕ) (c : Context) → Balanced c → IsValid r → IsValid (set_context r s c)
set_context-IsValid r s c b ok = record {
  storage = length-set r.contexts s c ∙ ok.storage;
  each = get_or-set_all Balanced r.contexts s c zero_context b ok.each;
  slots = ok.slots;
}

-- Other variables do not matter.
pub frame-IsValid :
    (r r' : Runtime)
    → r'.contexts ≡ r.contexts
    → r'.next_thread_slot ≡ r.next_thread_slot
    → IsValid r
    → IsValid r'
frame-IsValid r r' c n ok = record {
  storage = rw c ok.storage;
  each = rw c ok.each;
  slots = rw n ok.slots;
}

pub emit_event_to_context-IsValid :
    (r : Runtime) (s : ℕ) (t : EventType) (address result : ℕ) (clock : Option (ℕ × ℕ))
    → IsValid r
    → IsValid (emit_event_to_context r s t address result clock)
unfolding emit_event_to_context
emit_event_to_context-IsValid r s t address result clock ok =
    set_context-IsValid _ s _
      (produce-Balanced (context_at r s)
        (new_event r (context_at r s) t address result (timestamp_now_ns clock)) (ok.each s))
      (frame-IsValid r _ refl refl ok)

claim_thread_slot-IsValid : (r : Runtime) → IsValid r → IsValid (claim_thread_slot r).1
unfolding claim_thread_slot
claim_thread_slot-IsValid r ok = elim (Bool-cases (leb max_contexts r.next_thread_slot)) [
  | inl full ↦ rw full ok
  | inr room ↦ rw room (record { storage = ok.storage; each = ok.each; slots = ground arith })
]

set_destructor-IsValid : (r : Runtime) (a : Answers) → IsValid r → IsValid (set_destructor r a)
set_destructor-IsValid r a ok =
    elim (Bool-cases (r.thread_exit_key_ready && (a.setspecific == 0))) [
      | inl set ↦ rw set ok
      | inr failed ↦ rw failed (frame-IsValid r _ refl refl ok)
    ]

registered-IsValid :
    (tls : Tls) (a : Answers) (c : Option ℕ × Runtime)
    → IsValid c.1
    → IsValid (registered tls a c).2
registered-IsValid tls a (none, r) ok = frame-IsValid r _ refl refl ok
registered-IsValid tls a (some s, r) ok =
    emit_event_to_context-IsValid _ s thread_start 0 0 a.start_clock (
      set_destructor-IsValid _ a
        (set_context-IsValid r s _ (fresh-Balanced (context_at r s) a.tid (ok.each s)) ok))

register_from-IsValid :
    (o : Option ℕ) (r : Runtime) (tls : Tls) (a : Answers)
    → IsValid r
    → IsValid (register_from o r tls a).2
register_from-IsValid (some s) r tls a ok = ok
register_from-IsValid none r tls a ok =
    if_all (λ (x : Option ℕ × Tls × Runtime). IsValid x.2) tls.registration_failed
      (none, tls, unregistered r) (registered tls a (claim_thread_slot r))
      (frame-IsValid r _ refl refl ok)
      (registered-IsValid tls a (claim_thread_slot r) (claim_thread_slot-IsValid r ok))

register_current_thread-IsValid :
    (r : Runtime) (tls : Tls) (a : Answers)
    → IsValid r
    → IsValid (register_current_thread r tls a).2
unfolding register_current_thread
register_current_thread-IsValid r tls a = register_from-IsValid tls.context r tls a

emit_registered-IsValid :
    (t : EventType) (address result : ℕ) (clock : Option (ℕ × ℕ)) (x : Option ℕ × Tls × Runtime)
    → IsValid x.2
    → IsValid (emit_registered t address result clock x).1
emit_registered-IsValid t address result clock (none, tls, r) ok = ok
emit_registered-IsValid t address result clock (some s, tls, r) ok =
    emit_event_to_context-IsValid r s t address result clock ok

-- Whatever an application thread emits, registered or not, into a full queue or not, each context
-- stays balanced.
pub emit-IsValid :
    (r : Runtime) (tls : Tls) (t : EventType) (address result : ℕ) (a : Answers)
    → IsValid r
    → IsValid (emit r tls t address result a).1
unfolding emit
emit-IsValid r tls t address result a ok =
    let Ok = λ (x : Tls × Runtime). IsValid x.1 in
    if_all Ok (not r.accept_events) _ _ ok (
      if_all Ok tls.internal_thread _ _ ok (
        emit_registered-IsValid t address result a.clock (register_current_thread r tls a)
          (register_current_thread-IsValid r tls a ok)))

pub thread_exit_destructor-IsValid :
    (r : Runtime) (tls : Tls) (value : Option ℕ) (clock : Option (ℕ × ℕ))
    → IsValid r
    → IsValid (thread_exit_destructor r tls value clock).1
unfolding thread_exit_destructor
thread_exit_destructor-IsValid r tls none clock ok = ok
thread_exit_destructor-IsValid r tls (some s) clock ok =
    if_all IsValid r.accept_events _ r (emit_event_to_context-IsValid r s thread_exit 0 0 clock ok)
      ok
