-- ===== src/Runtime/Run.antt =====
-- src/monitor_runtime.c: the monitored program and the consumer as a step relation, from a start on.
use runtime_monitor.Base.{
  ℕ, ◌≤◌, ◌<◌, ◌≡◌, inl, refl, sym, ◌∙◌, ap, subst, arith, Bool, not, Option, none, some, ◌==◌,
  replicate, get_or-replicate, if_all, length-map, get_or-map,
}
use runtime_monitor.Event.{EventType, thread_exit}
use runtime_monitor.Verifier.Deadlock.{check_deadlocks}
use runtime_monitor.Runtime.State.{
  Context, Runtime, Tls, fresh_tls, zero_context, max_contexts, context_at,
}
use runtime_monitor.Runtime.Producer.{Answers, thread_exit_destructor, emit}
use runtime_monitor.Runtime.Consumer.{visit}
use runtime_monitor.Runtime.Lifecycle.{runtime_start, reset, deactivate, stopping}
use runtime_monitor.Runtime.Conservation.{
  Balanced, IsValid, frame-IsValid, emit-IsValid, thread_exit_destructor-IsValid,
}
use runtime_monitor.Runtime.Shutdown.{visit-Progress}
use runtime_monitor.Runtime.Ownership.{
  System, tls_at, after, Sound, Grows, Grows-of_Claims, emit-Claims, after-Sound,
  emit_event_to_context_frame,
}

-- One step: a thread emits an event or exits, or the consumer drains a context or checks the graph.
pub data Step : System → System → Type 0 where
  emits :
      {s : System} (i : ℕ) (t : EventType) (address result : ℕ) (a : Answers)
      → Step s (after s i (emit s.runtime (tls_at s i) t address result a))
  exits :
      {s : System} (i : ℕ) (clock : Option (ℕ × ℕ))
      → Step s
          (after s i (thread_exit_destructor s.runtime (tls_at s i) (tls_at s i).context clock))
  drains :
      {s : System} (any : Bool) (k : ℕ)
      → k < max_contexts
      → Step s (record s { runtime = (visit (any, s.runtime) k).1 })
  checks_graph :
      {s : System}
      → Step s (record s {
        runtime = record (s.runtime) { verifier = check_deadlocks s.runtime.verifier };
      })
  stops : {s : System} → Step s (record s { runtime = stopping s.runtime })

-- A runtime with other contexts and variables, and the same slots given out.
runtime-Sound :
    (s : System) (r' : Runtime)
    → Sound s
    → IsValid r'
    → r'.next_thread_slot ≡ s.runtime.next_thread_slot
    → Sound (record s { runtime = r' })
runtime-Sound s r' ok v same = record {
  valid = v;
  given = λ i k e. omega (arith, same, ok.given i k e);
  single = ok.single;
}

exit-Grows :
    (r : Runtime) (tls : Tls) (value : Option ℕ) (clock : Option (ℕ × ℕ))
    → ((k : ℕ) → tls.context ≡ some k → k < r.next_thread_slot)
    → let (tls', r') = thread_exit_destructor r tls value clock in Grows tls r tls' r'
unfolding thread_exit_destructor
exit-Grows r tls none clock given = record { more = omega arith; own = λ k e. (inl e, given k e) }
exit-Grows r tls (some s) clock given = record {
  more =
      if_all (λ (x : Runtime). r.next_thread_slot ≤ x.next_thread_slot) r.accept_events _ r
        (omega (arith, emit_event_to_context_frame r s thread_exit 0 0 clock)) (omega arith);
  own = λ k e. absurd (cc);
}

Step-Sound : {s s' : System} → Step s s' → Sound s → Sound s'
Step-Sound (emits {s} i t address result a) ok =
    after-Sound s i _ _ ok (emit-IsValid s.runtime (tls_at s i) t address result a ok.valid)
      (Grows-of_Claims s i _ _ ok (emit-Claims s.runtime (tls_at s i) t address result a))
Step-Sound (exits {s} i clock) ok =
    after-Sound s i _ _ ok
      (thread_exit_destructor-IsValid s.runtime (tls_at s i) (tls_at s i).context clock ok.valid)
      (exit-Grows s.runtime (tls_at s i) (tls_at s i).context clock (ok.given i))
Step-Sound (drains {s} any k p) ok =
    let p = visit-Progress any s.runtime k ok.valid p in runtime-Sound s _ ok p.0.valid p.0.slots
Step-Sound (checks_graph {s}) ok =
    runtime-Sound s _ ok (frame-IsValid s.runtime _ refl refl ok.valid) refl
Step-Sound (stops {s}) ok = runtime-Sound s _ ok (frame-IsValid s.runtime _ refl refl ok.valid) refl

deactivate-Balanced : (c : Context) → Balanced c → Balanced (deactivate c)
deactivate-Balanced c b = record { queue = b.queue; conserved = b.conserved; numbered = b.numbered }

reset-IsValid : (r : Runtime) (threshold : ℕ) → IsValid r → IsValid (reset r threshold)
reset-IsValid r threshold ok = record {
  storage = length-map deactivate r.contexts ∙ ok.storage;
  each = λ i.
      subst Balanced (sym (get_or-map deactivate r.contexts i zero_context))
        (deactivate-Balanced (context_at r i) (ok.each i));
  slots = omega arith;
}

-- A start, whatever the system answers, leaves the contexts balanced.
pub runtime_start-IsValid :
    (r : Runtime) (threshold key_rc consumer_rc : ℕ)
    → IsValid r
    → IsValid (runtime_start r threshold key_rc consumer_rc).1
unfolding runtime_start
runtime_start-IsValid r threshold key_rc consumer_rc ok =
    let v = reset-IsValid r threshold ok in
    let Ok = λ (x : ℕ × Runtime). IsValid x.1 in
    if_all Ok (not (key_rc == 0)) _ _ v (
      if_all Ok (not (consumer_rc == 0)) _ _ (frame-IsValid (reset r threshold) _ refl refl v)
        (frame-IsValid (reset r threshold) _ refl refl v))

-- What can be reached from a start, with `n` threads that have no context yet.
pub data Reach : System → Type 0 where
  start :
      (r : Runtime) (n threshold key_rc consumer_rc : ℕ)
      → IsValid r
      → Reach (record {
        runtime = (runtime_start r threshold key_rc consumer_rc).1;
        threads = replicate n fresh_tls;
      })
  later : {s s' : System} → Reach s → Step s s' → Reach s'

-- In every state that the threads, the consumer and a stop can reach from a start, in any order of
-- their steps: what each context generated is what was consumed, was dropped, or waits in its queue
-- (modulo 2^64); its queue is valid, its next event carries the number of events generated so far
-- (modulo 2^32); and no two threads have the same context.
pub Reach-Sound : {s : System} → Reach s → Sound s
Reach-Sound (start r n threshold key_rc consumer_rc ok) = record {
  valid = runtime_start-IsValid r threshold key_rc consumer_rc ok;
  given =
      λ i k e. absurd (cc (ap (λ (x : Tls). x.context) (sym (get_or-replicate n i fresh_tls)) ∙ e));
  single = λ i j k e f.
      absurd (cc (ap (λ (x : Tls). x.context) (sym (get_or-replicate n i fresh_tls)) ∙ e));
}
Reach-Sound (later r t) = Step-Sound t (Reach-Sound r)
