-- ===== src/Verifier/Invariant/Run.antt =====
-- src/monitor_verifier.c: the states that events and deadlock checks reach from initialisation.
use runtime_monitor.Base.{
  ℕ, ◌≡◌, ◌≢◌, refl, arith, Bool, true, false, Option, none, some, ◌==◌, length-replicate,
  get_or-replicate, Bool-cases, Option-cases, inl, inr, ltb,
}
use runtime_monitor.Event.{
  Event, EventType, invalid, lock_request, lock_acquired, lock_failed, unlock_request, unlocked,
  unlock_failed, thread_start, thread_exit, decode,
}
use runtime_monitor.Verifier.State.{
  confirmations_required, Verifier, zero_thread, zero_mutex, max_threads, max_mutexes,
}
use runtime_monitor.Verifier.Reports.{report_deadlock_cycle}
use runtime_monitor.Verifier.Cycle.{Cycle, find_any_cycle}
use runtime_monitor.Verifier.Gap.{observe_thread_sequence, observed}
use runtime_monitor.Verifier.Process.{init, dispatch, count_event, processed, process_event}
use runtime_monitor.Verifier.Deadlock.{confirm, cycle_seen, check_deadlocks}
use runtime_monitor.Verifier.Invariant.{zero_thread-ThreadOk, IsValid}
use runtime_monitor.Verifier.Invariant.Gaps.{observe_at-Live}
use runtime_monitor.Verifier.Invariant.Lookups.{ThreadFound, find_thread-ThreadFound}
use runtime_monitor.Verifier.Invariant.Handlers.{
  handle_thread_start-IsValid, handle_thread_exit-IsValid, handle_lock_request-IsValid,
  handle_lock_acquired-IsValid, handle_lock_failed-IsValid, handle_unlocked-IsValid,
  handle_unlock_failed-IsValid,
}

-- The events about a lock that an interceptor emits name a mutex: its address is not NULL.
abbrev pub names_mutex : EventType → Bool
names_mutex lock_request = true
names_mutex lock_acquired = true
names_mutex lock_failed = true
names_mutex _ = false

abbrev pub NamesMutex : Event → Type 0
NamesMutex e = names_mutex (decode e.event_type) ≡ true → e.object_address ≢ 0

-- The tables after `monitor_verifier_init` satisfy the invariant.
pub init-IsValid : (threshold : ℕ) → IsValid (init threshold)
unfolding init
init-IsValid threshold = record {
  threads = length-replicate max_threads zero_thread;
  mutexes = length-replicate max_mutexes zero_mutex;
  each = λ i. rw (get_or-replicate max_threads i zero_thread) zero_thread-ThreadOk;
  thread_unique =
      λ i j ui uj e. absurd (ground (arith, get_or-replicate max_threads i zero_thread));
  mutex_unique = λ i j ui uj e. absurd (ground (arith, get_or-replicate max_mutexes i zero_mutex));
  waiting_counted = refl;
  tainted_counted = refl;
}

dispatch-IsValid :
    (t : EventType) (v : Verifier) (e : Event)
    → (names_mutex t ≡ true → e.object_address ≢ 0)
    → IsValid v
    → IsValid (dispatch t v e)
unfolding dispatch
dispatch-IsValid thread_start v e ne ok = handle_thread_start-IsValid v e ok
dispatch-IsValid thread_exit v e ne ok = handle_thread_exit-IsValid v e ok
dispatch-IsValid lock_request v e ne ok = handle_lock_request-IsValid v e (ne refl) ok
dispatch-IsValid lock_acquired v e ne ok = handle_lock_acquired-IsValid v e (ne refl) ok
dispatch-IsValid lock_failed v e ne ok = handle_lock_failed-IsValid v e (ne refl) ok
dispatch-IsValid unlocked v e ne ok = handle_unlocked-IsValid v e ok
dispatch-IsValid unlock_failed v e ne ok = handle_unlock_failed-IsValid v e ok
dispatch-IsValid unlock_request v e ne ok = ok
dispatch-IsValid invalid v e ne ok = ok

processed-IsValid :
    (e : Event) (r : Option ℕ × Verifier)
    → NamesMutex e
    → ThreadFound e.thread_id r
    → IsValid (processed e (observed e r))
processed-IsValid e (none, v) ne ok = ok
processed-IsValid e (some i, v) ne (l, _) =
    dispatch-IsValid (decode e.event_type) _ e ne (observe_at-Live v i e l).valid

-- Processing an event of any kind keeps the invariant of the tables and of the two counters of threads,
-- whether or not there is room for its thread and its mutex, if a lock event names a mutex.
pub process_event-IsValid :
    (v : Verifier) (e : Event) → NamesMutex e → IsValid v → IsValid (process_event v e)
unfolding process_event observe_thread_sequence
process_event-IsValid v e ne ok =
    processed-IsValid e _ ne (find_thread-ThreadFound (count_event v e) e.thread_id true ok)

cycle_seen-IsValid : (v : Verifier) (c : Cycle) → IsValid v → IsValid (cycle_seen v c)
unfolding cycle_seen report_deadlock_cycle
cycle_seen-IsValid v c ok = elim (Bool-cases (v.deadlock.candidate_cycle_mask == c.mask)) [
  | inr new ↦ rw new ok
  | inl same ↦
      rw same
        (elim (Bool-cases
          (ltb (confirm v).deadlock.candidate_cycle_confirmations confirmations_required)) [
            | inl few ↦ rw few ok
            | inr enough ↦ rw enough (elim (Bool-cases (v.deadlock.reported_cycle_mask == c.mask)) [
              | inl old ↦ rw old ok
              | inr fresh ↦ rw fresh ok
            ])
          ])
]

-- A deadlock check keeps the invariant.
pub check_deadlocks-IsValid : (v : Verifier) → IsValid v → IsValid (check_deadlocks v)
unfolding check_deadlocks
check_deadlocks-IsValid v ok = elim (Bool-cases (ltb v.waiting_thread_count 2)) [
  | inl few ↦ rw few ok
  | inr more ↦ elim (Option-cases (find_any_cycle v)) [
    | inl e ↦ rw (more, e) ok
    | inr (c, e) ↦ rw (more, e) (cycle_seen-IsValid v c ok)
  ]
]

-- What the consumer thread does with the verifier: it hands over an event, or asks for a check.
pub data Turn : Verifier → Verifier → Type 0 where
  event : {v : Verifier} (e : Event) → NamesMutex e → Turn v (process_event v e)
  check : {v : Verifier} → Turn v (check_deadlocks v)

pub data Reach : Verifier → Type 0 where
  start : (threshold : ℕ) → Reach (init threshold)
  later : {v w : Verifier} → Reach v → Turn v w → Reach w

Turn-IsValid : {v w : Verifier} → Turn v w → IsValid v → IsValid w
Turn-IsValid (event {v} e ne) ok = process_event-IsValid v e ne ok
Turn-IsValid (check {v}) ok = check_deadlocks-IsValid v ok

-- Every state that the consumer can bring the verifier to, from initialisation by events whose lock
-- events name a mutex and by deadlock checks in any order, satisfies the invariant: no two slots
-- in use have the same key, a free slot is clean, the held mutexes are distinct and within their
-- table, and the two counters of threads count the threads that wait and those that are tainted.
pub Reach-IsValid : {v : Verifier} → Reach v → IsValid v
Reach-IsValid (start threshold) = init-IsValid threshold
Reach-IsValid (later r t) = Turn-IsValid t (Reach-IsValid r)
