-- ===== src/Verifier/Invariant/Handlers.antt =====
-- src/monitor_verifier.c, the `handle_…` functions and the invariant of the tables.
use runtime_monitor.Base.{
  ℕ, ◌<◌, ◌≡◌, ◌≢◌, arith, Bool, true, false, not, ◌&&◌, Option, none, some, ◌==◌, if◌then◌else◌,
  length-set, get_or-set, Bool-cases, inl, inr,
}
use runtime_monitor.Event.{Event}
use runtime_monitor.Verifier.State.{
  Verifier, MutexState, zero_mutex, max_mutexes, thread_at, mutex_at,
}
use runtime_monitor.Verifier.Lookup.{find_mutex}
use runtime_monitor.Verifier.Reports.{
  report_self_deadlock_candidate, report_non_owner_unlock, report_lock_held_at_thread_exit,
}
use runtime_monitor.Verifier.Held.{add_held_mutex, release_held_mutex}
use runtime_monitor.Verifier.Waiting.{clear_thread_waiting}
use runtime_monitor.Verifier.Handlers.{
  with_slot, with_both, handle_thread_start, report_exit, exit_waiting, exit_at, handle_thread_exit,
  holds, check_self_deadlock, handle_lock_request, new_owner, change_owner, acquired_at,
  handle_lock_acquired, handle_lock_failed, released, handle_unlocked, eperm, handle_unlock_failed,
}
use runtime_monitor.Verifier.Invariant.{IsValid, mutexes-Tables}
use runtime_monitor.Verifier.Invariant.Threads.{
  Live, set_thread_waiting-Live, clear_thread_waiting-Live, add_held_mutex-Live,
  release_held_mutex-Live,
}
use runtime_monitor.Verifier.Invariant.Gaps.{exited-Live}
use runtime_monitor.Verifier.Invariant.Lookups.{
  ThreadFound, find_thread-ThreadFound, MutexFound, find_mutex-MutexFound,
}

-- A handler that goes on with the slot found.
with_thread-IsValid :
    (id : ℕ) (r : Option ℕ × Verifier) (go : ℕ → Verifier → Verifier)
    → ((i : ℕ) (v : Verifier) → Live v i → IsValid (go i v))
    → ThreadFound id r
    → IsValid (with_slot r go)
with_thread-IsValid id (none, v) go keep f = f
with_thread-IsValid id (some i, v) go keep f = keep i v f.0

pub handle_thread_start-IsValid :
    (v : Verifier) (e : Event) → IsValid v → IsValid (handle_thread_start v e)
unfolding handle_thread_start
handle_thread_start-IsValid v e ok =
    with_thread-IsValid e.thread_id _ _ (λ i v' l. (exited-Live v' i false l).valid)
      (find_thread-ThreadFound v e.thread_id true ok)

exit_waiting-Live : (v : Verifier) (i : ℕ) → Live v i → Live (exit_waiting v i) i
exit_waiting-Live v i l = elim (Bool-cases ((thread_at v i).waiting_mutex == 0)) [
  | inl idle ↦ rw idle l
  | inr waits ↦
      rw waits (clear_thread_waiting-Live v i (thread_at v i).waiting_mutex l (ground arith))
]

report_exit-Live : (v : Verifier) (i : ℕ) (e : Event) → Live v i → Live (report_exit v i e) i
unfolding report_lock_held_at_thread_exit
report_exit-Live v i e l =
    elim (Bool-cases (not (thread_at v i).trace_tainted && not ((thread_at v i).held_count == 0))) [
      | inl holds_some ↦ rw holds_some (record { valid = l.valid; used = l.used })
      | inr free ↦ rw free l
    ]

exit_at-Live : (v : Verifier) (i : ℕ) (e : Event) → Live v i → Live (exit_at v i e) i
unfolding exit_at
exit_at-Live v i e l = exited-Live _ i true (exit_waiting-Live _ i (report_exit-Live v i e l))

pub handle_thread_exit-IsValid :
    (v : Verifier) (e : Event) → IsValid v → IsValid (handle_thread_exit v e)
unfolding handle_thread_exit
handle_thread_exit-IsValid v e ok =
    with_thread-IsValid e.thread_id _ _ (λ i v' l. (exit_at-Live v' i e l).valid)
      (find_thread-ThreadFound v e.thread_id true ok)

check_self_deadlock-Live :
    (v : Verifier) (i : ℕ) (e : Event) → Live v i → Live (check_self_deadlock v i e) i
unfolding check_self_deadlock report_self_deadlock_candidate
check_self_deadlock-Live v i e l =
    elim (Bool-cases
      (not (thread_at v i).trace_tainted && holds (thread_at v i) e.object_address)) [
        | inl again ↦ rw again (record { valid = l.valid; used = l.used })
        | inr other ↦ rw other l
      ]

-- A lookup of a mutex keeps a thread's slot.
found-Live :
    (v : Verifier) (i a : ℕ) (r : Option ℕ × Verifier) → Live v i → MutexFound v a r → Live (r.1) i
found-Live v i a (none, v') l (ok, same) = record { valid = ok; used = rw same l.used }
found-Live v i a (some j, v') l (ok, same, _, _, _) = record { valid = ok; used = rw same l.used }

pub handle_lock_request-IsValid :
    (v : Verifier) (e : Event)
    → e.object_address ≢ 0
    → IsValid v
    → IsValid (handle_lock_request v e)
unfolding handle_lock_request
handle_lock_request-IsValid v e ne ok =
    with_thread-IsValid e.thread_id _ _
      (λ i v' l.
        (set_thread_waiting-Live _ i e.object_address e.sequence_id
          (check_self_deadlock-Live _ i e (
            found-Live v' i e.object_address _ l
              (find_mutex-MutexFound v' e.object_address true l.valid)))
          ne).valid)
      (find_thread-ThreadFound v e.thread_id true ok)

-- A change of ownership keeps a mutex's identity.
new_owner_frame :
    (s o : ℕ) (m : MutexState)
    → ((new_owner s o m).used ≡ m.used) × ((new_owner s o m).address ≡ m.address)
unfolding new_owner
new_owner_frame s o m = ground arith

change_owner-IsValid :
    (v : Verifier) (j s o : ℕ) → j < max_mutexes → IsValid v → IsValid (change_owner v j s o)
change_owner-IsValid v j s o p ok =
    mutexes-Tables ok _ (length-set v.mutexes j (new_owner s o (mutex_at v j))) λ x y ux uy e.
      ground (
        arith,
        ok.mutexes,
        get_or-set v.mutexes j x (new_owner s o (mutex_at v j)) zero_mutex,
        get_or-set v.mutexes j y (new_owner s o (mutex_at v j)) zero_mutex,
        new_owner_frame s o (mutex_at v j),
        ok.mutex_unique x y,
      )

acquired_at-IsValid :
    (v : Verifier) (i j : ℕ) (e : Event)
    → e.object_address ≢ 0
    → j < max_mutexes
    → Live v i
    → IsValid (acquired_at v i j e)
unfolding acquired_at
acquired_at-IsValid v i j e ne p l =
    change_owner-IsValid
      (add_held_mutex (clear_thread_waiting v i e.object_address) i e.object_address e.timestamp_ns)
      j e.sequence_id e.thread_id p
      (add_held_mutex-Live _ i e.object_address e.timestamp_ns
        (clear_thread_waiting-Live v i e.object_address l ne)).valid

-- The thread's lookup, then the mutex's.
acquired_with-IsValid :
    (e : Event) (r : Option ℕ × Verifier)
    → e.object_address ≢ 0
    → ThreadFound e.thread_id r
    → IsValid (with_both r.0 (find_mutex r.1 e.object_address true) λ i j v. acquired_at v i j e)
acquired_with-IsValid e (none, v) ne ok =
    mutex_found _ (find_mutex-MutexFound v e.object_address true ok)
  where
    mutex_found : (m : Option ℕ × Verifier) → MutexFound v e.object_address m → IsValid (m.1)
    mutex_found (none, v') f = f.0
    mutex_found (some j, v') f = f.0
acquired_with-IsValid e (some i, v) ne (l, _) =
    mutex_found _ (find_mutex-MutexFound v e.object_address true l.valid)
  where
    mutex_found :
        (m : Option ℕ × Verifier)
        → MutexFound v e.object_address m
        → IsValid (with_both (some i) m λ i j v. acquired_at v i j e)
    mutex_found (none, v') f = f.0
    mutex_found (some j, v') f =
        acquired_at-IsValid v' i j e ne (omega (arith, f.4, f.0.mutexes))
          (record { valid = f.0; used = rw f.1 l.used })

pub handle_lock_acquired-IsValid :
    (v : Verifier) (e : Event)
    → e.object_address ≢ 0
    → IsValid v
    → IsValid (handle_lock_acquired v e)
unfolding handle_lock_acquired
handle_lock_acquired-IsValid v e ne ok =
    acquired_with-IsValid e _ ne (find_thread-ThreadFound v e.thread_id true ok)

pub handle_lock_failed-IsValid :
    (v : Verifier) (e : Event) → e.object_address ≢ 0 → IsValid v → IsValid (handle_lock_failed v e)
unfolding handle_lock_failed
handle_lock_failed-IsValid v e ne ok =
    with_thread-IsValid e.thread_id _ _
      (λ i v' l. (clear_thread_waiting-Live v' i e.object_address l ne).valid)
      (find_thread-ThreadFound v e.thread_id false ok)

-- What follows the release, with the mutex's slot or without.
unlocked_with-IsValid :
    (v : Verifier) (e : Event) (m : Option ℕ × Verifier) (r : Bool × Verifier)
    → MutexFound v e.object_address m
    → IsValid (r.1)
    → IsValid (
        with_slot
          (m.0, r.1)
          λ j v4. change_owner v4 j e.sequence_id (if r.0 then 0 else e.thread_id))
unlocked_with-IsValid v e (none, v') (b, v3) f ok = ok
unlocked_with-IsValid v e (some j, v') (b, v3) f ok =
    change_owner-IsValid v3 j e.sequence_id _ (omega (arith, f.4, f.0.mutexes)) ok

unlocked_by-IsValid :
    (e : Event) (t : Option ℕ × Verifier)
    → ThreadFound e.thread_id t
    → let (m, v2) = find_mutex t.1 e.object_address true in
      let (fully_released, v3) = released t.0 v2 e in
      IsValid (
        with_slot
          (m, v3)
          λ j v4. change_owner v4 j e.sequence_id (if fully_released then 0 else e.thread_id))
unlocked_by-IsValid e (none, v) ok =
    unlocked_with-IsValid v e m (released none m.1 e) found (valid_of m found)
  where
    m : Option ℕ × Verifier
    m = find_mutex v e.object_address true

    found : MutexFound v e.object_address m
    found = find_mutex-MutexFound v e.object_address true ok

    valid_of : (r : Option ℕ × Verifier) → MutexFound v e.object_address r → IsValid (r.1)
    valid_of (none, v') f = f.0
    valid_of (some j, v') f = f.0
unlocked_by-IsValid e (some i, v) (l, _) =
    unlocked_with-IsValid v e m (release_held_mutex m.1 i e) found
      (release_held_mutex-Live m.1 i e (found-Live v i e.object_address m l found)).valid
  where
    m : Option ℕ × Verifier
    m = find_mutex v e.object_address true

    found : MutexFound v e.object_address m
    found = find_mutex-MutexFound v e.object_address true l.valid

pub handle_unlocked-IsValid : (v : Verifier) (e : Event) → IsValid v → IsValid (handle_unlocked v e)
unfolding handle_unlocked
handle_unlocked-IsValid v e ok =
    unlocked_by-IsValid e _ (find_thread-ThreadFound v e.thread_id false ok)

pub handle_unlock_failed-IsValid :
    (v : Verifier) (e : Event) → IsValid v → IsValid (handle_unlock_failed v e)
unfolding handle_unlock_failed report_non_owner_unlock
handle_unlock_failed-IsValid v e ok = elim (Bool-cases (e.result == eperm)) [
  | inl refused ↦ rw refused ok
  | inr other ↦ rw other ok
]
