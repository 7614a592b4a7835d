-- ===== src/Verifier/Verdicts/Candidate.antt =====
-- src/monitor_verifier.c, the `handle_…` functions and what they call: none of them touches the
-- deadlock state.
use runtime_monitor.Base.{
  ℕ, ◌≡◌, Bool, true, false, not, ◌&&◌, ◌==◌, Option, none, some, if_all, Option-cases, inl, inr,
  leb, ltb,
}
use runtime_monitor.Event.{
  Event, EventType, invalid, lock_request, lock_acquired, lock_failed, unlock_request, unlocked,
  unlock_failed, thread_start, thread_exit,
}
use runtime_monitor.Verifier.State.{Verifier, DeadlockState, thread_at, max_held_mutexes}
use runtime_monitor.Verifier.Slots.{Slot, found, missing}
use runtime_monitor.Verifier.Lookup.{
  claim_thread, claim_mutex, thread_slot, mutex_slot, find_thread, find_mutex,
}
use runtime_monitor.Verifier.Reports.{
  report_self_deadlock_candidate, report_non_owner_unlock, report_hold_time_violation,
  report_lock_held_at_thread_exit,
}
use runtime_monitor.Verifier.Held.{
  held_at, held_for, exceeds, check_hold_time, find_held_mutex, add_held_mutex, release_at,
  release_held_mutex,
}
use runtime_monitor.Verifier.Waiting.{set_thread_waiting, stop_waiting, clear_thread_waiting}
use runtime_monitor.Verifier.Handlers.{
  with_slot, with_both, holds, report_exit, exit_at, handle_thread_start, handle_thread_exit,
  check_self_deadlock, handle_lock_request, acquired_at, handle_lock_acquired, handle_lock_failed,
  released, handle_unlocked, handle_unlock_failed, eperm,
}
use runtime_monitor.Verifier.Process.{dispatch}

-- No lookup, change of the tables or report touches the candidate.
module _ (d : DeadlockState) where
  abbrev pub Keeps : Verifier → Type 0
  Keeps v = v.deadlock ≡ d

  claim_thread-Keeps :
      (v : Verifier) (id : ℕ) (create : Bool) (s : Slot)
      → Keeps v
      → Keeps (claim_thread v id create s).1
  claim_thread-Keeps v id create (found i) h = h
  claim_thread-Keeps v id false (missing free) h = h
  claim_thread-Keeps v id true (missing none) h = h
  claim_thread-Keeps v id true (missing (some i)) h = h

  find_thread-Keeps :
      (v : Verifier) (id : ℕ) (create : Bool) → Keeps v → Keeps (find_thread v id create).1
  unfolding find_thread
  find_thread-Keeps v id create h = claim_thread-Keeps v id create (thread_slot v id) h

  claim_mutex-Keeps :
      (v : Verifier) (a : ℕ) (create : Bool) (s : Slot)
      → Keeps v
      → Keeps (claim_mutex v a create s).1
  claim_mutex-Keeps v a create (found j) h = h
  claim_mutex-Keeps v a false (missing free) h = h
  claim_mutex-Keeps v a true (missing none) h = h
  claim_mutex-Keeps v a true (missing (some j)) h = h

  find_mutex-Keeps :
      (v : Verifier) (a : ℕ) (create : Bool) → Keeps v → Keeps (find_mutex v a create).1
  unfolding find_mutex
  find_mutex-Keeps v a create h = claim_mutex-Keeps v a create (mutex_slot v a) h

  with_slot-Keeps :
      (r : Option ℕ × Verifier) (go : ℕ → Verifier → Verifier)
      → Keeps r.1
      → ((i : ℕ) (v : Verifier) → Keeps v → Keeps (go i v))
      → Keeps (with_slot r go)
  with_slot-Keeps (none, v) go h k = h
  with_slot-Keeps (some i, v) go h k = k i v h

  clear_thread_waiting-Keeps :
      (v : Verifier) (i a : ℕ) → Keeps v → Keeps (clear_thread_waiting v i a)
  unfolding clear_thread_waiting stop_waiting
  clear_thread_waiting-Keeps v i a h = if_all Keeps ((thread_at v i).waiting_mutex == a) _ v h h

  exit_at-Keeps : (v : Verifier) (i : ℕ) (e : Event) → Keeps v → Keeps (exit_at v i e)
  unfolding exit_at report_lock_held_at_thread_exit
  exit_at-Keeps v i e h =
      let w = report_exit v i e in
      let reported : Keeps w =
        if_all Keeps (not (thread_at v i).trace_tainted && not ((thread_at v i).held_count == 0)) _
          v h h in
      if_all Keeps ((thread_at w i).waiting_mutex == 0) w _ reported
        (clear_thread_waiting-Keeps w i (thread_at w i).waiting_mutex reported)

  check_self_deadlock-Keeps :
      (v : Verifier) (i : ℕ) (e : Event) → Keeps v → Keeps (check_self_deadlock v i e)
  unfolding check_self_deadlock report_self_deadlock_candidate
  check_self_deadlock-Keeps v i e h =
      if_all Keeps (not (thread_at v i).trace_tainted && holds (thread_at v i) e.object_address) _ v
        h h

  add_held_mutex-Keeps : (v : Verifier) (i a now : ℕ) → Keeps v → Keeps (add_held_mutex v i a now)
  unfolding add_held_mutex
  add_held_mutex-Keeps v i a now h = elim (Option-cases (find_held_mutex (thread_at v i) a)) [
    | inl e ↦
        if_all Keeps (thread_at v i).trace_tainted v _ h
          (rw e (if_all Keeps (leb max_held_mutexes (thread_at v i).held_count) _ _ h h))
    | inr (k, e) ↦ if_all Keeps (thread_at v i).trace_tainted v _ h (rw e h)
  ]

  release_at-Keeps :
      (v : Verifier) (i : ℕ) (e : Event) (k : ℕ) → Keeps v → Keeps (release_at v i e k).1
  unfolding check_hold_time report_hold_time_violation
  release_at-Keeps v i e k h =
      let held = held_at (thread_at v i).held_mutexes k in
      if_all (λ (x : Bool × Verifier). Keeps x.1) (ltb 1 held.depth) _ _ h
        (if_all Keeps (exceeds v (held_for e held)) _ v h h)

  release_held_mutex-Keeps :
      (v : Verifier) (i : ℕ) (e : Event) → Keeps v → Keeps (release_held_mutex v i e).1
  unfolding release_held_mutex
  release_held_mutex-Keeps v i e h =
      elim (Option-cases (find_held_mutex (thread_at v i) e.object_address)) [
        | inl q ↦
            if_all (λ (x : Bool × Verifier). Keeps x.1) (thread_at v i).trace_tainted _ _ h (rw q h)
        | inr (k, q) ↦
            if_all (λ (x : Bool × Verifier). Keeps x.1) (thread_at v i).trace_tainted _ _ h
              (rw q (release_at-Keeps v i e k h))
      ]

  released-Keeps : (t : Option ℕ) (v : Verifier) (e : Event) → Keeps v → Keeps (released t v e).1
  released-Keeps none v e h = h
  released-Keeps (some i) v e h = release_held_mutex-Keeps v i e h

  lock_acquired-Keeps : (v : Verifier) (e : Event) → Keeps v → Keeps (handle_lock_acquired v e)
  unfolding handle_lock_acquired acquired_at
  lock_acquired-Keeps v e h =
      let (t, v1) = find_thread v e.thread_id true in
      go t (find_mutex v1 e.object_address true) v1 (find_thread-Keeps v e.thread_id true h)
        (find_mutex-Keeps v1 e.object_address true (find_thread-Keeps v e.thread_id true h))
    where
      go :
          (t : Option ℕ) (m : Option ℕ × Verifier) (v1 : Verifier)
          → Keeps v1
          → Keeps m.1
          → Keeps (with_both t m λ i j v2. acquired_at v2 i j e)
      go none (m, w) v1 h1 h2 = h2
      go (some i) (none, w) v1 h1 h2 = h2
      go (some i) (some j, w) v1 h1 h2 =
          add_held_mutex-Keeps (clear_thread_waiting w i e.object_address) i e.object_address
            e.timestamp_ns (clear_thread_waiting-Keeps w i e.object_address h2)

  unlocked-Keeps : (v : Verifier) (e : Event) → Keeps v → Keeps (handle_unlocked v e)
  unfolding handle_unlocked
  unlocked-Keeps v e h =
      let t = (find_thread v e.thread_id false).0 in
      let v1 = (find_thread v e.thread_id false).1 in
      let v2 = (find_mutex v1 e.object_address true).1 in
      with_slot-Keeps _ _
        (released-Keeps t v2 e
          (find_mutex-Keeps v1 e.object_address true (find_thread-Keeps v e.thread_id false h)))
        (λ j w k. k)

  -- The whole `switch`.
  pub dispatch-Keeps : (t : EventType) (v : Verifier) (e : Event) → Keeps v → Keeps (dispatch t v e)
  unfolding dispatch handle_thread_start handle_thread_exit handle_lock_request handle_lock_failed
      handle_unlock_failed report_non_owner_unlock set_thread_waiting
  dispatch-Keeps thread_start v e h =
      with_slot-Keeps _ _ (find_thread-Keeps v e.thread_id true h) (λ i w k. k)
  dispatch-Keeps thread_exit v e h =
      with_slot-Keeps _ _ (find_thread-Keeps v e.thread_id true h) (λ i w k. exit_at-Keeps w i e k)
  dispatch-Keeps lock_request v e h =
      with_slot-Keeps _ _ (find_thread-Keeps v e.thread_id true h) (λ i w k.
        check_self_deadlock-Keeps (find_mutex w e.object_address true).1 i e
          (find_mutex-Keeps w e.object_address true k))
  dispatch-Keeps lock_acquired v e h = lock_acquired-Keeps v e h
  dispatch-Keeps lock_failed v e h =
      with_slot-Keeps _ _ (find_thread-Keeps v e.thread_id false h)
        (λ i w k. clear_thread_waiting-Keeps w i e.object_address k)
  dispatch-Keeps unlocked v e h = unlocked-Keeps v e h
  dispatch-Keeps unlock_failed v e h = if_all Keeps (e.result == eperm) _ v h h
  dispatch-Keeps unlock_request v e h = h
  dispatch-Keeps invalid v e h = h
