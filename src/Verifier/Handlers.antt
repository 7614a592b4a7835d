-- ===== src/Verifier/Handlers.antt =====
-- src/monitor_verifier.c, the `handle_…` functions: one for each kind of event.
use runtime_monitor.Base.{
  ℕ, Bool, true, false, not, ◌&&◌, Option, none, some, leb, ◌==◌, if◌then◌else◌,
}
use runtime_monitor.Event.{Event}
use runtime_monitor.Verifier.State.{
  Verifier, ThreadState, MutexState, thread_at, mutex_at, set_thread, set_mutex,
}
use runtime_monitor.Verifier.Lookup.{find_thread, find_mutex}
use runtime_monitor.Verifier.Reports.{
  report_self_deadlock_candidate, report_non_owner_unlock, report_lock_held_at_thread_exit,
}
use runtime_monitor.Verifier.Held.{find_held_mutex, add_held_mutex, release_held_mutex}
use runtime_monitor.Verifier.Waiting.{set_thread_waiting, clear_thread_waiting}

-- Go on with the slot that a lookup returned, or `return` at NULL.
abbrev pub with_slot : Option ℕ × Verifier → (ℕ → Verifier → Verifier) → Verifier
with_slot (none, v) go = v
with_slot (some i, v) go = go i v

unfoldable pub handle_thread_start : Verifier → Event → Verifier
handle_thread_start v e =
    with_slot (find_thread v e.thread_id true)
      λ i v. set_thread v i (record (thread_at v i) { exited = false })

abbrev pub report_exit : Verifier → ℕ → Event → Verifier
report_exit v i e =
    if not (thread_at v i).trace_tainted && not ((thread_at v i).held_count == 0)
    then report_lock_held_at_thread_exit v e (thread_at v i)
    else v

abbrev pub exit_waiting : Verifier → ℕ → Verifier
exit_waiting v i =
    if (thread_at v i).waiting_mutex == 0
    then v
    else clear_thread_waiting v i (thread_at v i).waiting_mutex

unfoldable pub exit_at : Verifier → ℕ → Event → Verifier
exit_at v i e =
    let v' = exit_waiting (report_exit v i e) i in
    set_thread v' i (record (thread_at v' i) { exited = true })

unfoldable pub handle_thread_exit : Verifier → Event → Verifier
handle_thread_exit v e = with_slot (find_thread v e.thread_id true) λ i v. exit_at v i e

abbrev pub holds : ThreadState → ℕ → Bool
holds t a = elim (find_held_mutex t a) [ none ↦ false | some h ↦ true ]

-- A thread that asks for a mutex it holds, by a complete stream.
unfoldable pub check_self_deadlock : Verifier → ℕ → Event → Verifier
check_self_deadlock v i e =
    if not (thread_at v i).trace_tainted && holds (thread_at v i) e.object_address
    then report_self_deadlock_candidate v e
    else v

unfoldable pub handle_lock_request : Verifier → Event → Verifier
handle_lock_request v e = with_slot (find_thread v e.thread_id true) λ i v.
    let v1 = (find_mutex v e.object_address true).1 in
    set_thread_waiting (check_self_deadlock v1 i e) i e.object_address e.sequence_id

-- The newest change of ownership by global sequence wins.
unfoldable pub new_owner : ℕ → ℕ → MutexState → MutexState
new_owner sequence owner m =
    if leb m.last_state_sequence sequence
    then record m { owner_known = true; owner_thread_id = owner; last_state_sequence = sequence }
    else m

abbrev pub change_owner : Verifier → ℕ → ℕ → ℕ → Verifier
change_owner v j sequence owner = set_mutex v j (new_owner sequence owner (mutex_at v j))

unfoldable pub acquired_at : Verifier → ℕ → ℕ → Event → Verifier
acquired_at v i j e =
    change_owner
      (add_held_mutex (clear_thread_waiting v i e.object_address) i e.object_address e.timestamp_ns)
      j e.sequence_id e.thread_id

-- Both lookups are made, and both must succeed.
abbrev pub with_both : Option ℕ → Option ℕ × Verifier → (ℕ → ℕ → Verifier → Verifier) → Verifier
with_both none (m, v) go = v
with_both (some i) (none, v) go = v
with_both (some i) (some j, v) go = go i j v

unfoldable pub handle_lock_acquired : Verifier → Event → Verifier
handle_lock_acquired v e =
    let (t, v1) = find_thread v e.thread_id true in
    with_both t (find_mutex v1 e.object_address true) λ i j v2. acquired_at v2 i j e

unfoldable pub handle_lock_failed : Verifier → Event → Verifier
handle_lock_failed v e =
    with_slot (find_thread v e.thread_id false) λ i v. clear_thread_waiting v i e.object_address

-- `fully_released` and the state after `release_held_mutex`, where there is a thread.
abbrev pub released : Option ℕ → Verifier → Event → Bool × Verifier
released none v e = (true, v)
released (some i) v e = release_held_mutex v i e

unfoldable pub handle_unlocked : Verifier → Event → Verifier
handle_unlocked v e =
    let (t, v1) = find_thread v e.thread_id false in
    let (m, v2) = find_mutex v1 e.object_address true in
    let (fully_released, v3) = released t v2 e in
    with_slot (m, v3)
      λ j v4. change_owner v4 j e.sequence_id (if fully_released then 0 else e.thread_id)

-- EPERM
abbrev pub eperm : ℕ
eperm = 1

unfoldable pub handle_unlock_failed : Verifier → Event → Verifier
handle_unlock_failed v e = if e.result == eperm then report_non_owner_unlock v e else v
