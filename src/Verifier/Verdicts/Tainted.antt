-- ===== src/Verifier/Verdicts/Tainted.antt =====
-- src/monitor_verifier.c: what is written at the events of a thread whose stream has a gap.
use runtime_monitor.Base.{
  ℕ, ◌≡◌, ◌≢◌, refl, ◌∙◌, ap, Bool, true, false, not, ◌&&◌, ◌||◌, ◌==◌, if◌then◌else◌, Option, none,
  some, get_or, if_all, if_true, if_false, Option-cases, inl, inr, leb,
}
use runtime_monitor.Event.{
  Event, EventType, invalid, lock_request, lock_acquired, lock_failed, unlock_request, unlocked,
  unlock_failed, thread_start, thread_exit, decode,
}
use runtime_monitor.Verifier.State.{Verifier, zero_thread, max_held_mutexes, thread_at}
use runtime_monitor.Verifier.Slots.{Slot, found, missing}
use runtime_monitor.Verifier.Lookup.{claim_mutex, mutex_slot, find_thread, find_mutex}
use runtime_monitor.Verifier.Held.{find_held_mutex, add_held_mutex, release_held_mutex}
use runtime_monitor.Verifier.Waiting.{set_thread_waiting, stop_waiting, clear_thread_waiting}
use runtime_monitor.Verifier.Gap.{observe_at, observed, observe_thread_sequence, expected}
use runtime_monitor.Verifier.Handlers.{
  with_slot, with_both, holds, handle_thread_start, exit_at, exit_waiting, report_exit,
  handle_thread_exit, check_self_deadlock, handle_lock_request, acquired_at, handle_lock_acquired,
  handle_lock_failed, released, change_owner, handle_unlocked,
}
use runtime_monitor.Verifier.Process.{
  dispatch, count_event, reset_candidate, processed, process_event,
}
use runtime_monitor.Verifier.Invariant.{IsValid, lt_of_used}
use runtime_monitor.Verifier.Invariant.Threads.{Live}
use runtime_monitor.Verifier.Invariant.Gaps.{observe_at-Live}
use runtime_monitor.Verifier.Invariant.Lookups.{find_thread-Live}
use runtime_monitor.Verifier.Verdicts.Gaps.{gap_noticed, observe_at_frame}

-- Lookups and changes of the tables write nothing.
find_mutex_frame :
    (v : Verifier) (a : ℕ) (create : Bool)
    → let v' = (find_mutex v a create).1 in (v'.threads ≡ v.threads) × (v'.output ≡ v.output)
unfolding find_mutex
find_mutex_frame v a create = go create (mutex_slot v a)
  where
    go :
        (create : Bool) (s : Slot)
        → let v' = (claim_mutex v a create s).1 in (v'.threads ≡ v.threads) × (v'.output ≡ v.output)
    go create (found j) = (refl, refl)
    go false (missing free) = (refl, refl)
    go true (missing none) = (refl, refl)
    go true (missing (some j)) = (refl, refl)

add_held_mutex_frame : (v : Verifier) (i a now : ℕ) → (add_held_mutex v i a now).output ≡ v.output
unfolding add_held_mutex
add_held_mutex_frame v i a now = elim (Option-cases (find_held_mutex (thread_at v i) a)) [
  | inl e ↦
      if_all (λ (x : Verifier). x.output ≡ v.output) (thread_at v i).trace_tainted v _ refl
        (rw e (
          if_all (λ (x : Verifier). x.output ≡ v.output)
            (leb max_held_mutexes (thread_at v i).held_count) _ _ refl refl))
  | inr (h, e) ↦
      if_all (λ (x : Verifier). x.output ≡ v.output) (thread_at v i).trace_tainted v _ refl
        (rw e refl)
]

clear_thread_waiting_frame :
    (v : Verifier) (i a : ℕ) → (clear_thread_waiting v i a).output ≡ v.output
unfolding clear_thread_waiting stop_waiting
clear_thread_waiting_frame v i a =
    if_all (λ (x : Verifier). x.output ≡ v.output) ((thread_at v i).waiting_mutex == a) _ v refl
      refl

exit_waiting_frame : (v : Verifier) (i : ℕ) → (exit_waiting v i).output ≡ v.output
exit_waiting_frame v i =
    if_all (λ (x : Verifier). x.output ≡ v.output) ((thread_at v i).waiting_mutex == 0) v _ refl
      (clear_thread_waiting_frame v i (thread_at v i).waiting_mutex)

module _ (v : Verifier) (i : ℕ) (e : Event) (tainted : (thread_at v i).trace_tainted ≡ true) where
  exit_at-silent : (exit_at v i e).output ≡ v.output
  unfolding exit_at
  exit_at-silent =
      exit_waiting_frame (report_exit v i e) i
      ∙ ap (λ (x : Verifier). x.output)
          (if_false (not (thread_at v i).trace_tainted && not ((thread_at v i).held_count == 0)) _ v
            (rw tainted refl))

  check_self_deadlock-silent : check_self_deadlock v i e ≡ v
  unfolding check_self_deadlock
  check_self_deadlock-silent =
      if_false (not (thread_at v i).trace_tainted && holds (thread_at v i) e.object_address) _ v
        (rw tainted refl)

  release_held_mutex-silent : release_held_mutex v i e ≡ (true, v)
  unfolding release_held_mutex
  release_held_mutex-silent = if_true (thread_at v i).trace_tainted _ _ tainted

-- A handler of a thread in slot `i`, found by its number, from a tainted stream.
module _ (v : Verifier) (i : ℕ) (e : Event) (live : Live v i)
    (same : (thread_at v i).thread_id ≡ e.thread_id)
    (tainted : (thread_at v i).trace_tainted ≡ true) where
  slot : (create : Bool) → find_thread v e.thread_id create ≡ (some i, v)
  slot create = find_thread-Live v e.thread_id i create live same

  found_slot :
      (create : Bool) (go : ℕ → Verifier → Verifier)
      → (with_slot (find_thread v e.thread_id create) go).output ≡ (go i v).output
  found_slot create go = ap (λ x. (with_slot x go).output) (slot create)

  lock_request-silent : (handle_lock_request v e).output ≡ v.output
  unfolding handle_lock_request set_thread_waiting
  lock_request-silent =
      let v1 = (find_mutex v e.object_address true).1 in
      let (threads, out) = find_mutex_frame v e.object_address true in
      let tainted1 = ap (λ ts. (get_or ts i zero_thread).trace_tainted) threads ∙ tainted in
      found_slot true _
      ∙ ap (λ (x : Verifier). x.output) (check_self_deadlock-silent v1 i e tainted1)
      ∙ out

  lock_acquired-silent : (handle_lock_acquired v e).output ≡ v.output
  unfolding handle_lock_acquired acquired_at
  lock_acquired-silent =
      ap
        (λ (x : Option ℕ × Verifier).
          (with_both x.0 (find_mutex x.1 e.object_address true)
            λ i j v2. acquired_at v2 i j e).output)
        (slot true)
      ∙ go (find_mutex v e.object_address true)
      ∙ (find_mutex_frame v e.object_address true).1
    where
      go :
          (m : Option ℕ × Verifier)
          → (with_both (some i) m λ i j v2. acquired_at v2 i j e).output ≡ m.1.output
      go (none, v') = refl
      go (some j, v') =
          add_held_mutex_frame (clear_thread_waiting v' i e.object_address) i e.object_address
            e.timestamp_ns
          ∙ clear_thread_waiting_frame v' i e.object_address

  unlocked-silent : (handle_unlocked v e).output ≡ v.output
  unfolding handle_unlocked
  unlocked-silent =
      ap
        (λ (x : Option ℕ × Verifier).
          let (m, v2) = find_mutex x.1 e.object_address true in
          let (fully_released, v3) = released x.0 v2 e in
          (with_slot (m, v3)
            λ j v4.
              change_owner v4 j e.sequence_id (if fully_released then 0 else e.thread_id)).output)
        (slot false)
      ∙ go (find_mutex v e.object_address true).0 _ (release_held_mutex-silent v1 i e tainted1)
      ∙ (find_mutex_frame v e.object_address true).1
    where
      v1 : Verifier
      v1 = (find_mutex v e.object_address true).1

      tainted1 : (thread_at v1 i).trace_tainted ≡ true
      tainted1 =
          ap (λ ts. (get_or ts i zero_thread).trace_tainted)
            (find_mutex_frame v e.object_address true).0
          ∙ tainted

      go :
          (m : Option ℕ) (r : Bool × Verifier)
          → r ≡ (true, v1)
          → (with_slot
              (m, r.1)
              λ j v4. change_owner v4 j e.sequence_id (if r.0 then 0 else e.thread_id)).output
            ≡ v1.output
      go none r q = ap (λ (x : Bool × Verifier). x.1.output) q
      go (some j) r q = ap (λ (x : Bool × Verifier). x.1.output) q

  dispatch-silent : (t : EventType) → t ≢ unlock_failed → (dispatch t v e).output ≡ v.output
  unfolding dispatch handle_thread_start handle_thread_exit handle_lock_failed
  dispatch-silent thread_start other = found_slot true _
  dispatch-silent thread_exit other = found_slot true _ ∙ exit_at-silent v i e tainted
  dispatch-silent lock_request other = lock_request-silent
  dispatch-silent lock_acquired other = lock_acquired-silent
  dispatch-silent lock_failed other =
      found_slot false _ ∙ clear_thread_waiting_frame v i e.object_address
  dispatch-silent unlocked other = unlocked-silent
  dispatch-silent unlock_failed other = absurd (other refl)
  dispatch-silent unlock_request other = refl
  dispatch-silent invalid other = refl

-- Let a valid state know a thread in slot `i`. An event of this thread whose stream is tainted already,
-- or whose sequence number is not the one expected, writes no report, unless it is UNLOCK_FAILED: no
-- self-deadlock, hold time or mutex held at exit is asserted from an incomplete stream.
pub tainted_silent :
    (v : Verifier) (i : ℕ) (e : Event)
    → IsValid v
    → (thread_at v i).used ≡ true
    → (thread_at v i).thread_id ≡ e.thread_id
    → ((thread_at v i).trace_tainted || not (e.thread_sequence == expected (thread_at v i))) ≡ true
    → decode e.event_type ≢ unlock_failed
    → (process_event v e).output ≡ v.output
unfolding process_event observe_thread_sequence
tainted_silent v i e ok used same gap other =
    let v1 = count_event v e in
    let live : Live v1 i = record { valid = ok; used = used } in
    let bound = lt_of_used v.threads i used in
    let frame = observe_at_frame v1 i e bound in
    let w = reset_candidate (observe_at v1 i e) in
    let live_w = observe_at-Live v1 i e live in
    ap (λ (x : Option ℕ × Verifier). (processed e (observed e x)).output)
      (find_thread-Live v1 e.thread_id i true live same)
    ∙ dispatch-silent w i e (record { valid = live_w.valid; used = live_w.used }) (frame.0 ∙ same)
        ((gap_noticed v1 i e bound).2 ∙ gap) (decode e.event_type) other
    ∙ frame.1
