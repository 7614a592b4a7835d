-- ===== src/Verifier/Verdicts/Confirmation.antt =====
-- src/monitor_verifier.c, `monitor_verifier_process_event`: the reset of the candidate, and what it means
-- for the next `monitor_verifier_check_deadlocks`.
use runtime_monitor.Base.{ℕ, ◌≡◌, refl, ap, arith, Option, none, some, inl, inr}
use runtime_monitor.Event.{Event, decode}
use runtime_monitor.Verifier.State.{Verifier, DeadlockState}
use runtime_monitor.Verifier.Gap.{observe_thread_sequence}
use runtime_monitor.Verifier.Process.{count_event, reset_candidate, processed, process_event}
use runtime_monitor.Verifier.Invariant.{IsValid}
use runtime_monitor.Verifier.Invariant.Run.{NamesMutex, process_event-IsValid}
use runtime_monitor.Verifier.Cycle.Mask.{mask_pos}
use runtime_monitor.Verifier.Deadlock.{check_deadlocks}
use runtime_monitor.Verifier.Deadlock.Confirm.{check_deadlocks_reports}
use runtime_monitor.Verifier.Verdicts.Candidate.{dispatch-Keeps}

no_candidate-silent :
    (v : Verifier)
    → IsValid v
    → v.deadlock.candidate_cycle_mask ≡ 0
    → (check_deadlocks v).output ≡ v.output
no_candidate-silent v ok none_yet = elim (check_deadlocks_reports v) [
  | inl silent ↦ silent
  | inr (c, start, cycle, mask, cand, _, _, _) ↦
      absurd (omega (arith, mask_pos v start c.threads c.mutexes ok cycle))
]

-- An event of any kind whose thread has a slot, or is given one, in a valid state, ends the
-- confirmation of a cycle: no candidate is left and none is confirmed, and a deadlock check that
-- follows writes no report, whatever cycle the wait-for graph has. A lock event must name a mutex.
pub event_restarts_confirmation :
    (v : Verifier) (e : Event) (i : ℕ)
    → IsValid v
    → NamesMutex e
    → (observe_thread_sequence (count_event v e) e).0 ≡ some i
    → ((process_event v e).deadlock.candidate_cycle_mask ≡ 0)
      × ((process_event v e).deadlock.candidate_cycle_confirmations ≡ 0)
      × ((check_deadlocks (process_event v e)).output ≡ (process_event v e).output)
unfolding process_event
event_restarts_confirmation v e i ok names known =
    let reset = go (observe_thread_sequence (count_event v e) e) known in
    (
      reset.0,
      reset.1,
      no_candidate-silent (process_event v e) (process_event-IsValid v e names ok) reset.0,
    )
  where
    go :
        (r : Option ℕ × Verifier)
        → r.0 ≡ some i
        → let d = (processed e r).deadlock in
          (d.candidate_cycle_mask ≡ 0) × (d.candidate_cycle_confirmations ≡ 0)
    go (none, w) k = absurd cc
    go (some j, w) k =
        let kept =
          dispatch-Keeps (reset_candidate w).deadlock (decode e.event_type) (reset_candidate w) e
            refl in
        (
          ap (λ (d : DeadlockState). d.candidate_cycle_mask) kept,
          ap (λ (d : DeadlockState). d.candidate_cycle_confirmations) kept,
        )
