-- ===== src/Verifier/Verdicts/HoldTime.antt =====
-- src/monitor_verifier.c, `release_held_mutex`: the report on a hold time.
use runtime_monitor.Base.{
  ℕ, ◌-◌, ◌≡◌, arith, Bool, false, not, ◌&&◌, Option, none, some, List, ◌∷◌, ltb, ◌==◌,
  if◌then◌else◌, Option-cases, inl, inr,
}
use runtime_monitor.Event.{Event}
use runtime_monitor.Verifier.State.{Verifier, HeldMutex, Report, hold_time_violation, thread_at}
use runtime_monitor.Verifier.Reports.{report_hold_time_violation}
use runtime_monitor.Verifier.Held.{find_held_mutex, check_hold_time, release_held_mutex}
use runtime_monitor.Verifier.Held.Bounds.{ThreadHeldOk}
use runtime_monitor.Verifier.Held.Entries.{entry}
use runtime_monitor.Verifier.Held.Effects.{find_some, find_none}

-- The threshold is set, this release gives the mutex up, and it was held longer.
abbrev pub overdue : Verifier → Event → HeldMutex → Bool
overdue v e x =
    not (ltb 1 x.depth)
    && (not (v.max_hold_ns == 0)
        && ltb v.max_hold_ns (e.timestamp_ns - x.first_acquired_timestamp_ns))

-- What a release writes, by the entry of its mutex.
abbrev pub release_output : Verifier → Event → Option HeldMutex → List Report
release_output v e none = v.output
release_output v e (some x) =
    if overdue v e x
    then hold_time_violation e.sequence_id e.thread_id e.object_address
        (e.timestamp_ns - x.first_acquired_timestamp_ns) v.max_hold_ns
      ∷ v.output
    else v.output

-- On a thread with a complete stream and well-formed held mutexes, a release reports a hold time
-- exactly if the mutex is held at depth 1, a threshold is set, and the time from its first acquisition
-- to this event is above the threshold; the report has that time. Otherwise it writes nothing.
pub release_held_mutex_reports :
    (v : Verifier) (i : ℕ) (e : Event)
    → ThreadHeldOk (thread_at v i)
    → (thread_at v i).trace_tainted ≡ false
    → (release_held_mutex v i e).1.output
      ≡ release_output v e (entry (thread_at v i) e.object_address)
unfolding release_held_mutex check_hold_time report_hold_time_violation
release_held_mutex_reports v i e ok whole =
    elim (Option-cases (find_held_mutex (thread_at v i) e.object_address)) [
      | inl f ↦ ground (arith, find_none (thread_at v i) e.object_address f)
      | inr (h, f) ↦ ground (arith, find_some (thread_at v i) e.object_address h ok f)
    ]
