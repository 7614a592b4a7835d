-- ===== src/Verifier/Deadlock.antt =====
-- src/monitor_verifier.c, `monitor_verifier_check_deadlocks`: the confirmation of a cycle and its report.
pub mod Confirm
use runtime_monitor.Base.{
  ℕ, ◌+◌, Bool, true, false, not, Option, none, some, ltb, ◌==◌, if◌then◌else◌, length,
}
use runtime_monitor.Verifier.State.{Verifier, zero_deadlock, uint32_max, confirmations_required}
use runtime_monitor.Verifier.Reports.{report_deadlock_cycle}
use runtime_monitor.Verifier.Cycle.{Cycle, find_any_cycle}

-- The three assignments where there is no cycle.
abbrev pub forget_cycle : Verifier → Verifier
forget_cycle v = record v { deadlock = zero_deadlock }

-- The first sight of a cycle.
abbrev pub new_candidate : Verifier → ℕ → Verifier
new_candidate v mask = record v {
  deadlock = record (v.deadlock) { candidate_cycle_mask = mask; candidate_cycle_confirmations = 1 };
}

-- `++candidate_cycle_confirmations`, which stops at `UINT32_MAX`
abbrev pub confirm : Verifier → Verifier
confirm v = record v {
  deadlock = record (v.deadlock) {
    candidate_cycle_confirmations =
        if ltb v.deadlock.candidate_cycle_confirmations uint32_max
        then v.deadlock.candidate_cycle_confirmations + 1
        else v.deadlock.candidate_cycle_confirmations;
  };
}

-- The last part: report a confirmed cycle that was not reported yet.
abbrev pub report_confirmed : Verifier → Cycle → Verifier
report_confirmed v c =
    if ltb v.deadlock.candidate_cycle_confirmations confirmations_required
    then v
    else if v.deadlock.reported_cycle_mask == c.mask
    then v
    else report_deadlock_cycle
        (record v { deadlock = record (v.deadlock) { reported_cycle_mask = c.mask } }) c.threads
        c.mutexes (length c.threads)

unfoldable pub cycle_seen : Verifier → Cycle → Verifier
cycle_seen v c =
    if not (v.deadlock.candidate_cycle_mask == c.mask)
    then new_candidate v c.mask
    else report_confirmed (confirm v) c

unfoldable pub check_deadlocks : Verifier → Verifier
check_deadlocks v =
    if ltb v.waiting_thread_count 2
    then forget_cycle v
    else elim (find_any_cycle v) [ none ↦ forget_cycle v | some c ↦ cycle_seen v c ]
