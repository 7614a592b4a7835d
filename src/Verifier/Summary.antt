-- ===== src/Verifier/Summary.antt =====
-- src/monitor_verifier.c, `monitor_verifier_print_summary`: the values that it prints.
use runtime_monitor.Base.{ℕ, ◌+◌, Bool, ◌&&◌, ◌==◌, u64}
use runtime_monitor.Verifier.State.{Verifier, Stats}

pub record Summary : Type 0 where
  pub stats : Stats
  pub total_violations : ℕ
  pub waiting_threads : ℕ
  pub hold_time_threshold : ℕ
  pub verifier_complete : Bool
  pub authoritative : Bool

abbrev pub total_violations : Stats → ℕ
total_violations s = u64 (
    s.deadlock_cycle_violations + s.non_owner_unlock_violations + s.self_deadlock_candidates
    + s.lock_held_at_exit_violations + s.hold_time_violations)

unfoldable pub summary : Verifier → Bool → Summary
summary v trace_complete = record {
  stats = v.stats;
  total_violations = total_violations v.stats;
  waiting_threads = v.waiting_thread_count;
  hold_time_threshold = v.max_hold_ns;
  verifier_complete = (v.stats.state_overflow_events == 0) && (v.stats.tainted_thread_streams == 0);
  authoritative =
      trace_complete
      && ((v.stats.state_overflow_events == 0) && (v.stats.tainted_thread_streams == 0));
}
