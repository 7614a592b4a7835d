-- ===== src/Verifier/Reports.antt =====
-- src/monitor_verifier.c, the `report_…` functions: each counts its violation and writes one text to
-- standard error. The text is a `Report`, whose bytes are those of Verifier/Render.
use runtime_monitor.Base.{ℕ, ◌+◌, false, none, some, List, [], ◌∷◌, map, if◌then◌else◌, u64}
use runtime_monitor.Event.{Event}
use runtime_monitor.Verifier.State.{
  Verifier, ThreadState, HeldMutex, self_deadlock_candidate, non_owner_unlock, hold_time_violation,
  lock_held_at_thread_exit, deadlock_cycle, mutex_at,
}
use runtime_monitor.Verifier.Lookup.{find_mutex}

unfoldable pub report_self_deadlock_candidate : Verifier → Event → Verifier
report_self_deadlock_candidate v e = record v {
  stats = record (v.stats) {
    self_deadlock_candidates = u64 (v.stats.self_deadlock_candidates + 1);
  };
  output = self_deadlock_candidate e.sequence_id e.thread_id e.object_address ∷ v.output;
}

unfoldable pub report_non_owner_unlock : Verifier → Event → Verifier
report_non_owner_unlock v e = record v {
  stats = record (v.stats) {
    non_owner_unlock_violations = u64 (v.stats.non_owner_unlock_violations + 1);
  };
  output = non_owner_unlock e.sequence_id e.thread_id e.object_address e.result ∷ v.output;
}

unfoldable pub report_hold_time_violation : Verifier → Event → ℕ → Verifier
report_hold_time_violation v e held_ns = record v {
  stats = record (v.stats) { hold_time_violations = u64 (v.stats.hold_time_violations + 1) };
  output =
      hold_time_violation e.sequence_id e.thread_id e.object_address held_ns v.max_hold_ns
      ∷ v.output;
}

-- The first `n` entries of the held mutexes.
abbrev pub first_held : ℕ → List HeldMutex → List HeldMutex
first_held ℕ.zero hs = []
first_held (ℕ.suc n) [] = []
first_held (ℕ.suc n) (h ∷ hs) = h ∷ first_held n hs

unfoldable pub report_lock_held_at_thread_exit : Verifier → Event → ThreadState → Verifier
report_lock_held_at_thread_exit v e t = record v {
  stats = record (v.stats) {
    lock_held_at_exit_violations = u64 (v.stats.lock_held_at_exit_violations + 1);
  };
  output =
      lock_held_at_thread_exit e.sequence_id e.thread_id t.held_count
        (first_held t.held_count t.held_mutexes)
      ∷ v.output;
}

-- The owner that the report prints for a mutex of the cycle.
unfoldable pub printed_owner : Verifier → ℕ → ℕ
printed_owner v address = elim ((find_mutex v address false).0) [
  | none ↦ 0
  | some j ↦ if (mutex_at v j).owner_known then (mutex_at v j).owner_thread_id else 0
]

unfoldable pub report_deadlock_cycle : Verifier → List ℕ → List ℕ → ℕ → Verifier
report_deadlock_cycle v threads mutexes cycle_length = record v {
  stats = record (v.stats) {
    deadlock_cycle_violations = u64 (v.stats.deadlock_cycle_violations + 1);
  };
  output =
      deadlock_cycle v.last_processed_sequence cycle_length threads mutexes
        (map (printed_owner v) mutexes)
      ∷ v.output;
}
