-- ===== src/Verifier/Process.antt =====
-- src/monitor_verifier.c, `monitor_verifier_init` and `monitor_verifier_process_event`. The consumer
-- never passes a NULL event.
use runtime_monitor.Base.{ℕ, ◌+◌, Option, none, some, [], ltb, if◌then◌else◌, u64, replicate}
use runtime_monitor.Event.{
  Event, EventType, invalid, lock_request, lock_acquired, lock_failed, unlock_request, unlocked,
  unlock_failed, thread_start, thread_exit, decode,
}
use runtime_monitor.Verifier.State.{
  Verifier, max_threads, max_mutexes, zero_thread, zero_mutex, zero_stats, zero_deadlock,
}
use runtime_monitor.Verifier.Gap.{observe_thread_sequence}
use runtime_monitor.Verifier.Handlers.{
  handle_thread_start, handle_thread_exit, handle_lock_request, handle_lock_acquired,
  handle_lock_failed, handle_unlocked, handle_unlock_failed,
}

-- The state after initialisation, with the threshold that `load_configuration` read. The output is
-- what is written from here on.
unfoldable pub init : ℕ → Verifier
init threshold = record {
  threads = replicate max_threads zero_thread;
  mutexes = replicate max_mutexes zero_mutex;
  stats = zero_stats;
  max_hold_ns = threshold;
  waiting_thread_count = 0;
  deadlock = zero_deadlock;
  last_processed_sequence = 0;
  output = [];
}

-- The `switch`.
unfoldable pub dispatch : EventType → Verifier → Event → Verifier
dispatch thread_start v e = handle_thread_start v e
dispatch thread_exit v e = handle_thread_exit v e
dispatch lock_request v e = handle_lock_request v e
dispatch lock_acquired v e = handle_lock_acquired v e
dispatch lock_failed v e = handle_lock_failed v e
dispatch unlocked v e = handle_unlocked v e
dispatch unlock_failed v e = handle_unlock_failed v e
dispatch unlock_request v e = v
dispatch invalid v e = v

-- `++processed_events`, and the greatest sequence seen
abbrev pub count_event : Verifier → Event → Verifier
count_event v e = record v {
  stats = record (v.stats) { processed_events = u64 (v.stats.processed_events + 1) };
  last_processed_sequence =
      if ltb v.last_processed_sequence e.sequence_id
      then e.sequence_id
      else v.last_processed_sequence;
}

-- An event whose thread has a slot ends the confirmation of a cycle.
abbrev pub reset_candidate : Verifier → Verifier
reset_candidate v = record v {
  deadlock = record (v.deadlock) { candidate_cycle_mask = 0; candidate_cycle_confirmations = 0 };
}

abbrev pub processed : Event → Option ℕ × Verifier → Verifier
processed e (none, v) = v
processed e (some i, v) = dispatch (decode e.event_type) (reset_candidate v) e

unfoldable pub process_event : Verifier → Event → Verifier
process_event v e = processed e (observe_thread_sequence (count_event v e) e)
