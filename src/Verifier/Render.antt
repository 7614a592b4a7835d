-- ===== src/Verifier/Render.antt =====
-- src/monitor_verifier.c, the bytes that each report and the summary put on standard error.
pub mod Complete
use runtime_monitor.Base.{ℕ, ◌+◌, Bool, true, false, if◌then◌else◌, List, [], ◌∷◌, ◌++◌, map}
use runtime_monitor.Text.{Text, bytes, decimal, signed_decimal, pointer}
use runtime_monitor.Text.Buffer.{printed, composed, concat}
use runtime_monitor.Verifier.State.{
  HeldMutex, Report, self_deadlock_candidate, non_owner_unlock, hold_time_violation,
  lock_held_at_thread_exit, deadlock_cycle,
}
use runtime_monitor.Verifier.Summary.{Summary}

abbrev pub rule : Text
rule = bytes "========================================\n"

-- The two numbers that most reports start with.
abbrev pub event_lines : ℕ → ℕ → Text → Text
event_lines sequence thread rest =
    bytes "sequence="
    ++ (decimal sequence ++ (bytes "\nthread=T" ++ (decimal thread ++ (bytes "\n" ++ rest))))

abbrev pub self_deadlock_text : ℕ → ℕ → ℕ → Text
self_deadlock_text sequence thread mutex =
    bytes "\n"
    ++ (rule
        ++ (bytes "[monitor][VIOLATION] SELF_DEADLOCK_CANDIDATE\n"
            ++ event_lines sequence thread (
                bytes "mutex="
                ++ (pointer mutex
                    ++ (bytes "\nreason=thread requested a mutex it already holds\n" ++ rule)))))

abbrev pub non_owner_text : ℕ → ℕ → ℕ → ℕ → Text
non_owner_text sequence thread mutex result =
    bytes "\n"
    ++ (rule
        ++ (bytes "[monitor][VIOLATION] NON_OWNER_UNLOCK\n"
            ++ event_lines sequence thread (
                bytes "mutex="
                ++ (pointer mutex
                    ++ (bytes "\npthread_result="
                        ++ (signed_decimal result
                            ++ (bytes
                                  " (EPERM)\nreason=pthread rejected unlock because caller did not own mutex\n"
                                ++ rule)))))))

abbrev pub hold_time_text : ℕ → ℕ → ℕ → ℕ → ℕ → Text
hold_time_text sequence thread mutex held_ns threshold_ns =
    bytes "\n"
    ++ (rule
        ++ (bytes "[monitor][VIOLATION] HOLD_TIME_VIOLATION\n"
            ++ event_lines sequence thread (
                bytes "mutex="
                ++ (pointer mutex
                    ++ (bytes "\nheld_ns="
                        ++ (decimal held_ns
                            ++ (bytes "\nthreshold_ns="
                                ++ (decimal threshold_ns ++ (bytes "\n" ++ rule)))))))))

abbrev pub exit_head : ℕ → ℕ → ℕ → Text
exit_head sequence thread held_count =
    bytes "\n"
    ++ (rule
        ++ (bytes "[monitor][VIOLATION] LOCK_HELD_AT_THREAD_EXIT\n"
            ++ event_lines sequence thread
                (bytes "held_mutex_count=" ++ (decimal held_count ++ bytes "\n"))))

abbrev pub held_line : HeldMutex → Text
held_line h =
    bytes "  mutex=" ++ (pointer h.address ++ (bytes " depth=" ++ (decimal h.depth ++ bytes "\n")))

abbrev pub cycle_head : ℕ → ℕ → Text
cycle_head observed_after_seq cycle_length =
    bytes "\n"
    ++ (rule
        ++ (bytes "[monitor][VIOLATION] DEADLOCK_CYCLE\nobserved_after_seq="
            ++ (decimal observed_after_seq
                ++ (bytes "\ncycle_length=" ++ (decimal cycle_length ++ bytes "\n")))))

abbrev pub wait_line : ℕ → ℕ → ℕ → Text
wait_line thread mutex owner =
    bytes "  T"
    ++ (decimal thread
        ++ (bytes " waits for mutex="
            ++ (pointer mutex ++ (bytes " owned by T" ++ (decimal owner ++ bytes "\n")))))

pub wait_lines : List ℕ → List ℕ → List ℕ → List Text
wait_lines (t ∷ ts) (m ∷ ms) (o ∷ os) = wait_line t m o ∷ wait_lines ts ms os
wait_lines _ _ _ = []

-- What is written, from a buffer of 768 or 2048 bytes.
unfoldable pub render : Report → Text
unfolding wait_lines
render (self_deadlock_candidate sequence thread mutex) =
    printed 768 (self_deadlock_text sequence thread mutex)
render (non_owner_unlock sequence thread mutex result) =
    printed 768 (non_owner_text sequence thread mutex result)
render (hold_time_violation sequence thread mutex held_ns threshold_ns) =
    printed 768 (hold_time_text sequence thread mutex held_ns threshold_ns)
render (lock_held_at_thread_exit sequence thread held_count held) =
    composed 2048 (exit_head sequence thread held_count) (map held_line held) rule
render (deadlock_cycle observed_after_seq cycle_length threads mutexes owners) =
    composed 2048 (cycle_head observed_after_seq cycle_length) (wait_lines threads mutexes owners)
      rule

abbrev pub verdict : Bool → Text
verdict complete = if complete then bytes "COMPLETE" else bytes "DEGRADED"

abbrev pub interpretation : Bool → Text
interpretation authoritative =
    if authoritative
    then bytes "AUTHORITATIVE"
    else bytes "INCOMPLETE TRACE - conclusions are provisional"

-- A line of the summary that ends in a number.
abbrev pub counted_line : Text → ℕ → Text
counted_line label n = label ++ (decimal n ++ bytes "\n")

abbrev pub summary_lines : Summary → List Text
summary_lines s =
    counted_line (bytes "\n=== Runtime verifier summary ===\nProcessed events              : ")
      s.stats.processed_events
    ∷ counted_line (bytes "\nViolations:\n  DEADLOCK_CYCLE              : ")
        s.stats.deadlock_cycle_violations
    ∷ counted_line (bytes "  NON_OWNER_UNLOCK            : ") s.stats.non_owner_unlock_violations
    ∷ counted_line (bytes "  SELF_DEADLOCK_CANDIDATE     : ") s.stats.self_deadlock_candidates
    ∷ counted_line (bytes "  LOCK_HELD_AT_THREAD_EXIT    : ") s.stats.lock_held_at_exit_violations
    ∷ counted_line (bytes "  HOLD_TIME_VIOLATION         : ") s.stats.hold_time_violations
    ∷ counted_line (bytes "\nTotal violations              : ") s.total_violations
    ∷ counted_line (bytes "Waiting threads               : ") s.waiting_threads
    ∷ counted_line (bytes "Detected stream gaps          : ") s.stats.detected_stream_gaps
    ∷ counted_line (bytes "Tainted thread streams        : ") s.stats.tainted_thread_streams
    ∷ counted_line (bytes "State overflow events         : ") s.stats.state_overflow_events
    ∷ (bytes "Hold-time threshold           : " ++ (decimal s.hold_time_threshold ++ bytes " ns\n"))
    ∷ (bytes "Verifier state                : " ++ (verdict s.verifier_complete ++ bytes "\n"))
    ∷ (bytes "Interpretation                : " ++ (interpretation s.authoritative ++ bytes "\n"))
    ∷ []

unfoldable pub render_summary : Summary → Text
render_summary s = printed 1792 (concat (summary_lines s))
