-- ===== src/Verifier/Gap.antt =====
-- src/monitor_verifier.c, `invalidate_mutexes_owned_by_thread`, `mark_thread_stream_tainted` and
-- `observe_thread_sequence`: what the verifier forgets when a thread's events have a gap.
use runtime_monitor.Base.{
  ℕ, ◌+◌, true, false, not, Option, none, some, map, replicate, ltb, ◌==◌, if◌then◌else◌, u32, u64,
}
use runtime_monitor.Event.{Event}
use runtime_monitor.Verifier.State.{
  Verifier, ThreadState, MutexState, zero_held, max_held_mutexes, thread_at, set_thread,
}
use runtime_monitor.Verifier.Lookup.{find_thread}
use runtime_monitor.Verifier.Waiting.{stop_waiting}

-- The body of the loop over the mutexes.
unfoldable pub invalidate_mutex : ℕ → ℕ → MutexState → MutexState
invalidate_mutex id barrier m =
    if not m.used
    then m
    else if not m.owner_known
    then m
    else if not (m.owner_thread_id == id)
    then m
    else record m {
      owner_known = false;
      owner_thread_id = 0;
      last_state_sequence =
          if ltb m.last_state_sequence barrier then barrier else m.last_state_sequence;
    }

abbrev pub invalidate_mutexes_owned_by_thread : Verifier → ℕ → ℕ → Verifier
invalidate_mutexes_owned_by_thread v id barrier = record v {
  mutexes = map (invalidate_mutex id barrier) v.mutexes;
}

abbrev pub forget_waiting : Verifier → ℕ → Verifier
forget_waiting v i = if (thread_at v i).waiting_mutex == 0 then v else stop_waiting v i

abbrev pub forget_held : Verifier → ℕ → Verifier
forget_held v i =
    set_thread v i (record (thread_at v i) {
      held_mutexes = replicate max_held_mutexes zero_held;
      held_count = 0;
    })

-- `trace_tainted = true` and `++tainted_thread_streams`
abbrev pub taint : Verifier → ℕ → Verifier
taint v i = record v {
  threads = (set_thread v i (record (thread_at v i) { trace_tainted = true })).threads;
  stats = record (v.stats) { tainted_thread_streams = u32 (v.stats.tainted_thread_streams + 1) };
}

unfoldable pub mark_thread_stream_tainted : Verifier → ℕ → ℕ → Verifier
mark_thread_stream_tainted v i barrier =
    if (thread_at v i).trace_tainted
    then v
    else let v3 = forget_held (forget_waiting (taint v i) i) i in
      invalidate_mutexes_owned_by_thread v3 (thread_at v3 i).thread_id barrier

-- `++detected_stream_gaps`, then the taint
unfoldable pub gap_found : Verifier → ℕ → Event → Verifier
gap_found v i e =
    mark_thread_stream_tainted
      (record v {
        stats = record (v.stats) { detected_stream_gaps = u64 (v.stats.detected_stream_gaps + 1) };
      })
      i e.sequence_id

abbrev pub expect_next : Verifier → ℕ → Event → Verifier
expect_next v i e =
    set_thread v i (record (thread_at v i) { next_expected_sequence = u32 (e.thread_sequence + 1) })

-- The sequence number that the verifier expects: 0 before the first event.
abbrev pub expected : ThreadState → ℕ
expected t = if t.sequence_initialized then t.next_expected_sequence else 0

-- The first event of a thread: its sequence number should be 0.
abbrev pub observe_first : Verifier → ℕ → Event → Verifier
observe_first v i e =
    let v1 = set_thread v i (record (thread_at v i) { sequence_initialized = true }) in
    expect_next (if e.thread_sequence == 0 then v1 else gap_found v1 i e) i e

abbrev pub observe_later : Verifier → ℕ → Event → Verifier
observe_later v i e =
    expect_next
      (if e.thread_sequence == (thread_at v i).next_expected_sequence then v else gap_found v i e) i
      e

unfoldable pub observe_at : Verifier → ℕ → Event → Verifier
observe_at v i e =
    if not (thread_at v i).sequence_initialized then observe_first v i e else observe_later v i e

abbrev pub observed : Event → Option ℕ × Verifier → Option ℕ × Verifier
observed e (none, v) = (none, v)
observed e (some i, v) = (some i, observe_at v i e)

unfoldable pub observe_thread_sequence : Verifier → Event → Option ℕ × Verifier
observe_thread_sequence v e = observed e (find_thread v e.thread_id true)
