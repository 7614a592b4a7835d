-- ===== src/Verifier/Waiting.antt =====
-- src/monitor_verifier.c, `set_thread_waiting` and `clear_thread_waiting`.
use runtime_monitor.Base.{ℕ, ◌+◌, ◌-◌, ◌==◌, if◌then◌else◌, u32}
use runtime_monitor.Verifier.State.{Verifier, thread_at, set_thread}

-- A mutex at address 0 means that the thread does not wait.
unfoldable pub set_thread_waiting : Verifier → ℕ → ℕ → ℕ → Verifier
set_thread_waiting v i address sequence =
    let t = thread_at v i in
    record v {
      threads =
          (set_thread v i
            (record t { waiting_mutex = address; waiting_sequence = sequence })).threads;
      waiting_thread_count =
          if t.waiting_mutex == 0 then u32 (v.waiting_thread_count + 1) else v.waiting_thread_count;
    }

-- The two assignments and the guarded decrement, which a gap in the stream makes too.
unfoldable pub stop_waiting : Verifier → ℕ → Verifier
stop_waiting v i = record v {
  threads =
      (set_thread v i (record (thread_at v i) { waiting_mutex = 0; waiting_sequence = 0 })).threads;
  waiting_thread_count =
      if v.waiting_thread_count == 0 then v.waiting_thread_count else v.waiting_thread_count - 1;
}

unfoldable pub clear_thread_waiting : Verifier → ℕ → ℕ → Verifier
clear_thread_waiting v i address =
    if (thread_at v i).waiting_mutex == address then stop_waiting v i else v
