-- ===== src/Verifier/State.antt =====
-- src/monitor_verifier.c, the types, tables, counters and configuration.
use runtime_monitor.Base.{ℕ, ◌+◌, Bool, false, List, u64, replicate, get_or, set}

-- `VERIFIER_MAX_THREADS`, `VERIFIER_MAX_MUTEXES`, `VERIFIER_MAX_HELD_MUTEXES`
abbrev pub max_threads : ℕ
max_threads = 16

abbrev pub max_mutexes : ℕ
max_mutexes = 128

abbrev pub max_held_mutexes : ℕ
max_held_mutexes = 32

-- `DEADLOCK_CONFIRMATIONS_REQUIRED`
abbrev pub confirmations_required : ℕ
confirmations_required = 2

-- `DEFAULT_MAX_HOLD_NS`
abbrev pub default_max_hold_ns : ℕ
default_max_hold_ns = 100_000_000

abbrev pub uint32_max : ℕ
uint32_max = 4_294_967_295

-- `verifier_held_mutex_t`
pub record HeldMutex : Type 0 where
  pub address : ℕ
  pub first_acquired_timestamp_ns : ℕ
  pub depth : ℕ

-- What `memset` leaves.
abbrev pub zero_held : HeldMutex
zero_held = record { address = 0; first_acquired_timestamp_ns = 0; depth = 0 }

-- `verifier_thread_state_t`
pub record ThreadState : Type 0 where
  pub used : Bool
  pub exited : Bool
  pub trace_tainted : Bool
  pub sequence_initialized : Bool
  pub thread_id : ℕ
  pub next_expected_sequence : ℕ
  pub waiting_mutex : ℕ
  pub waiting_sequence : ℕ
  pub held_mutexes : List HeldMutex
  pub held_count : ℕ

abbrev pub zero_thread : ThreadState
zero_thread = record {
  used = false;
  exited = false;
  trace_tainted = false;
  sequence_initialized = false;
  thread_id = 0;
  next_expected_sequence = 0;
  waiting_mutex = 0;
  waiting_sequence = 0;
  held_mutexes = replicate max_held_mutexes zero_held;
  held_count = 0;
}

-- `verifier_mutex_state_t`
pub record MutexState : Type 0 where
  pub used : Bool
  pub owner_known : Bool
  pub address : ℕ
  pub owner_thread_id : ℕ
  pub last_state_sequence : ℕ

abbrev pub zero_mutex : MutexState
zero_mutex = record {
  used = false;
  owner_known = false;
  address = 0;
  owner_thread_id = 0;
  last_state_sequence = 0;
}

-- The violations, each with the values that its text prints.
pub data Report : Type 0 where
  self_deadlock_candidate : (sequence thread mutex : ℕ) → Report
  non_owner_unlock : (sequence thread mutex result : ℕ) → Report
  hold_time_violation : (sequence thread mutex held_ns threshold_ns : ℕ) → Report
  lock_held_at_thread_exit : (sequence thread held_mutex_count : ℕ) (held : List HeldMutex) → Report
  deadlock_cycle : (observed_after_seq cycle_length : ℕ) (threads mutexes owners : List ℕ) → Report

-- The statistics, one counter for each of the file's variables.
pub record Stats : Type 0 where
  pub processed_events : ℕ
  pub deadlock_cycle_violations : ℕ
  pub non_owner_unlock_violations : ℕ
  pub self_deadlock_candidates : ℕ
  pub lock_held_at_exit_violations : ℕ
  pub hold_time_violations : ℕ
  pub state_overflow_events : ℕ
  pub detected_stream_gaps : ℕ
  pub tainted_thread_streams : ℕ

abbrev pub zero_stats : Stats
zero_stats = record {
  processed_events = 0;
  deadlock_cycle_violations = 0;
  non_owner_unlock_violations = 0;
  self_deadlock_candidates = 0;
  lock_held_at_exit_violations = 0;
  hold_time_violations = 0;
  state_overflow_events = 0;
  detected_stream_gaps = 0;
  tainted_thread_streams = 0;
}

-- The deadlock state.
pub record DeadlockState : Type 0 where
  pub candidate_cycle_mask : ℕ
  pub candidate_cycle_confirmations : ℕ
  pub reported_cycle_mask : ℕ

abbrev pub zero_deadlock : DeadlockState
zero_deadlock = record {
  candidate_cycle_mask = 0;
  candidate_cycle_confirmations = 0;
  reported_cycle_mask = 0;
}

-- All variables of the file; `output` is what went to standard error, the latest report first.
pub record Verifier : Type 0 where
  pub threads : List ThreadState
  pub mutexes : List MutexState
  pub stats : Stats
  pub max_hold_ns : ℕ
  pub waiting_thread_count : ℕ
  pub deadlock : DeadlockState
  pub last_processed_sequence : ℕ
  pub output : List Report

-- A pointer into a table is an index; these read and write through it.
abbrev pub thread_at : Verifier → ℕ → ThreadState
thread_at v i = get_or v.threads i zero_thread

abbrev pub mutex_at : Verifier → ℕ → MutexState
mutex_at v j = get_or v.mutexes j zero_mutex

abbrev pub set_thread : Verifier → ℕ → ThreadState → Verifier
set_thread v i t = record v { threads = set v.threads i t }

abbrev pub set_mutex : Verifier → ℕ → MutexState → Verifier
set_mutex v j m = record v { mutexes = set v.mutexes j m }

-- `++state_overflow_events`
abbrev pub overflowed : Verifier → Verifier
overflowed v = record v {
  stats = record (v.stats) { state_overflow_events = u64 (v.stats.state_overflow_events + 1) };
}
