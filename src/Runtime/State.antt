-- ===== src/Runtime/State.antt =====
-- src/monitor_runtime.c and include/monitor_runtime.h: the transport contexts, the runtime's
-- variables, and the thread-local variables of one thread.
use runtime_monitor.Base.{ℕ, Bool, false, Option, none, List, replicate, get_or, set}
use runtime_monitor.Event.{zero_event}
use runtime_monitor.Ring.{Ring, capacity}
use runtime_monitor.Verifier.State.{Verifier}

-- `MONITOR_MAX_THREADS`
abbrev pub max_contexts : ℕ
max_contexts = 16

-- `MONITOR_DRAIN_BATCH`
abbrev pub drain_batch : ℕ
drain_batch = 64

-- `producer_counters_t`
pub record ProducerCounters : Type 0 where
  pub generated : ℕ
  pub dropped : ℕ
  pub next_thread_sequence : ℕ

-- `monitor_thread_context_t`; `consumed` is the one field of `consumer_counters_t`.
pub record Context : Type 0 where
  pub active : Bool
  pub thread_id : ℕ
  pub queue : Ring
  pub producer : ProducerCounters
  pub consumed : ℕ

abbrev pub zero_counters : ProducerCounters
zero_counters = record { generated = 0; dropped = 0; next_thread_sequence = 0 }

-- A context that was never used: static storage starts as zeros.
abbrev pub zero_context : Context
zero_context = record {
  active = false;
  thread_id = 0;
  queue = record { head = 0; tail = 0; slots = replicate capacity zero_event };
  producer = zero_counters;
  consumed = 0;
}

-- The static variables, with the verifier's state that only the consumer touches.
pub record Runtime : Type 0 where
  pub contexts : List Context
  pub next_thread_slot : ℕ
  pub global_sequence : ℕ
  pub unregistered_events : ℕ
  pub lifecycle_registration_failures : ℕ
  pub accept_events : Bool
  pub consumer_running : Bool
  pub thread_exit_key_ready : Bool
  pub verifier : Verifier

-- The thread-local variables of one thread; a pointer to a context is its slot.
pub record Tls : Type 0 where
  pub context : Option ℕ
  pub registration_failed : Bool
  pub internal_thread : Bool

abbrev pub fresh_tls : Tls
fresh_tls = record { context = none; registration_failed = false; internal_thread = false }

abbrev pub context_at : Runtime → ℕ → Context
context_at r i = get_or r.contexts i zero_context

abbrev pub set_context : Runtime → ℕ → Context → Runtime
set_context r i c = record r { contexts = set r.contexts i c }
