-- ===== src/Runtime/Producer.antt =====
-- src/monitor_runtime.c: what an application thread does, from `single_writer_increment` to
-- `monitor_runtime_emit`. What the system answers (the clock, the thread's number, the result of
-- `pthread_setspecific`) is a parameter. Each call runs as a whole: the fields it writes are of the
-- thread's own context, or are changed by one atomic operation.
use runtime_monitor.Base.{
  ℕ, ◌+◌, ◌*◌, Bool, true, not, ◌&&◌, Option, none, some, leb, ◌==◌, if◌then◌else◌, u32, u64,
}
use runtime_monitor.Event.{Event, EventType, code, thread_start, thread_exit}
use runtime_monitor.Ring as Queue
use runtime_monitor.Ring.{Ring, try_push}
use runtime_monitor.Runtime.State.{
  Context, Runtime, Tls, zero_counters, max_contexts, context_at, set_context,
}

unfoldable pub single_writer_increment : ℕ → ℕ
single_writer_increment n = u64 (n + 1)

-- What `clock_gettime` yields: seconds and nanoseconds, or a failure.
abbrev pub timestamp_now_ns : Option (ℕ × ℕ) → ℕ
timestamp_now_ns none = 0
timestamp_now_ns (some (sec, nsec)) = u64 (u64 (sec * 1_000_000_000) + nsec)

-- The event that is emitted, with both sequence numbers reserved.
abbrev pub new_event : Runtime → Context → EventType → ℕ → ℕ → ℕ → Event
new_event r c t address result now = record {
  sequence_id = r.global_sequence;
  timestamp_ns = now;
  thread_id = c.thread_id;
  object_address = address;
  event_type = code t;
  result = result;
  flags = 0;
  thread_sequence = c.producer.next_thread_sequence;
}

-- The context after the event was put into its queue, or dropped.
unfoldable pub produce : Context → Event → Context
produce c e =
    let (pushed, q) = try_push c.queue e in
    record c {
      queue = q;
      producer = record {
        generated = single_writer_increment c.producer.generated;
        dropped = if pushed then c.producer.dropped else single_writer_increment c.producer.dropped;
        next_thread_sequence = u32 (c.producer.next_thread_sequence + 1);
      };
    }

unfoldable pub emit_event_to_context : Runtime → ℕ → EventType → ℕ → ℕ → Option (ℕ × ℕ) → Runtime
emit_event_to_context r s t address result clock =
    set_context (record r { global_sequence = u64 (r.global_sequence + 1) }) s
      (produce (context_at r s)
        (new_event r (context_at r s) t address result (timestamp_now_ns clock)))

-- The destructor of the thread's key, with the value that was stored under it.
unfoldable pub thread_exit_destructor : Runtime → Tls → Option ℕ → Option (ℕ × ℕ) → Tls × Runtime
thread_exit_destructor r tls none clock = (tls, r)
thread_exit_destructor r tls (some s) clock = (
  record tls { context = none },
  if r.accept_events then emit_event_to_context r s thread_exit 0 0 clock else r,
)

-- The loop ends where its compare-and-exchange succeeds, which is one atomic step.
unfoldable pub claim_thread_slot : Runtime → Option ℕ × Runtime
claim_thread_slot r =
    if leb max_contexts r.next_thread_slot
    then (none, r)
    else (some r.next_thread_slot, record r { next_thread_slot = r.next_thread_slot + 1 })

-- `++unregistered_events`, atomically
abbrev pub unregistered : Runtime → Runtime
unregistered r = record r { unregistered_events = u64 (r.unregistered_events + 1) }

-- A context is set up for the calling thread.
unfoldable pub fresh_context : Context → ℕ → Context
fresh_context c tid = record {
  active = true;
  thread_id = tid;
  queue = Queue.init c.queue;
  producer = zero_counters;
  consumed = 0;
}

-- What the system answers during one call that may register the thread.
pub record Answers : Type 0 where
  pub tid : ℕ
  pub setspecific : ℕ
  pub start_clock : Option (ℕ × ℕ)
  pub clock : Option (ℕ × ℕ)

abbrev pub lifecycle_failed : Runtime → Runtime
lifecycle_failed r = record r {
  lifecycle_registration_failures = u64 (r.lifecycle_registration_failures + 1);
}

-- The destructor is set, or the failure to set it is counted.
abbrev pub set_destructor : Runtime → Answers → Runtime
set_destructor r a =
    if r.thread_exit_key_ready && (a.setspecific == 0) then r else lifecycle_failed r

-- The rest of the registration, with a slot claimed.
abbrev pub register_at : Runtime → Tls → Answers → ℕ → Option ℕ × Tls × Runtime
register_at r tls a s = (
  some s,
  record tls { context = some s },
  emit_event_to_context (set_destructor (set_context r s (fresh_context (context_at r s) a.tid)) a)
      s thread_start 0 0 a.start_clock,
)

abbrev pub registered : Tls → Answers → Option ℕ × Runtime → Option ℕ × Tls × Runtime
registered tls a (none, r) = (none, record tls { registration_failed = true }, unregistered r)
registered tls a (some s, r) = register_at r tls a s

-- The first test is of the thread's own context.
abbrev pub register_from : Option ℕ → Runtime → Tls → Answers → Option ℕ × Tls × Runtime
register_from (some s) r tls a = (some s, tls, r)
register_from none r tls a =
    if tls.registration_failed
    then (none, tls, unregistered r)
    else registered tls a (claim_thread_slot r)

unfoldable pub register_current_thread : Runtime → Tls → Answers → Option ℕ × Tls × Runtime
register_current_thread r tls a = register_from tls.context r tls a

abbrev pub emit_registered :
    EventType → ℕ → ℕ → Option (ℕ × ℕ) → Option ℕ × Tls × Runtime → Tls × Runtime
emit_registered t address result clock (none, tls, r) = (tls, r)
emit_registered t address result clock (some s, tls, r) =
    (tls, emit_event_to_context r s t address result clock)

unfoldable pub emit : Runtime → Tls → EventType → ℕ → ℕ → Answers → Tls × Runtime
emit r tls t address result a =
    if not r.accept_events
    then (tls, r)
    else if tls.internal_thread
    then (tls, r)
    else emit_registered t address result a.clock (register_current_thread r tls a)

-- `monitor_runtime_is_internal_thread`
abbrev pub is_internal_thread : Tls → Bool
is_internal_thread tls = tls.internal_thread
