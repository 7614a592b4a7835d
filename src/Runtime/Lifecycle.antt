-- ===== src/Runtime/Lifecycle.antt =====
-- src/monitor_runtime.c: `monitor_runtime_start`, `monitor_runtime_stop` and the transport summary.
use runtime_monitor.Base.{
  ℕ, ◌+◌, ◌*◌, ◌/◌, Bool, true, false, not, ◌&&◌, Option, none, some, map, List, [], ◌∷◌, take,
  ◌==◌, if◌then◌else◌, u32, u64,
}
use runtime_monitor.Verifier.Process as Process
use runtime_monitor.Verifier.Summary.{Summary, summary}
use runtime_monitor.Runtime.State.{Context, Runtime}
use runtime_monitor.Runtime.Consumer.{consumer_main}

-- The sums over the contexts.
pub record Totals : Type 0 where
  pub generated : ℕ
  pub consumed : ℕ
  pub dropped : ℕ
  pub registered_threads : ℕ

abbrev pub no_totals : Totals
no_totals = record { generated = 0; consumed = 0; dropped = 0; registered_threads = 0 }

-- One context of the loop.
unfoldable pub add_context : Totals → Context → Totals
add_context t c = if not c.active then t else record {
  generated = u64 (t.generated + c.producer.generated);
  consumed = u64 (t.consumed + c.consumed);
  dropped = u64 (t.dropped + c.producer.dropped);
  registered_threads = u32 (t.registered_threads + 1);
}

unfoldable pub add_contexts : Totals → List Context → Totals
add_contexts t [] = t
add_contexts t (c ∷ cs) = add_contexts (add_context t c) cs

abbrev pub totals : Runtime → Totals
totals r = add_contexts no_totals (take r.next_thread_slot r.contexts)

-- The loss in parts per million.
abbrev pub loss_ppm : (dropped generated : ℕ) → ℕ
loss_ppm dropped generated = if generated == 0 then 0 else u64 (dropped * 1_000_000) / generated

-- The line that is printed for a thread.
pub record ThreadLine : Type 0 where
  pub slot : ℕ
  pub thread_id : ℕ
  pub generated : ℕ
  pub consumed : ℕ
  pub dropped : ℕ
  pub loss : ℕ

-- A line for each active context, from slot `i` on.
pub thread_lines : ℕ → List Context → List ThreadLine
thread_lines i [] = []
thread_lines i (c ∷ cs) =
    let rest = thread_lines (i + 1) cs in
    if not c.active
    then rest
    else record {
      slot = i;
      thread_id = c.thread_id;
      generated = c.producer.generated;
      consumed = c.consumed;
      dropped = c.producer.dropped;
      loss = loss_ppm c.producer.dropped c.producer.generated;
    }
      ∷ rest

-- The values that the transport summary prints.
pub record Transport : Type 0 where
  pub lines : List ThreadLine
  pub totals : Totals
  pub loss : ℕ
  pub rejected : ℕ
  pub lifecycle_failures : ℕ
  pub transport_consistent : Bool
  pub trace_complete : Bool

unfoldable pub transport_summary : Runtime → Transport
unfolding thread_lines
transport_summary r =
    let t = totals r in
    let consistent = t.generated == u64 (t.consumed + t.dropped) in
    record {
      lines = thread_lines 0 (take r.next_thread_slot r.contexts);
      totals = t;
      loss = loss_ppm t.dropped t.generated;
      rejected = r.unregistered_events;
      lifecycle_failures = r.lifecycle_registration_failures;
      transport_consistent = consistent;
      trace_complete =
          consistent
          && ((t.dropped == 0)
              && ((r.unregistered_events == 0) && (r.lifecycle_registration_failures == 0)));
    }

-- Every context stops being active; its other fields stay.
abbrev pub deactivate : Context → Context
deactivate c = record c { active = false }

-- The stores before the system is called, and the verifier's initialisation.
abbrev pub reset : Runtime → ℕ → Runtime
reset r threshold = record r {
  contexts = map deactivate r.contexts;
  next_thread_slot = 0;
  global_sequence = 0;
  unregistered_events = 0;
  lifecycle_registration_failures = 0;
  accept_events = false;
  verifier = Process.init threshold;
}

-- The results of `pthread_key_create` and `pthread_create` are parameters.
unfoldable pub runtime_start : Runtime → ℕ → (key_rc consumer_rc : ℕ) → ℕ × Runtime
runtime_start r threshold key_rc consumer_rc =
    if not (key_rc == 0)
    then (key_rc, reset r threshold)
    else if not (consumer_rc == 0)
    then (
      consumer_rc,
      record (reset r threshold) { thread_exit_key_ready = false; consumer_running = false },
    )
    else (
      0,
      record (reset r threshold) {
        thread_exit_key_ready = true;
        consumer_running = true;
        accept_events = true;
      },
    )

-- The two stores that make the threads stop.
abbrev pub stopping : Runtime → Runtime
stopping r = record r { accept_events = false; consumer_running = false }

-- What is printed at the end, and the state left.
abbrev pub finish : Runtime → Transport × Summary × Runtime
finish r =
    let t = transport_summary r in
    (t, summary r.verifier t.trace_complete, record r { thread_exit_key_ready = false })

-- `pthread_join` returns once the consumer has left its loop.
unfoldable pub runtime_stop : ℕ → Runtime → Option (Transport × Summary × Runtime)
runtime_stop fuel r = elim (consumer_main fuel (stopping r)) [
  | none ↦ none
  | some r' ↦ some (finish r')
]
