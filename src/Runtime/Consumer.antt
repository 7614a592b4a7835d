-- ===== src/Runtime/Consumer.antt =====
-- src/monitor_runtime.c: the consumer thread, `drain_context` and `monitor_consumer_main`.
use runtime_monitor.Base.{
  ℕ, zero, suc, ◌+◌, Bool, true, false, not, ◌&&◌, ◌||◌, Option, none, some, if◌then◌else◌,
}
use runtime_monitor.Event.{Event}
use runtime_monitor.Ring.{Ring, try_pop}
use runtime_monitor.Verifier.Process.{process_event}
use runtime_monitor.Verifier.Deadlock.{check_deadlocks}
use runtime_monitor.Runtime.State.{Runtime, drain_batch, context_at, set_context}
use runtime_monitor.Runtime.Producer.{single_writer_increment}

-- An event that was popped goes to the verifier, and is counted.
abbrev pub consume : Runtime → ℕ → Ring → Event → Runtime
consume r s q e =
    record (set_context r s (record (context_at r s) {
      queue = q;
      consumed = single_writer_increment (context_at r s).consumed;
    })) { verifier = process_event r.verifier e }

-- The loop with `n` rounds left; `any` is `consumed_any`.
unfoldable pub drain_from : ℕ → Runtime → ℕ → Bool → Bool × Runtime
drain_from zero r s any = (any, r)
drain_from (suc n) r s any =
    let (out, q) = try_pop (context_at r s).queue in
    elim out [ none ↦ (any, r) | some e ↦ drain_from n (consume r s q e) s true ]

unfoldable pub drain_context : Runtime → ℕ → Bool × Runtime
drain_context r s = drain_from drain_batch r s false

-- One context of the consumer's loop.
abbrev pub visit : Bool × Runtime → ℕ → Bool × Runtime
visit (any, r) s =
    if not (context_at r s).active
    then (any, r)
    else let (some_here, r') = drain_context r s in (some_here || any, r')

-- The loop over the contexts, with `n` left, at slot `s`.
unfoldable pub drain_all : ℕ → ℕ → Bool × Runtime → Bool × Runtime
drain_all zero s state = state
drain_all (suc n) s state = drain_all n (s + 1) (visit state s)

-- The graph is checked only when no event was consumed.
abbrev pub check_if_quiet : Bool × Runtime → Bool × Runtime
check_if_quiet (true, r) = (true, r)
check_if_quiet (false, r) = (false, record r { verifier = check_deadlocks r.verifier })

-- One round of the endless loop: whether it consumed an event, and the state.
unfoldable pub consumer_round : Runtime → Bool × Runtime
consumer_round r = check_if_quiet (drain_all r.next_thread_slot 0 (false, r))

-- The loop with `fuel` rounds left; `none` where they do not suffice.
unfoldable pub consumer_main : ℕ → Runtime → Option Runtime
consumer_main zero r = none
consumer_main (suc fuel) r =
    let (any, r') = consumer_round r in
    elim (not r'.consumer_running && not any) [ true ↦ some r' | false ↦ consumer_main fuel r' ]
