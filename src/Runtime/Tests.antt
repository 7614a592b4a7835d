-- ===== src/Runtime/Tests.antt =====
-- The runtime's theorems applied to a program with two threads.
use runtime_monitor.Base.{
  ◌+◌, ◌≡◌, arith, true, false, ◌&&◌, some, ◌==◌, replicate, length-replicate, get_or-replicate,
  subst, sym,
}
use runtime_monitor.Event.{lock_request}
use runtime_monitor.Verifier.Process.{init}
use runtime_monitor.Verifier.Summary.{Summary}
use runtime_monitor.Runtime.State.{Runtime, fresh_tls, zero_context, max_contexts}
use runtime_monitor.Runtime.Producer.{Answers, emit}
use runtime_monitor.Runtime.Lifecycle.{Transport, runtime_start, runtime_stop}
use runtime_monitor.Runtime.Conservation.{Balanced, IsValid, zero-Balanced, emit-IsValid}
use runtime_monitor.Runtime.Draining.{queued}
use runtime_monitor.Runtime.Shutdown.{runtime_stop-accounts}
use runtime_monitor.Runtime.Ownership.{System, Sound, after, tls_at}
use runtime_monitor.Runtime.Run.{start, later, emits, runtime_start-IsValid, Reach-Sound}
use runtime_monitor.Base.{ℕ, [], ◌∷◌, ◌++◌, refl, ap, ◌∙◌, not, bit, false}
use runtime_monitor.Ring.{Ring}
use runtime_monitor.Verifier.State.{thread_at}
use runtime_monitor.Verifier.Verdicts.Streams.{observe_all, in_order}
use runtime_monitor.Event.{Event}
use runtime_monitor.Ring.{try_push, try_pop}
use runtime_monitor.Ring.Bounds.{size, size-init}
use runtime_monitor.Ring.Fifo.{contents, window, dequeue, try_push_appends, try_pop_refines}
use runtime_monitor.Ring.Bounds as Bounds
use runtime_monitor.Verifier.Cycle.Spec.{IsCycle}
use runtime_monitor.Base.{List, length}
use runtime_monitor.Verifier.State.{deadlock_cycle}
use runtime_monitor.Verifier.Tests.{
  stuck, stuck-IsValid, stuck-IsCycle, stuck_values, met, met-Live, met_values,
}
use runtime_monitor.Runtime.State.{Context}
use runtime_monitor.Runtime.Producer.{new_event, single_writer_increment, produce, fresh_context}
use runtime_monitor.Runtime.Conservation.{frame-IsValid}
use runtime_monitor.Runtime.Detection.{rounds, following, deadlock_found}
use runtime_monitor.Runtime.Streams.{
  Life, begins, produces, delivers, Life-Balanced, undropped_trusted,
}

-- The static variables of a process that starts.
abbrev loaded : Runtime
loaded = record {
  contexts = replicate max_contexts zero_context;
  next_thread_slot = 0;
  global_sequence = 0;
  unregistered_events = 0;
  lifecycle_registration_failures = 0;
  accept_events = false;
  consumer_running = false;
  thread_exit_key_ready = false;
  verifier = init 0;
}

loaded-IsValid : IsValid loaded
loaded-IsValid = record {
  storage = length-replicate max_contexts zero_context;
  each = λ i. subst Balanced (sym (get_or-replicate max_contexts i zero_context)) zero-Balanced;
  slots = omega arith;
}

abbrev answers : Answers
answers = record { tid = 7; setspecific = 0; start_clock = some (1, 5); clock = some (1, 9) }

abbrev started : Runtime
started = (runtime_start loaded 0 0 0).1

-- A thread has asked for the mutex at address 100.
abbrev asked : Runtime
asked = (emit started fresh_tls lock_request 100 0 answers).1

asked-IsValid : IsValid asked
asked-IsValid =
    emit-IsValid started fresh_tls lock_request 100 0 answers
      (runtime_start-IsValid loaded 0 0 0 loaded-IsValid)

runtime_stop-accounts_example :
    (t : Transport) × (s : Summary) × (r' : Runtime) × (runtime_stop (queued asked + 1) asked
      ≡ some (t, s, r'))
    × (t.transport_consistent ≡ true)
    × (t.trace_complete
        ≡ ((t.totals.dropped == 0) && ((t.rejected == 0) && (t.lifecycle_failures == 0))))
    × (s.authoritative ≡ (
        t.trace_complete
        && ((s.stats.state_overflow_events == 0) && (s.stats.tainted_thread_streams == 0))))
runtime_stop-accounts_example =
    runtime_stop-accounts (queued asked + 1) asked asked-IsValid (omega arith)

-- Two threads before their first event.
abbrev program : System
program = record { runtime = started; threads = replicate 2 fresh_tls }

abbrev one_asked : System
one_asked = after program 0 (emit started fresh_tls lock_request 100 0 answers)

abbrev both_asked : System
both_asked =
    after one_asked 1 (emit one_asked.runtime (tls_at one_asked 1) lock_request 200 0 answers)

Reach-Sound_example : Sound both_asked
Reach-Sound_example = Reach-Sound (
    later (later (start loaded 2 0 0 0 loaded-IsValid) (emits 0 lock_request 100 0 answers))
      (emits 1 lock_request 200 0 answers))

-- Two threads wait for each other, and no event is on its way.
abbrev jammed : Runtime
jammed = record loaded { verifier = stuck }

nothing_queued : queued jammed ≡ 0
nothing_queued = refl

deadlock_found_example :
    (first : ℕ) × (threads : List ℕ) × (mutexes : List ℕ) × IsCycle jammed.verifier first threads
      mutexes
    × ((rounds 3 jammed).verifier.output
        ≡ deadlock_cycle jammed.verifier.last_processed_sequence
            (length threads)
            threads
            mutexes
            (following threads first)
          ∷ jammed.verifier.output)
deadlock_found_example =
    deadlock_found jammed 1 (1 ∷ 2 ∷ []) (200 ∷ 100 ∷ []) 1
      (frame-IsValid loaded _ refl refl loaded-IsValid) stuck-IsValid nothing_queued stuck-IsCycle
      stuck_values.2 stuck_values.3

-- A context whose thread has emitted one event, which the consumer has taken.
abbrev registered_context : Context
registered_context = fresh_context zero_context 7

registered-Life : Life registered_context [] 0
registered-Life = begins zero_context 7 zero-Balanced

abbrev request : Event
request = new_event loaded registered_context lock_request 100 0 5

empty_queue : size registered_context.queue ≡ 0
unfolding fresh_context
empty_queue = size-init zero_context.queue

no_events : (q : Ring) → size q ≡ 0 → contents q ≡ []
no_events q e = ap (λ n. window q.slots q.tail n) e

pop_of : (q : Ring) → Bounds.IsValid q → contents q ≡ request ∷ [] → (try_pop q).0 ≡ some request
unfolding dequeue
pop_of q v e = ap (λ x. x.0) (try_pop_refines q v ∙ ap dequeue e)

pushed :
    ((try_push registered_context.queue request).0 ≡ true)
    × (contents (try_push registered_context.queue request).1
        ≡ contents registered_context.queue ++ request ∷ [])
pushed =
    try_push_appends registered_context.queue request (Life-Balanced _ [] 0 registered-Life).queue
      (omega (arith, empty_queue))

abbrev asked_context : Context
asked_context = produce registered_context request

asked-Life : Life asked_context [] 0
asked-Life =
    subst (λ d. Life asked_context [] d) (ap (λ b. 0 + bit (not b)) pushed.0)
      (produces registered_context [] 0 loaded lock_request 100 0 5 registered-Life)

asked_contents : contents asked_context.queue ≡ request ∷ []
unfolding produce
asked_contents =
    pushed.1 ∙ ap (λ q. q ++ request ∷ []) (no_events registered_context.queue empty_queue)

popped : (try_pop asked_context.queue).0 ≡ some request
popped = pop_of _ (Life-Balanced asked_context [] 0 asked-Life).queue asked_contents

undropped_trusted_example :
    (in_order 0 (request ∷ []) ≡ true)
    × ((thread_at (observe_all met 0 (request ∷ [])) 0).trace_tainted ≡ false)
undropped_trusted_example =
    undropped_trusted
      (record asked_context {
        queue = (try_pop asked_context.queue).1;
        consumed = single_writer_increment asked_context.consumed;
      })
      (request ∷ []) met 0 (delivers asked_context [] 0 request asked-Life popped) met-Live
      met_values.0 met_values.1
