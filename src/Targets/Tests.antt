-- ===== src/Targets/Tests.antt =====
-- The theorems on the targets applied to short runs.
use runtime_monitor.Base.{
  ℕ, ◌+◌, ◌*◌, ◌^◌, ◌<◌, ◌≤◌, ◌≡◌, ◌⊎◌, refl, arith, Bool, true, false, bit, List, [], ◌∷◌, ◌++◌,
  u64,
}
use runtime_monitor.Event.{Event}
use runtime_monitor.Verifier.Process.{init}
use runtime_monitor.Verifier.Deadlock.{check_deadlocks}
use runtime_monitor.Targets.Workers.{
  Program, Place, at_barrier, at_head, holding, returned, Worker, Shared, Move, arrive, pass, lock,
  load, store, do_work, unlock, finish, worker_moves, main_arrives, Reach, started, stepped,
  first_sink, first_shared, worked_sink,
}
use runtime_monitor.Targets.Workers.Totals.{total, AllWorkers}
use runtime_monitor.Targets.Workers.Places.{Ended, inside, credit}
use runtime_monitor.Targets.Workers.Exclusion.{workers_exclusive}
use runtime_monitor.Targets.Workers.Progress.{GoesOn, workers_progress}
use runtime_monitor.Targets.Workers.Termination.{steps, workers_end}
use runtime_monitor.Targets.Benchmark.{Options, runs, command_line, expected, program}
use runtime_monitor.Targets.Benchmark.CommandLine.{
  OptionsOk, options_line, accepted_in_range, printed_options,
}
use runtime_monitor.Targets.Benchmark.Verdict.{benchmark_counter}
use runtime_monitor.Targets.Scripts.{Who, main, first, second, stuck, run, step}
use runtime_monitor.Targets.Scripts.Monitored.{
  Merge, neither, from_left, from_right, process_all, events_of,
}
use runtime_monitor.Targets.Scripts.Circular as Circular
use runtime_monitor.Targets.Scripts.Reported.{reports_circle, circular_reported}
use runtime_monitor.Targets.Scripts.SelfDeadlock as SelfDeadlock
use runtime_monitor.Targets.Scripts.Verdicts.{
  self_deadlock, only, is_expected, no_delay, violation_reported,
}

-- One thread, one iteration, no work.
abbrev small : Options
small = record { threads = 1; iterations = 1; work = 0 }

small-OptionsOk : OptionsOk small
small-OptionsOk = (omega arith, omega arith, omega arith, omega arith, omega arith)

printed_options_example : command_line (options_line small) ≡ runs small
printed_options_example = printed_options small small-OptionsOk (omega arith)

accepted_in_range_example :
    OptionsOk small
    × (small.iterations * small.threads < 2 ^ 64)
    × (expected small ≡ small.iterations * small.threads)
accepted_in_range_example = accepted_in_range (options_line small) small printed_options_example

abbrev worker : Place → ℕ → ℕ → Worker
worker q i sink = record { place = q; i = i; local_sink = sink }

-- The shared variables with the barrier complete.
abbrev released_barrier : ℕ → ℕ → Bool → Shared
released_barrier counter sink locked = record {
  counter = counter;
  work_sink = sink;
  locked = locked;
  arrived = 2;
  main_arrived = true;
}

one_step :
    (p : Program) (s t : Shared) (v w : Worker)
    → Move p s v t w
    → Reach p 1 (record { shared = s; workers = v ∷ [] })
    → Reach p 1 (record { shared = t; workers = w ∷ [] })
one_step p s t v w m r = stepped _ _ r (worker_moves s t v w [] [] m)

-- The only worker has passed the barrier.
passed_barrier :
    Reach
      (program small)
      1
      (record { shared = released_barrier 0 0 false; workers = worker at_head 0 first_sink ∷ [] })
passed_barrier =
    one_step (program small) _ _ _ _ (pass (released_barrier 0 0 false) 0 first_sink refl) (
      stepped _ _ (one_step (program small) _ _ _ _ (arrive first_shared 0 first_sink) started) (
        main_arrives (record first_shared { arrived = 1 }) (worker at_barrier 0 first_sink ∷ [])
          refl))

-- It has the mutex.
has_mutex :
    Reach
      (program small)
      1
      (record { shared = released_barrier 0 0 true; workers = worker holding 0 first_sink ∷ [] })
has_mutex =
    one_step (program small) _ _ _ _
      (lock (released_barrier 0 0 false) 0 first_sink (omega arith) refl) passed_barrier

workers_exclusive_example :
    (total inside (worker holding 0 first_sink ∷ []) ≡ bit true)
    × (0 ≡ u64 (total credit (worker holding 0 first_sink ∷ [])))
workers_exclusive_example =
    workers_exclusive (program small) 1
      (record { shared = released_barrier 0 0 true; workers = worker holding 0 first_sink ∷ [] })
      (omega arith, omega arith) has_mutex

workers_progress_example :
    AllWorkers (λ w. Ended w.place) (worker holding 0 first_sink ∷ [])
    ⊎ GoesOn
        (program small)
        (record { shared = released_barrier 0 0 true; workers = worker holding 0 first_sink ∷ [] })
workers_progress_example =
    workers_progress (program small) 1
      (record { shared = released_barrier 0 0 true; workers = worker holding 0 first_sink ∷ [] })
      (omega arith, omega arith) (omega arith) has_mutex (tt, tt)

workers_end_example : steps (program small) 1 _ has_mutex ≤ 1 * (6 * 1 + 3) + 1
workers_end_example =
    workers_end (program small) 1
      (record { shared = released_barrier 0 0 true; workers = worker holding 0 first_sink ∷ [] })
      (omega arith, omega arith) has_mutex

abbrev sink_after : ℕ
sink_after = worked_sink (program small) 1 first_sink

-- It has incremented the counter, released the mutex and returned.
all_done : Reach (program small) 1 (record {
  shared = released_barrier 1 sink_after false;
  workers = worker (returned 0) 1 sink_after ∷ [];
})
all_done =
    let p = program small in
    let r1 = one_step p _ _ _ _ (load (released_barrier 0 0 true) 0 first_sink) has_mutex in
    let r2 = one_step p _ _ _ _ (store (released_barrier 0 0 true) 0 first_sink 0) r1 in
    let r3 = one_step p _ _ _ _ (do_work (released_barrier 1 0 true) 0 first_sink) r2 in
    let r4 = one_step p _ _ _ _ (unlock (released_barrier 1 sink_after true) 0 sink_after) r3 in
    one_step p _ _ _ _ (finish (released_barrier 1 sink_after false) 1 sink_after (omega arith)) r4

benchmark_counter_example : 1 ≡ small.iterations * small.threads
benchmark_counter_example =
    benchmark_counter (options_line small) small
      (record {
        shared = released_barrier 1 sink_after false;
        workers = worker (returned 0) 1 sink_after ∷ [];
      })
      printed_options_example all_done (tt, tt) refl

-- All events of the left queue first.
left_first : (xs ys : List Event) → Merge xs ys (xs ++ ys)
left_first [] [] = neither
left_first [] (y ∷ ys) = from_right y [] ys ys (left_first [] ys)
left_first (x ∷ xs) ys = from_left x xs ys (xs ++ ys) (left_first xs ys)

abbrev still : ℕ → ℕ
still n = n

-- A schedule in which both threads are blocked at the end.
abbrev to_the_end : List Who
to_the_end =
    main ∷ main ∷ main ∷ main ∷ first ∷ first ∷ first ∷ second ∷ second ∷ second ∷ first ∷ first
    ∷ second ∷ []

both_blocked : stuck (run to_the_end Circular.program) ≡ true
unfolding step
both_blocked = refl

circular_reported_example :
    let p = run to_the_end Circular.program in
    let es = events_of still p first ++ events_of still p second in
    reports_circle (check_deadlocks (check_deadlocks (process_all (init 1000) es))).output ≡ true
circular_reported_example =
    circular_reported still 1000 to_the_end
      (events_of still (run to_the_end Circular.program) first
        ++ events_of still (run to_the_end Circular.program) second)
      both_blocked (left_first _ _)

abbrev alone : List Who
alone =
    main ∷ main ∷ main ∷ main ∷ main ∷ first ∷ first ∷ first ∷ first ∷ first ∷ first ∷ main ∷ main
    ∷ main ∷ []

worker_returned : stuck (run alone SelfDeadlock.program) ≡ true
unfolding step
worker_returned = refl

violation_reported_example :
    let p = run alone SelfDeadlock.program in
    let es = events_of no_delay p first ++ events_of no_delay p second in
    only (is_expected self_deadlock) (process_all (init 1000) es).output ≡ true
violation_reported_example =
    violation_reported self_deadlock alone
      (events_of no_delay (run alone SelfDeadlock.program) first
        ++ events_of no_delay (run alone SelfDeadlock.program) second)
      worker_returned (left_first _ _)
