-- ===== src/Targets/Benchmark/Verdict.antt =====
-- targets/benchmark_mutex/benchmark_mutex.c, `main`: what its verdict says of a run of the workers.
use runtime_monitor.Base.{
  ℕ, zero, suc, ◌*◌, ◌≡◌, ◌↔◌, refl, sym, ◌∙◌, arith, Bool, true, false, not, ◌||◌, ◌&&◌, ◌==◌,
  ==_iff, if◌then◌else◌, if_true, List, [], ◌∷◌,
}
use runtime_monitor.Targets.Workers.{Worker, System, Reach}
use runtime_monitor.Targets.Workers.Totals.{AllWorkers}
use runtime_monitor.Targets.Workers.Places.{Ended}
use runtime_monitor.Targets.Workers.Joins.{result_at, joined, AllNull, counter-null}
use runtime_monitor.Targets.Benchmark.{
  Options, runs, command_line, program, expected, worker_failed, status_ok, exit_status,
}
use runtime_monitor.Targets.Benchmark.CommandLine.{accepted_in_range}

no_failure : (result : ℕ) (b : Bool) → (not (result == 0) || b) ≡ false → (result ≡ 0) × (b ≡ false)
no_failure zero b e = (refl, e)
no_failure (suc result) b e = absurd (ground arith)

all_null : (ws : List Worker) → worker_failed (joined ws) ≡ false → AllNull ws
all_null [] e = tt
all_null (w ∷ ws) e = (here.0, all_null ws here.1)
  where
    here : (result_at w.place ≡ 0) × (worker_failed (joined ws) ≡ false)
    here = no_failure (result_at w.place) (worker_failed (joined ws)) e

-- For every command line that `main` accepts and every state that the workers can reach: once every
-- worker has ended, every join succeeds and no worker has reported a failure, the counter is exactly
-- the number of iterations times the number of threads, whatever the order of the workers' steps.
pub benchmark_counter :
    (argv : List (List ℕ)) (o : Options) (a : System)
    → command_line argv ≡ runs o
    → Reach (program o) o.threads a
    → AllWorkers (λ w. Ended w.place) a.workers
    → worker_failed (joined a.workers) ≡ false
    → a.shared.counter ≡ o.iterations * o.threads
benchmark_counter argv o a accepted run ended fine =
    counter-null (program o) o.threads a (omega arith, omega arith) run ended
      (all_null a.workers fine)
    ∙ omega (arith, (accepted_in_range argv o accepted).1)

exit_status-ok :
    (o : Options) (counter : ℕ) (joins : List (ℕ × ℕ))
    → exit_status o counter joins ≡ 0
    → worker_failed joins ≡ false
exit_status-ok o counter joins e = verdict_of (counter == expected o) (worker_failed joins) e
  where
    verdict_of : (b f : Bool) → if◌then◌else◌ {A = ℕ} (b && not f) 0 1 ≡ 0 → f ≡ false
    verdict_of b false e = refl
    verdict_of true true e = absurd (omega (arith, e))
    verdict_of false true e = absurd (omega (arith, e))

-- For every command line that `main` accepts and every state that the workers can reach: once every
-- worker has ended and every join succeeds, `main` exits with success if and only if no worker has
-- reported a failure.
pub benchmark_verdict :
    (argv : List (List ℕ)) (o : Options) (a : System)
    → command_line argv ≡ runs o
    → Reach (program o) o.threads a
    → AllWorkers (λ w. Ended w.place) a.workers
    → (exit_status o a.shared.counter (joined a.workers) ≡ 0)
      ↔ (worker_failed (joined a.workers) ≡ false)
benchmark_verdict argv o a accepted run ended = (
  exit_status-ok o a.shared.counter (joined a.workers),
  λ fine.
      if_true (status_ok o a.shared.counter (joined a.workers)) _ _
        (ground (arith, counter_ok fine, fine)),
)
  where
    counter_ok : worker_failed (joined a.workers) ≡ false → (a.shared.counter == expected o) ≡ true
    counter_ok fine = (==_iff a.shared.counter (expected o)).1 (
        benchmark_counter argv o a accepted run ended fine
        ∙ sym (accepted_in_range argv o accepted).2)
