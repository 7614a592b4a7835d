-- ===== src/Targets/Workers/Exclusion.antt =====
-- targets/benchmark_mutex/benchmark_mutex.c, `worker_main`: the critical section.
use runtime_monitor.Base.{ℕ, ◌≡◌, bit, u64}
use runtime_monitor.Targets.Workers.{Program, System, Reach}
use runtime_monitor.Targets.Workers.Totals.{total}
use runtime_monitor.Targets.Workers.Places.{credit, inside, Fails}
use runtime_monitor.Targets.Workers.Invariant.{Consistent, Reach-Consistent}

-- In every state that the workers can reach, at most one of them is between a successful lock and the
-- unlock that releases the mutex, and exactly one if the mutex is locked; the counter is the number of
-- increments done so far, modulo 2^64, so no increment is lost. The failure codes must differ from
-- NULL.
pub workers_exclusive :
    (p : Program) (n : ℕ) (a : System)
    → Fails p
    → Reach p n a
    → (total inside a.workers ≡ bit a.shared.locked)
      × (a.shared.counter ≡ u64 (total credit a.workers))
workers_exclusive p n a f r = (c.exclusive, c.counted)
  where
    c : Consistent p n a
    c = Reach-Consistent p n a f r
