-- ===== src/Targets/Workers/Places.antt =====
-- targets/benchmark_mutex/benchmark_mutex.c, `worker_main`: what the place of a worker in its loop means.
use runtime_monitor.Base.{ℕ, zero, suc, ◌+◌, ◌<◌, ◌≤◌, ◌≡◌}
use runtime_monitor.Targets.Workers.{
  Program, Place, outside, at_barrier, turned_away, at_head, holding, loaded, busy, ready, returned,
  abandoned, Worker,
}

-- How often a worker has incremented the counter.
abbrev pub credit_at : Place → ℕ → ℕ
credit_at busy i = i + 1
credit_at ready i = i + 1
credit_at (abandoned code) i = i + 1
credit_at _ i = i

abbrev pub credit : Worker → ℕ
credit w = credit_at w.place w.i

-- 1 for a worker that has locked the mutex, 0 for any other.
abbrev pub inside_at : Place → ℕ
inside_at outside = 0
inside_at at_barrier = 0
inside_at turned_away = 0
inside_at at_head = 0
inside_at holding = 1
inside_at (loaded value) = 1
inside_at busy = 1
inside_at ready = 1
inside_at (returned code) = 0
inside_at (abandoned code) = 1

abbrev pub inside : Worker → ℕ
inside w = inside_at w.place

-- 1 for a worker that has not come to the barrier.
abbrev pub absent_at : Place → ℕ
absent_at outside = 1
absent_at turned_away = 1
absent_at _ = 0

abbrev pub absent : Worker → ℕ
absent w = absent_at w.place

-- The loop variable is in range, what was loaded is still the counter, and NULL is returned at the end.
abbrev pub PlaceOk : Program → ℕ → Place → ℕ → Type 0
PlaceOk p counter outside i = i ≤ p.iterations
PlaceOk p counter at_barrier i = i ≤ p.iterations
PlaceOk p counter turned_away i = Unit
PlaceOk p counter at_head i = i ≤ p.iterations
PlaceOk p counter holding i = i < p.iterations
PlaceOk p counter (loaded value) i = (i < p.iterations) × (value ≡ counter)
PlaceOk p counter busy i = i < p.iterations
PlaceOk p counter ready i = i < p.iterations
PlaceOk p counter (returned zero) i = i ≡ p.iterations
PlaceOk p counter (returned (suc code)) i = Unit
PlaceOk p counter (abandoned zero) i = ⊥
PlaceOk p counter (abandoned (suc code)) i = Unit

abbrev pub WorkerOk : Program → ℕ → Worker → Type 0
WorkerOk p counter w = PlaceOk p counter w.place w.i

-- The failure codes are not NULL.
abbrev pub Fails : Program → Type 0
Fails p = (0 < p.lock_code) × (0 < p.unlock_code)

-- A thread that has come to its end.
abbrev pub Ended : Place → Type 0
Ended turned_away = Unit
Ended (returned code) = Unit
Ended (abandoned code) = Unit
Ended _ = ⊥
