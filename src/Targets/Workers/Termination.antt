-- ===== src/Targets/Workers/Termination.antt =====
-- targets/benchmark_mutex/benchmark_mutex.c, `worker_main`: the end of the loops.
use runtime_monitor.Base.{ℕ, suc, ◌+◌, ◌-◌, ◌*◌, ◌<◌, ◌≤◌, ap, arith, Bool, true, false}
use native.Mathlib.Nat.{mul-le-mul_left}
use runtime_monitor.Targets.Workers.{
  first_sink, Program, Place, outside, at_barrier, turned_away, at_head, holding, loaded, busy,
  ready, returned, abandoned, Worker, Shared, System, Move, arrive, pass, barrier_fails, lock,
  lock_fails, load, store, do_work, unlock, unlock_fails, finish, Step, worker_moves, main_arrives,
  Reach, started, stepped, first_place,
}
use runtime_monitor.Targets.Workers.Totals.{total, total-append, total-replicate, AllWorkers-at}
use runtime_monitor.Targets.Workers.Places.{WorkerOk, Fails}
use runtime_monitor.Targets.Workers.Moves.{after_store-all, first_place-all, Move-absent}
use runtime_monitor.Targets.Workers.Invariant.{Consistent, Reach-Consistent}

-- How many steps a worker at a place has still before it, at most.
abbrev pub rank_at : ℕ → Place → ℕ → ℕ
rank_at n outside i = 6 * (n - i) + 3
rank_at n at_barrier i = 6 * (n - i) + 2
rank_at n turned_away i = 0
rank_at n at_head i = 6 * (n - i) + 1
rank_at n holding i = 6 * (n - i)
rank_at n (loaded value) i = 6 * (n - i) - 1
rank_at n busy i = 6 * (n - i) - 2
rank_at n ready i = 6 * (n - i) - 3
rank_at n (returned code) i = 0
rank_at n (abandoned code) i = 0

abbrev pub rank : Program → Worker → ℕ
rank p w = rank_at p.iterations w.place w.i

abbrev pub away : Bool → ℕ
away true = 0
away false = 1

abbrev pub steps_left : Program → System → ℕ
steps_left p a = total (rank p) a.workers + away a.shared.main_arrived

Move-rank :
    (p : Program) (s t : Shared) (v w : Worker)
    → Move p s v t w
    → WorkerOk p s.counter v
    → rank p w < rank p v
Move-rank p _ _ _ _ (arrive s i sink) ok = omega arith
Move-rank p _ _ _ _ (pass s i sink full) ok = omega arith
Move-rank p _ _ _ _ (barrier_fails s i sink) ok = omega arith
Move-rank p _ _ _ _ (lock s i sink more free) ok = omega arith
Move-rank p _ _ _ _ (lock_fails s i sink more) ok = omega arith
Move-rank p _ _ _ _ (load s i sink) ok = omega (arith, ok)
Move-rank p _ _ _ _ (store s i sink value) ok =
    after_store-all (λ q. rank_at p.iterations q i < rank_at p.iterations (loaded value) i) p
      (omega (arith, ok.0)) (omega (arith, ok.0))
Move-rank p _ _ _ _ (do_work s i sink) ok = omega (arith, ok)
Move-rank p _ _ _ _ (unlock s i sink) ok = omega (arith, ok)
Move-rank p _ _ _ _ (unlock_fails s i sink) ok = omega (arith, ok)
Move-rank p _ _ _ _ (finish s i sink last) ok = omega arith

Step-steps_left :
    (p : Program) (n : ℕ) (a b : System)
    → Step p a b
    → Consistent p n a
    → steps_left p b < steps_left p a
Step-steps_left p n _ _ (worker_moves s t v w before after m) c = omega (
  arith,
  total-append (rank p) before v after,
  total-append (rank p) before w after,
  Move-rank p s t v w m (AllWorkers-at (WorkerOk p s.counter) before v after c.each).0,
  ap away (Move-absent p s t v w m).1,
)
Step-steps_left p n _ _ (main_arrives s ws first) c = omega (arith, ap away first)

-- How many steps a run has.
unfoldable pub steps : (p : Program) (n : ℕ) (a : System) → Reach p n a → ℕ
steps p n _ started = 0
steps p n _ (stepped a b r m) = suc (steps p n a r)

steps_used :
    (p : Program) (n : ℕ) (a : System)
    → Fails p
    → (r : Reach p n a) → steps p n a r + steps_left p a ≤ n * (6 * p.iterations + 3) + 1
unfolding steps
steps_used p n _ f started = omega (
  arith,
  total-replicate (rank p) n first,
  mul-le-mul_left {m = rank p first} {n = 6 * p.iterations + 3} n low,
)
  where
    first : Worker
    first = record { place = first_place p; i = 0; local_sink = first_sink }

    low : rank p first ≤ 6 * p.iterations + 3
    low =
        first_place-all (λ q. rank_at p.iterations q 0 ≤ 6 * p.iterations + 3) p (omega arith)
          (omega arith)
steps_used p n _ f (stepped a b r m) =
    omega (arith, steps_used p n a f r, Step-steps_left p n a b m (Reach-Consistent p n a f r))

-- Every run of the workers ends: for `n` workers with `k` iterations each, no run, whatever the order
-- of the steps, has more than n * (6 * k + 3) + 1 steps. The failure codes must differ from NULL.
pub workers_end :
    (p : Program) (n : ℕ) (a : System)
    → Fails p
    → (r : Reach p n a) → steps p n a r ≤ n * (6 * p.iterations + 3) + 1
workers_end p n a f r = omega (arith, steps_used p n a f r)
