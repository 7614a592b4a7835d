-- ===== src/Targets/Workers.antt =====
-- The worker threads of targets/benchmark_mutex/benchmark_mutex.c and targets/correct/correct_mutex.c,
-- at the grain of their loads, stores and pthread calls: each takes the mutex, increments the shared
-- counter and releases the mutex again, as often as it is told. A call of a pthread function may fail.
pub mod Totals
pub mod Places
pub mod Moves
pub mod Invariant
pub mod Exclusion
pub mod Progress
pub mod Termination
pub mod Joins
use Prim.Native.Nat.{bit_xor}
use runtime_monitor.Base.{
  ℕ, zero, suc, ◌+◌, ◌*◌, ◌/◌, ◌^◌, ◌<◌, ◌≤◌, ◌≡◌, ◌≢◌, Bool, true, false, if◌then◌else◌, List, [],
  ◌∷◌, ◌++◌, u64, replicate,
}

-- What differs between the two programs: the iterations of a worker, the arithmetic it does under the
-- mutex, if any, whether it starts at a barrier, and what it returns when a call fails.
pub record Program : Type 0 where
  pub iterations : ℕ
  pub works : Bool
  pub work : ℕ
  pub parties : ℕ
  pub has_barrier : Bool
  pub lock_code : ℕ
  pub unlock_code : ℕ

-- Where a worker is: before the barrier and waiting there, at the head of the loop, with the mutex,
-- with the counter loaded, with the counter stored and the work to do, ready to unlock, and returned
-- with a result, where NULL is 0: with the mutex released, or with it still locked, where the unlock
-- failed. A worker that is turned away has returned 1 because its wait at the barrier failed, and does
-- not count there.
pub data Place : Type 0 where
  outside : Place
  at_barrier : Place
  turned_away : Place
  at_head : Place
  holding : Place
  loaded : ℕ → Place
  busy : Place
  ready : Place
  returned : ℕ → Place
  abandoned : ℕ → Place

-- A worker with its loop variable and `local_sink`.
pub record Worker : Type 0 where
  pub place : Place
  pub i : ℕ
  pub local_sink : ℕ

-- The variables of the process; `arrived` is the barrier's count.
pub record Shared : Type 0 where
  pub counter : ℕ
  pub work_sink : ℕ
  pub locked : Bool
  pub arrived : ℕ
  pub main_arrived : Bool

pub record System : Type 0 where
  pub shared : Shared
  pub workers : List Worker

-- One round of the work: a step of a congruential generator, and a shift.
abbrev pub scramble : ℕ → ℕ
scramble x = let y = u64 (x * 6364136223846793005 + 1442695040888963407) in bit_xor y (y / 2 ^ 17)

abbrev pub stir : ℕ → ℕ → ℕ
stir zero x = x
stir (suc j) x = stir j (scramble x)

-- `local_sink` after the work of one iteration
abbrev pub worked_sink : Program → ℕ → ℕ → ℕ
worked_sink p counter sink = bit_xor sink (stir p.work (bit_xor counter sink))

abbrev pub after_store : Program → Place
after_store p = if p.works then busy else ready

abbrev pub first_place : Program → Place
first_place p = if p.has_barrier then outside else at_head

abbrev pub first_sink : ℕ
first_sink = 0x9e3779b97f4a7c15

-- One step of one worker.
pub data Move (p : Program) : Shared → Worker → Shared → Worker → Type 0 where
  arrive :
      (s : Shared) (i sink : ℕ)
      → Move p s
          (record { place = outside; i = i; local_sink = sink })
          (record s { arrived = s.arrived + 1 })
          (record { place = at_barrier; i = i; local_sink = sink })
  pass :
      (s : Shared) (i sink : ℕ)
      → s.arrived ≡ p.parties
      → Move p s
          (record { place = at_barrier; i = i; local_sink = sink })
          s
          (record { place = at_head; i = i; local_sink = sink })
  barrier_fails :
      (s : Shared) (i sink : ℕ)
      → Move p s
          (record { place = outside; i = i; local_sink = sink })
          s
          (record { place = turned_away; i = i; local_sink = sink })
  lock :
      (s : Shared) (i sink : ℕ)
      → i < p.iterations
      → s.locked ≡ false
      → Move p s
          (record { place = at_head; i = i; local_sink = sink })
          (record s { locked = true })
          (record { place = holding; i = i; local_sink = sink })
  lock_fails :
      (s : Shared) (i sink : ℕ)
      → i < p.iterations
      → Move p s
          (record { place = at_head; i = i; local_sink = sink })
          s
          (record { place = returned p.lock_code; i = i; local_sink = sink })
  load :
      (s : Shared) (i sink : ℕ)
      → Move p s
          (record { place = holding; i = i; local_sink = sink })
          s
          (record { place = loaded s.counter; i = i; local_sink = sink })
  store :
      (s : Shared) (i sink value : ℕ)
      → Move p s
          (record { place = loaded value; i = i; local_sink = sink })
          (record s { counter = u64 (value + 1) })
          (record { place = after_store p; i = i; local_sink = sink })
  do_work :
      (s : Shared) (i sink : ℕ)
      → Move p s
          (record { place = busy; i = i; local_sink = sink })
          (record s { work_sink = worked_sink p s.counter sink })
          (record { place = ready; i = i; local_sink = worked_sink p s.counter sink })
  unlock :
      (s : Shared) (i sink : ℕ)
      → Move p s
          (record { place = ready; i = i; local_sink = sink })
          (record s { locked = false })
          (record { place = at_head; i = i + 1; local_sink = sink })
  unlock_fails :
      (s : Shared) (i sink : ℕ)
      → Move p s
          (record { place = ready; i = i; local_sink = sink })
          s
          (record { place = abandoned p.unlock_code; i = i; local_sink = sink })
  finish :
      (s : Shared) (i sink : ℕ)
      → p.iterations ≤ i
      → Move p s
          (record { place = at_head; i = i; local_sink = sink })
          s
          (record { place = returned 0; i = i; local_sink = sink })

-- One step of the process: of any worker, or of `main` as it comes to the barrier.
pub data Step (p : Program) : System → System → Type 0 where
  worker_moves :
      (s t : Shared) (v w : Worker) (before after : List Worker)
      → Move p s v t w
      → Step p
          (record { shared = s; workers = before ++ v ∷ after })
          (record { shared = t; workers = before ++ w ∷ after })
  main_arrives :
      (s : Shared) (ws : List Worker)
      → s.main_arrived ≡ false
      → Step p
          (record { shared = s; workers = ws })
          (record {
            shared = record s { arrived = s.arrived + 1; main_arrived = true };
            workers = ws;
          })

abbrev pub first_shared : Shared
first_shared = record {
  counter = 0;
  work_sink = 0;
  locked = false;
  arrived = 0;
  main_arrived = false;
}

-- `count` workers created, none of which has run yet.
abbrev pub start : Program → ℕ → System
start p count = record {
  shared = first_shared;
  workers = replicate count (record { place = first_place p; i = 0; local_sink = first_sink });
}

-- The states of a run.
pub data Reach (p : Program) (count : ℕ) : System → Type 0 where
  started : Reach p count (start p count)
  stepped : (a b : System) → Reach p count a → Step p a b → Reach p count b
