-- ===== src/Targets/Workers/Totals.antt =====
-- Sums over the workers of targets/benchmark_mutex/benchmark_mutex.c, and what holds of each of them.
use runtime_monitor.Base.{ℕ, zero, suc, ◌+◌, ◌*◌, ◌≡◌, arith, List, [], ◌∷◌, ◌++◌, replicate}
use runtime_monitor.Targets.Workers.{Worker}

abbrev pub total : (Worker → ℕ) → List Worker → ℕ
total f [] = 0
total f (w ∷ ws) = f w + total f ws

abbrev pub AllWorkers : (Worker → Type 0) → List Worker → Type 0
AllWorkers P [] = Unit
AllWorkers P (w ∷ ws) = P w × AllWorkers P ws

pub total-append :
    (f : Worker → ℕ) (before : List Worker) (w : Worker) (after : List Worker)
    → total f (before ++ w ∷ after) ≡ total f before + total f after + f w
total-append f [] w after = omega arith
total-append f (b ∷ before) w after = omega (arith, total-append f before w after)

pub total-replicate : (f : Worker → ℕ) (n : ℕ) (w : Worker) → total f (replicate n w) ≡ n * f w
total-replicate f zero w = omega arith
total-replicate f (suc n) w = grind (arith, total-replicate f n w)

pub total-replicate_zero :
    (f : Worker → ℕ) (n : ℕ) (w : Worker) → f w ≡ 0 → total f (replicate n w) ≡ 0
total-replicate_zero f zero w e = omega arith
total-replicate_zero f (suc n) w e = omega (arith, e, total-replicate_zero f n w e)

module _ (P : Worker → Type 0) where
  pub AllWorkers-before :
      (before : List Worker) (w : Worker) (after : List Worker)
      → AllWorkers P (before ++ w ∷ after)
      → AllWorkers P before
  AllWorkers-before [] w after h = tt
  AllWorkers-before (b ∷ before) w after (first, rest) =
      (first, AllWorkers-before before w after rest)

  pub AllWorkers-at :
      (before : List Worker) (w : Worker) (after : List Worker)
      → AllWorkers P (before ++ w ∷ after)
      → P w × AllWorkers P after
  AllWorkers-at [] w after h = h
  AllWorkers-at (b ∷ before) w after (first, rest) = AllWorkers-at before w after rest

  pub AllWorkers-join :
      (before : List Worker) (w : Worker) (after : List Worker)
      → AllWorkers P before
      → P w
      → AllWorkers P after
      → AllWorkers P (before ++ w ∷ after)
  AllWorkers-join [] w after h here there = (here, there)
  AllWorkers-join (b ∷ before) w after (first, rest) here there =
      (first, AllWorkers-join before w after rest here there)

  pub AllWorkers-replicate : (n : ℕ) (w : Worker) → P w → AllWorkers P (replicate n w)
  AllWorkers-replicate zero w h = tt
  AllWorkers-replicate (suc n) w h = (h, AllWorkers-replicate n w h)
