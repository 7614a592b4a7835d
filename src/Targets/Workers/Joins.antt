-- ===== src/Targets/Workers/Joins.antt =====
-- targets/: what `main` learns of the workers when it joins them.
use runtime_monitor.Base.{ℕ, zero, suc, ◌*◌, ◌≡◌, ap, ◌∙◌, arith, List, [], ◌∷◌, map, length, u64}
use runtime_monitor.Targets.Workers.{
  Program, Place, outside, at_barrier, turned_away, at_head, holding, loaded, busy, ready, returned,
  abandoned, Worker, System, Reach,
}
use runtime_monitor.Targets.Workers.Totals.{total, AllWorkers}
use runtime_monitor.Targets.Workers.Places.{Ended, credit, Fails, WorkerOk, PlaceOk, credit_at}
use runtime_monitor.Targets.Workers.Invariant.{Consistent, Reach-Consistent}

-- What `pthread_join` hands over of a thread that has ended.
abbrev pub result_at : Place → ℕ
result_at turned_away = 1
result_at (returned code) = code
result_at (abandoned code) = code
result_at _ = 0

-- The joins, each of which succeeds.
abbrev pub joined : List Worker → List (ℕ × ℕ)
joined ws = map (λ w. (0, result_at w.place)) ws

-- A worker that ended with NULL has done all its iterations.
Ended-credit :
    (p : Program) (counter : ℕ) (q : Place) (i : ℕ)
    → PlaceOk p counter q i
    → Ended q
    → result_at q ≡ 0
    → credit_at q i ≡ p.iterations
Ended-credit p counter outside i ok ended e = elim ended [ ]
Ended-credit p counter at_barrier i ok ended e = elim ended [ ]
Ended-credit p counter turned_away i ok ended e = absurd (omega (arith, e))
Ended-credit p counter at_head i ok ended e = elim ended [ ]
Ended-credit p counter holding i ok ended e = elim ended [ ]
Ended-credit p counter (loaded value) i ok ended e = elim ended [ ]
Ended-credit p counter busy i ok ended e = elim ended [ ]
Ended-credit p counter ready i ok ended e = elim ended [ ]
Ended-credit p counter (returned zero) i ok ended e = ok
Ended-credit p counter (returned (suc code)) i ok ended e = absurd (omega (arith, e))
Ended-credit p counter (abandoned zero) i ok ended e = elim ok [ ]
Ended-credit p counter (abandoned (suc code)) i ok ended e = absurd (omega (arith, e))

-- Every thread that has ended returned NULL.
abbrev pub AllNull : List Worker → Type 0
AllNull ws = AllWorkers (λ w. result_at w.place ≡ 0) ws

total-null :
    (p : Program) (counter : ℕ) (ws : List Worker)
    → AllWorkers (WorkerOk p counter) ws
    → AllWorkers (λ w. Ended w.place) ws
    → AllNull ws
    → total credit ws ≡ p.iterations * length ws
total-null p counter [] ok ended null = omega arith
total-null p counter (w ∷ ws) ok ended null = grind (
  arith,
  Ended-credit p counter w.place w.i ok.0 ended.0 null.0,
  total-null p counter ws ok.1 ended.1 null.1,
)

-- If all the threads of a run have returned NULL, the counter has the number of all their iterations.
pub counter-null :
    (p : Program) (n : ℕ) (a : System)
    → Fails p
    → Reach p n a
    → AllWorkers (λ w. Ended w.place) a.workers
    → AllNull a.workers
    → a.shared.counter ≡ u64 (p.iterations * n)
counter-null p n a f run ended null =
    c.counted
    ∙ ap u64 (total-null p a.shared.counter a.workers c.each ended null)
    ∙ ap (λ m. u64 (p.iterations * m)) c.complete
  where
    c : Consistent p n a
    c = Reach-Consistent p n a f run
