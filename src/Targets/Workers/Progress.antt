-- ===== src/Targets/Workers/Progress.antt =====
-- targets/benchmark_mutex/benchmark_mutex.c, `worker_main`: which worker can go on.
use runtime_monitor.Base.{
  ℕ, ◌+◌, ◌*◌, ◌≡◌, ◌≢◌, ◌⊎◌, inl, inr, refl, sym, ap, ◌∙◌, arith, Bool, true, false, bit, List, [],
  ◌∷◌, ◌++◌, append_assoc, subst, dec_lt, ℕ_discrete, Bool-cases,
}
use runtime_monitor.Targets.Workers.{
  Program, Place, outside, at_barrier, turned_away, at_head, holding, loaded, busy, ready, returned,
  abandoned, Worker, Shared, System, Move, arrive, pass, barrier_fails, lock, lock_fails, load,
  store, do_work, unlock, unlock_fails, finish, Step, worker_moves, main_arrives, Reach,
  first_place,
}
use runtime_monitor.Targets.Workers.Totals.{total, AllWorkers}
use runtime_monitor.Targets.Workers.Places.{Ended, inside_at, inside, absent_at, absent, Fails}
use runtime_monitor.Targets.Workers.Invariant.{Consistent, Reach-Consistent}

-- Whether the pthread call of a step, if it makes one, succeeds.
abbrev pub call_succeeds : {p : Program} {s t : Shared} {v w : Worker} → Move p s v t w → Bool
call_succeeds (barrier_fails s i sink) = false
call_succeeds (lock_fails s i sink more) = false
call_succeeds (unlock_fails s i sink) = false
call_succeeds _ = true

abbrev pub succeeds : {p : Program} {a b : System} → Step p a b → Bool
succeeds (worker_moves s t v w before after m) = call_succeeds m
succeeds (main_arrives s ws first) = true

-- A step is possible in which no call fails.
abbrev pub GoesOn : Program → System → Type 0
GoesOn p a = (b : System) × (x : Step p a b) × (succeeds x ≡ true)

-- Some step of the worker in which no call fails, from these shared variables.
abbrev Moves : Program → Shared → Worker → Type 0
Moves p s v = (t : Shared) × (w : Worker) × (m : Move p s v t w) × (call_succeeds m ≡ true)

-- A worker that has ended or that waits for another.
data Waits (p : Program) (s : Shared) : Worker → Type 0 where
  ended : (w : Worker) → Ended w.place → Waits p s w
  at_wait :
      (i sink : ℕ)
      → s.arrived ≢ p.parties
      → Waits p s (record { place = at_barrier; i = i; local_sink = sink })
  at_lock :
      (i sink : ℕ)
      → s.locked ≡ true
      → Waits p s (record { place = at_head; i = i; local_sink = sink })

Moves-or-Waits :
    (p : Program) (s : Shared) (q : Place) (i sink : ℕ)
    → Moves p s (record { place = q; i = i; local_sink = sink })
      ⊎ Waits p s (record { place = q; i = i; local_sink = sink })
Moves-or-Waits p s outside i sink = inl (_, _, arrive s i sink, refl)
Moves-or-Waits p s at_barrier i sink = elim (ℕ_discrete s.arrived p.parties) [
  | yes full ↦ inl (_, _, pass s i sink full, refl)
  | no few ↦ inr (at_wait i sink few)
]
Moves-or-Waits p s turned_away i sink = inr (ended _ tt)
Moves-or-Waits p s at_head i sink = elim (dec_lt i p.iterations) [
  | yes more ↦ elim (Bool-cases s.locked) [
    | inl taken ↦ inr (at_lock i sink taken)
    | inr free ↦ inl (_, _, lock s i sink more free, refl)
  ]
  | no last ↦ inl (_, _, finish s i sink (omega (arith, last)), refl)
]
Moves-or-Waits p s holding i sink = inl (_, _, load s i sink, refl)
Moves-or-Waits p s (loaded value) i sink = inl (_, _, store s i sink value, refl)
Moves-or-Waits p s busy i sink = inl (_, _, do_work s i sink, refl)
Moves-or-Waits p s ready i sink = inl (_, _, unlock s i sink, refl)
Moves-or-Waits p s (returned code) i sink = inr (ended _ tt)
Moves-or-Waits p s (abandoned code) i sink = inr (ended _ tt)

-- The first worker that can move, if there is one.
first_move :
    (p : Program) (s : Shared) (before ws : List Worker)
    → GoesOn p (record { shared = s; workers = before ++ ws }) ⊎ AllWorkers (Waits p s) ws
first_move p s before [] = inr tt
first_move p s before (w ∷ ws) = elim (Moves-or-Waits p s w.place w.i w.local_sink) [
  | inl (t, v, m, fine) ↦ inl (_, worker_moves s t w v before ws m, fine)
  | inr waits ↦ elim (first_move p s (before ++ w ∷ []) ws) [
    | inl found ↦ inl (
        subst (λ l. GoesOn p (record { shared = s; workers = l })) (append_assoc before (w ∷ []) ws)
          found)
    | inr rest ↦ inr (waits, rest)
  ]
]

-- No wait at the barrier and no unlock of the worker has failed.
abbrev pub InOrder : Place → Type 0
InOrder turned_away = ⊥
InOrder (abandoned code) = ⊥
InOrder _ = Unit

Ended-absent : (q : Place) → Ended q → InOrder q → absent_at q ≡ 0
Ended-absent outside e fine = absurd e
Ended-absent at_barrier e fine = refl
Ended-absent turned_away e fine = absurd fine
Ended-absent at_head e fine = refl
Ended-absent holding e fine = refl
Ended-absent (loaded value) e fine = refl
Ended-absent busy e fine = refl
Ended-absent ready e fine = refl
Ended-absent (returned code) e fine = refl
Ended-absent (abandoned code) e fine = refl

Ended-inside : (q : Place) → Ended q → InOrder q → inside_at q ≡ 0
Ended-inside outside e fine = refl
Ended-inside at_barrier e fine = refl
Ended-inside turned_away e fine = refl
Ended-inside at_head e fine = refl
Ended-inside holding e fine = absurd e
Ended-inside (loaded value) e fine = absurd e
Ended-inside busy e fine = absurd e
Ended-inside ready e fine = absurd e
Ended-inside (returned code) e fine = refl
Ended-inside (abandoned code) e fine = absurd fine

Waits-absent :
    (p : Program) (s : Shared) (w : Worker) → Waits p s w → InOrder w.place → absent w ≡ 0
Waits-absent p s _ (ended w e) fine = Ended-absent w.place e fine
Waits-absent p s _ (at_wait i sink few) fine = refl
Waits-absent p s _ (at_lock i sink taken) fine = refl

Waits-inside :
    (p : Program) (s : Shared) (w : Worker) → Waits p s w → InOrder w.place → inside w ≡ 0
Waits-inside p s _ (ended w e) fine = Ended-inside w.place e fine
Waits-inside p s _ (at_wait i sink few) fine = refl
Waits-inside p s _ (at_lock i sink taken) fine = refl

-- With the barrier complete and the mutex free nobody waits.
Waits-Ended :
    (p : Program) (s : Shared) (w : Worker)
    → s.arrived ≡ p.parties
    → s.locked ≡ false
    → Waits p s w
    → Ended w.place
Waits-Ended p s _ full free (ended w e) = e
Waits-Ended p s _ full free (at_wait i sink few) = absurd (few full)
Waits-Ended p s _ full free (at_lock i sink taken) = absurd (cc)

all-Ended :
    (p : Program) (s : Shared) (ws : List Worker)
    → s.arrived ≡ p.parties
    → s.locked ≡ false
    → AllWorkers (Waits p s) ws
    → AllWorkers (λ w. Ended w.place) ws
all-Ended p s [] full free h = tt
all-Ended p s (w ∷ ws) full free h =
    (Waits-Ended p s w full free h.0, all-Ended p s ws full free h.1)

all-absent :
    (p : Program) (s : Shared) (ws : List Worker)
    → AllWorkers (Waits p s) ws
    → AllWorkers (λ w. InOrder w.place) ws
    → total absent ws ≡ 0
all-absent p s [] h fine = omega arith
all-absent p s (w ∷ ws) h fine =
    omega (arith, Waits-absent p s w h.0 fine.0, all-absent p s ws h.1 fine.1)

all-inside :
    (p : Program) (s : Shared) (ws : List Worker)
    → AllWorkers (Waits p s) ws
    → AllWorkers (λ w. InOrder w.place) ws
    → total inside ws ≡ 0
all-inside p s [] h fine = omega arith
all-inside p s (w ∷ ws) h fine =
    omega (arith, Waits-inside p s w h.0 fine.0, all-inside p s ws h.1 fine.1)

-- The barrier is for all the workers and `main`; without it, for nobody else.
abbrev pub BarrierOk : Program → ℕ → Type 0
BarrierOk p n = p.parties ≡ n * absent_at (first_place p) + 1

-- In every state that the workers can reach in which no wait at the barrier and no unlock has failed,
-- either every worker has ended or a step is possible in which no call fails: the workers never block
-- each other for good. The failure codes must differ from NULL, and the barrier must be set up for all
-- the workers and `main`.
pub workers_progress :
    (p : Program) (n : ℕ) (a : System)
    → Fails p
    → BarrierOk p n
    → Reach p n a
    → AllWorkers (λ w. InOrder w.place) a.workers
    → AllWorkers (λ w. Ended w.place) a.workers ⊎ GoesOn p a
workers_progress p n a f balanced r fine = elim (first_move p a.shared [] a.workers) [
  | inl step ↦ inr step
  | inr waits ↦ elim (Bool-cases a.shared.main_arrived) [
    | inl came ↦ inl (
        all-Ended p a.shared a.workers
          (omega
            (arith, c.arrivals, balanced, all-absent p a.shared a.workers waits fine, ap bit came))
          (unlocked a.shared.locked (sym c.exclusive ∙ all-inside p a.shared a.workers waits fine))
          waits)
    | inr away ↦ inr (_, main_arrives a.shared a.workers away, refl)
  ]
]
  where
    c : Consistent p n a
    c = Reach-Consistent p n a f r

    unlocked : (b : Bool) → bit b ≡ 0 → b ≡ false
    unlocked true e = absurd (omega (arith, e))
    unlocked false e = refl
