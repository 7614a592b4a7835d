-- ===== src/Targets/Workers/Moves.antt =====
-- targets/benchmark_mutex/benchmark_mutex.c, `worker_main`: one step of one worker.
use runtime_monitor.Base.{
  ℕ, zero, suc, ◌+◌, ◌<◌, ◌≤◌, ◌≡◌, ◌⊎◌, inl, inr, refl, ap, arith, Bool, true, false, bit, if_all,
  u64,
}
use runtime_monitor.Targets.Workers.{
  Program, Place, outside, at_head, busy, ready, returned, abandoned, Worker, Shared, Move, arrive,
  pass, barrier_fails, lock, lock_fails, load, store, do_work, unlock, unlock_fails, finish,
  after_store, first_place,
}
use runtime_monitor.Targets.Workers.Places.{
  credit_at, credit, inside_at, inside, absent_at, absent, PlaceOk, WorkerOk, Fails,
}

pub first_place-all : (P : Place → Type 0) (p : Program) → P outside → P at_head → P (first_place p)
first_place-all P p h k = if_all P p.has_barrier _ _ h k

pub after_store-all : (P : Place → Type 0) (p : Program) → P busy → P ready → P (after_store p)
after_store-all P p h k = if_all P p.works _ _ h k

-- What a step of one worker does to the sums.
pub Move-credit :
    (p : Program) (s t : Shared) (v w : Worker) (others : ℕ)
    → Move p s v t w
    → WorkerOk p s.counter v
    → s.counter ≡ u64 (others + credit v)
    → t.counter ≡ u64 (others + credit w)
Move-credit p _ _ _ _ others (arrive s i sink) ok e = e
Move-credit p _ _ _ _ others (pass s i sink full) ok e = e
Move-credit p _ _ _ _ others (barrier_fails s i sink) ok e = e
Move-credit p _ _ _ _ others (lock s i sink more free) ok e = e
Move-credit p _ _ _ _ others (lock_fails s i sink more) ok e = e
Move-credit p _ _ _ _ others (load s i sink) ok e = e
Move-credit p _ _ _ _ others (store s i sink value) ok e =
    after_store-all (λ q. u64 (value + 1) ≡ u64 (others + credit_at q i)) p (omega (arith, e, ok.1))
      (omega (arith, e, ok.1))
Move-credit p _ _ _ _ others (do_work s i sink) ok e = e
Move-credit p _ _ _ _ others (unlock s i sink) ok e = e
Move-credit p _ _ _ _ others (unlock_fails s i sink) ok e = e
Move-credit p _ _ _ _ others (finish s i sink last) ok e = e

pub bit_le : (b : Bool) → bit b ≤ 1
bit_le true = omega arith
bit_le false = omega arith

pub Move-inside :
    (p : Program) (s t : Shared) (v w : Worker) (others : ℕ)
    → Move p s v t w
    → others + inside v ≡ bit s.locked
    → others + inside w ≡ bit t.locked
Move-inside p _ _ _ _ others (arrive s i sink) e = e
Move-inside p _ _ _ _ others (pass s i sink full) e = e
Move-inside p _ _ _ _ others (barrier_fails s i sink) e = e
Move-inside p _ _ _ _ others (lock s i sink more free) e = omega (arith, e, ap bit free)
Move-inside p _ _ _ _ others (lock_fails s i sink more) e = e
Move-inside p _ _ _ _ others (load s i sink) e = e
Move-inside p _ _ _ _ others (store s i sink value) e =
    after_store-all (λ q. others + inside_at q ≡ bit s.locked) p e e
Move-inside p _ _ _ _ others (do_work s i sink) e = e
Move-inside p _ _ _ _ others (unlock s i sink) e = omega (arith, e, bit_le s.locked)
Move-inside p _ _ _ _ others (unlock_fails s i sink) e = e
Move-inside p _ _ _ _ others (finish s i sink last) e = e

pub Move-absent :
    (p : Program) (s t : Shared) (v w : Worker)
    → Move p s v t w
    → (t.arrived + absent w ≡ s.arrived + absent v) × (t.main_arrived ≡ s.main_arrived)
Move-absent p _ _ _ _ (arrive s i sink) = (omega arith, refl)
Move-absent p _ _ _ _ (pass s i sink full) = (refl, refl)
Move-absent p _ _ _ _ (barrier_fails s i sink) = (refl, refl)
Move-absent p _ _ _ _ (lock s i sink more free) = (refl, refl)
Move-absent p _ _ _ _ (lock_fails s i sink more) = (refl, refl)
Move-absent p _ _ _ _ (load s i sink) = (refl, refl)
Move-absent p _ _ _ _ (store s i sink value) =
    (after_store-all (λ q. s.arrived + absent_at q ≡ s.arrived + 0) p refl refl, refl)
Move-absent p _ _ _ _ (do_work s i sink) = (refl, refl)
Move-absent p _ _ _ _ (unlock s i sink) = (refl, refl)
Move-absent p _ _ _ _ (unlock_fails s i sink) = (refl, refl)
Move-absent p _ _ _ _ (finish s i sink last) = (refl, refl)

-- A worker changes the counter only with the mutex.
pub Move-counter :
    (p : Program) (s t : Shared) (v w : Worker)
    → Move p s v t w
    → (inside v ≡ 1) ⊎ (s.counter ≡ t.counter)
Move-counter p _ _ _ _ (store s i sink value) = inl refl
Move-counter p _ _ _ _ (arrive s i sink) = inr refl
Move-counter p _ _ _ _ (pass s i sink full) = inr refl
Move-counter p _ _ _ _ (barrier_fails s i sink) = inr refl
Move-counter p _ _ _ _ (lock s i sink more free) = inr refl
Move-counter p _ _ _ _ (lock_fails s i sink more) = inr refl
Move-counter p _ _ _ _ (load s i sink) = inr refl
Move-counter p _ _ _ _ (do_work s i sink) = inr refl
Move-counter p _ _ _ _ (unlock s i sink) = inr refl
Move-counter p _ _ _ _ (unlock_fails s i sink) = inr refl
Move-counter p _ _ _ _ (finish s i sink last) = inr refl

returned-ok : (p : Program) (counter code i : ℕ) → 0 < code → PlaceOk p counter (returned code) i
returned-ok p counter zero i h = absurd (omega arith)
returned-ok p counter (suc code) i h = tt

abandoned-ok : (p : Program) (counter code i : ℕ) → 0 < code → PlaceOk p counter (abandoned code) i
abandoned-ok p counter zero i h = absurd (omega arith)
abandoned-ok p counter (suc code) i h = tt

pub Move-ok :
    (p : Program) (s t : Shared) (v w : Worker)
    → Fails p
    → Move p s v t w
    → WorkerOk p s.counter v
    → WorkerOk p t.counter w
Move-ok p _ _ _ _ f (arrive s i sink) ok = ok
Move-ok p _ _ _ _ f (pass s i sink full) ok = ok
Move-ok p _ _ _ _ f (barrier_fails s i sink) ok = tt
Move-ok p _ _ _ _ f (lock s i sink more free) ok = more
Move-ok p _ _ _ _ f (lock_fails s i sink more) ok = returned-ok p s.counter p.lock_code i f.0
Move-ok p _ _ _ _ f (load s i sink) ok = (ok, refl)
Move-ok p _ _ _ _ f (store s i sink value) ok =
    after_store-all (λ q. PlaceOk p (u64 (value + 1)) q i) p ok.0 ok.0
Move-ok p _ _ _ _ f (do_work s i sink) ok = ok
Move-ok p _ _ _ _ f (unlock s i sink) ok = omega (arith, ok)
Move-ok p _ _ _ _ f (unlock_fails s i sink) ok = abandoned-ok p s.counter p.unlock_code i f.1
Move-ok p _ _ _ _ f (finish s i sink last) ok = omega (arith, ok, last)
