-- ===== src/Targets/Workers/Invariant.antt =====
-- targets/benchmark_mutex/benchmark_mutex.c, `worker_main`: what every step of the workers keeps.
use runtime_monitor.Base.{
  ℕ, zero, suc, ◌+◌, ◌*◌, ◌≤◌, ◌≡◌, inl, inr, refl, sym, ap, ◌∙◌, arith, bit, List, [], ◌∷◌, ◌++◌,
  u64, length, length-append, length-replicate, subst,
}
use runtime_monitor.Targets.Workers.{
  first_sink, Program, Place, outside, at_barrier, turned_away, at_head, holding, loaded, busy,
  ready, returned, abandoned, Worker, Shared, System, Move, Step, worker_moves, main_arrives, start,
  Reach, started, stepped, first_place,
}
use runtime_monitor.Targets.Workers.Totals.{
  total, total-append, total-replicate, total-replicate_zero, AllWorkers, AllWorkers-before,
  AllWorkers-at, AllWorkers-join, AllWorkers-replicate,
}
use runtime_monitor.Targets.Workers.Places.{
  credit_at, credit, inside_at, inside, absent_at, absent, PlaceOk, WorkerOk, Fails,
}
use runtime_monitor.Targets.Workers.Moves.{
  first_place-all, Move-credit, Move-inside, Move-absent, Move-counter, Move-ok, bit_le,
}

pub record Consistent (p : Program) (n : ℕ) (a : System) : Type 0 where
  pub counted : a.shared.counter ≡ u64 (total credit a.workers)
  pub exclusive : total inside a.workers ≡ bit a.shared.locked
  pub each : AllWorkers (WorkerOk p a.shared.counter) a.workers
  pub complete : length a.workers ≡ n
  pub arrivals :
      a.shared.arrived + total absent a.workers
      ≡ n * absent_at (first_place p) + bit a.shared.main_arrived

-- A worker without the mutex does not depend on the counter.
PlaceOk-outside :
    (p : Program) (c d : ℕ) (q : Place) (i : ℕ)
    → inside_at q ≡ 0
    → PlaceOk p c q i
    → PlaceOk p d q i
PlaceOk-outside p c d outside i e ok = ok
PlaceOk-outside p c d at_barrier i e ok = ok
PlaceOk-outside p c d turned_away i e ok = ok
PlaceOk-outside p c d at_head i e ok = ok
PlaceOk-outside p c d holding i e ok = ok
PlaceOk-outside p c d (loaded value) i e ok = absurd (omega (arith, e))
PlaceOk-outside p c d busy i e ok = ok
PlaceOk-outside p c d ready i e ok = ok
PlaceOk-outside p c d (returned zero) i e ok = ok
PlaceOk-outside p c d (returned (suc code)) i e ok = ok
PlaceOk-outside p c d (abandoned zero) i e ok = ok
PlaceOk-outside p c d (abandoned (suc code)) i e ok = ok

AllWorkers-outside :
    (p : Program) (c d : ℕ) (ws : List Worker)
    → total inside ws ≡ 0
    → AllWorkers (WorkerOk p c) ws
    → AllWorkers (WorkerOk p d) ws
AllWorkers-outside p c d [] e ok = tt
AllWorkers-outside p c d (w ∷ ws) e ok = (
  PlaceOk-outside p c d w.place w.i (omega (arith, e)) ok.0,
  AllWorkers-outside p c d ws (omega (arith, e)) ok.1,
)

-- The other workers, whatever the one at work does to the counter.
others-ok :
    (p : Program) (s t : Shared) (v w : Worker) (ws : List Worker)
    → Move p s v t w
    → total inside ws + inside v ≤ 1
    → AllWorkers (WorkerOk p s.counter) ws
    → AllWorkers (WorkerOk p t.counter) ws
others-ok p s t v w ws m h ok = elim (Move-counter p s t v w m) [
  | inl holds ↦ AllWorkers-outside p s.counter t.counter ws (omega (arith, h, holds)) ok
  | inr same ↦ subst (λ c. AllWorkers (WorkerOk p c) ws) same ok
]

length-swap :
    (before : List Worker) (v w : Worker) (after : List Worker)
    → length (before ++ w ∷ after) ≡ length (before ++ v ∷ after)
length-swap before v w after =
    length-append before (w ∷ after) ∙ sym (length-append before (v ∷ after))

Step-Consistent :
    (p : Program) (n : ℕ) (a b : System)
    → Fails p
    → Step p a b
    → Consistent p n a
    → Consistent p n b
Step-Consistent p n _ _ f (worker_moves s t v w before after m) c = record {
  counted =
      Move-credit p s t v w (total credit before + total credit after) m ok
        (c.counted ∙ ap u64 (total-append credit before v after))
      ∙ ap u64 (sym (total-append credit before w after));
  exclusive =
      total-append inside before w after
      ∙ Move-inside p s t v w (total inside before + total inside after) m
          (sym (total-append inside before v after) ∙ c.exclusive);
  each =
      AllWorkers-join (WorkerOk p t.counter) before w after
        (others-ok p s t v w before m (omega (arith, few))
          (AllWorkers-before (WorkerOk p s.counter) before v after c.each))
        (Move-ok p s t v w f m ok) (others-ok p s t v w after m (omega (arith, few)) here.1);
  complete = length-swap before v w after ∙ c.complete;
  arrivals = omega (
    arith,
    c.arrivals,
    total-append absent before v after,
    total-append absent before w after,
    (Move-absent p s t v w m).0,
    ap bit (Move-absent p s t v w m).1,
  );
}
  where
    here : WorkerOk p s.counter v × AllWorkers (WorkerOk p s.counter) after
    here = AllWorkers-at (WorkerOk p s.counter) before v after c.each

    ok : WorkerOk p s.counter v
    ok = here.0

    few : total inside before + total inside after + inside v ≤ 1
    few = omega (arith, c.exclusive, bit_le s.locked, total-append inside before v after)
Step-Consistent p n _ _ f (main_arrives s ws first) c = record {
  counted = c.counted;
  exclusive = c.exclusive;
  each = c.each;
  complete = c.complete;
  arrivals = omega (arith, c.arrivals, ap bit first);
}

start-Consistent : (p : Program) (n : ℕ) → Consistent p n (start p n)
start-Consistent p n = record {
  counted = ap u64 (
      sym (
        total-replicate_zero credit n first
          (first_place-all (λ q. credit_at q 0 ≡ 0) p refl refl)));
  exclusive =
      total-replicate_zero inside n first (first_place-all (λ q. inside_at q ≡ 0) p refl refl);
  each =
      AllWorkers-replicate (WorkerOk p 0) n first
        (first_place-all (λ q. PlaceOk p 0 q 0) p (omega arith) (omega arith));
  complete = length-replicate n first;
  arrivals = omega (arith, total-replicate absent n first);
}
  where
    first : Worker
    first = record { place = first_place p; i = 0; local_sink = first_sink }

pub Reach-Consistent : (p : Program) (n : ℕ) (a : System) → Fails p → Reach p n a → Consistent p n a
Reach-Consistent p n _ f started = start-Consistent p n
Reach-Consistent p n _ f (stepped a b r m) =
    Step-Consistent p n a b f m (Reach-Consistent p n a f r)
