-- ===== src/Targets/CorrectTests.antt =====
-- targets/correct/correct_mutex.c: a run in which no call fails and the workers take their turns one
-- after the other.
use runtime_monitor.Base.{
  ℕ, zero, suc, ◌+◌, ◌≤◌, ◌≡◌, ◌↔◌, refl, arith, true, List, [], ◌∷◌, ◌++◌, u64, subst,
}
use runtime_monitor.Targets.Workers.{
  Place, at_head, returned, Worker, Shared, System, Move, lock, load, store, unlock, finish,
  worker_moves, Reach, started, stepped, first_sink, first_shared,
}
use runtime_monitor.Targets.Workers.Joins.{joined, AllNull}
use runtime_monitor.Targets.Correct.{program, exit_status, correct_target_verdict}

abbrev worker : Place → ℕ → Worker
worker q i = record { place = q; i = i; local_sink = first_sink }

abbrev shared : ℕ → Shared
shared counter = record first_shared { counter = counter }

abbrev taken : ℕ → Shared
taken counter = record (shared counter) { locked = true }

abbrev beside : List Worker → List Worker → Shared → Worker → System
beside before after s w = record { shared = s; workers = before ++ w ∷ after }

module _ (before after : List Worker) where
  one_step :
      {s t : Shared} {v w : Worker}
      → Move program s v t w
      → Reach program 4 (beside before after s v)
      → Reach program 4 (beside before after t w)
  one_step {s} {t} {v} {w} m r = stepped _ _ r (worker_moves s t v w before after m)

  -- One iteration: the mutex is taken, the counter incremented and the mutex released.
  iteration :
      (counter i : ℕ)
      → suc i ≤ 250000
      → suc counter ≤ 1000000
      → Reach program 4 (beside before after (shared counter) (worker at_head i))
      → Reach program 4 (beside before after (shared (suc counter)) (worker at_head (suc i)))
  iteration counter i more few r =
      subst (λ c. Reach program 4 (beside before after (shared c) (worker at_head (suc i))))
        (omega (arith, few))
        (subst
          (λ j.
            Reach program 4 (beside before after (shared (u64 (counter + 1))) (worker at_head j)))
          (omega arith)
          (one_step (unlock (taken (u64 (counter + 1))) i first_sink) (
            one_step (store (taken counter) i first_sink counter) (
              one_step (load (taken counter) i first_sink)
                (one_step (lock (shared counter) i first_sink (omega (arith, more)) refl) r)))))

  iterations :
      (counter i : ℕ)
      → i ≤ 250000
      → counter ≤ 750000
      → Reach program 4 (beside before after (shared counter) (worker at_head 0))
      → Reach program 4 (beside before after (shared (i + counter)) (worker at_head i))
  iterations counter zero more few r =
      subst (λ c. Reach program 4 (beside before after (shared c) (worker at_head 0))) (omega arith)
        r
  iterations counter (suc i) more few r =
      subst (λ c. Reach program 4 (beside before after (shared c) (worker at_head (suc i))))
        (omega arith)
        (iteration (i + counter) i more (omega (arith, more, few))
          (iterations counter i (omega (arith, more)) few r))

  -- The whole loop of one worker.
  turn :
      (counter : ℕ)
      → counter ≤ 750000
      → Reach program 4 (beside before after (shared counter) (worker at_head 0))
      → Reach program 4
          (beside before after (shared (250000 + counter)) (worker (returned 0) 250000))
  turn counter few r =
      one_step (finish (shared (250000 + counter)) 250000 first_sink (omega arith))
        (iterations counter 250000 (omega arith) few r)

abbrev idle : Worker
idle = worker at_head 0

abbrev ended : Worker
ended = worker (returned 0) 250000

all_ended : Reach program 4 (beside (ended ∷ ended ∷ ended ∷ []) [] (shared 1000000) ended)
all_ended = turn (ended ∷ ended ∷ ended ∷ []) [] 750000 (omega arith) (
    turn (ended ∷ ended ∷ []) (idle ∷ []) 500000 (omega arith) (
      turn (ended ∷ []) (idle ∷ idle ∷ []) 250000 (omega arith)
        (turn [] (idle ∷ idle ∷ idle ∷ []) 0 (omega arith) started)))

-- one less than all the iterations
abbrev missed : ℕ
missed = 999999

correct_target_verdict_example :
    let ws = ended ∷ ended ∷ ended ∷ ended ∷ [] in
    ((exit_status 1000000 (joined ws) ≡ 0) ↔ AllNull ws)
    × ((exit_status missed (joined ws) ≡ 0) ↔ (AllNull ws × (missed ≡ 1000000)))
correct_target_verdict_example =
    correct_target_verdict (beside (ended ∷ ended ∷ ended ∷ []) [] (shared 1000000) ended) missed
      all_ended (tt, (tt, (tt, (tt, tt))))
