-- ===== src/Targets/Correct.antt =====
-- targets/correct/correct_mutex.c: four workers of the program of Targets/Workers, without a barrier
-- and without work, and the verdict of `main`.
use runtime_monitor.Base.{
  ℕ, zero, suc, ◌*◌, ◌≡◌, ◌↔◌, ◌⊎◌, inl, inr, refl, ◌∙◌, arith, true, false, Bool-cases, ==_iff,
  not, ◌==◌, if◌then◌else◌, if_false, List, [], ◌∷◌, u64,
}
use runtime_monitor.Targets.Workers.{Program, Worker, System, Reach}
use runtime_monitor.Targets.Workers.Totals.{AllWorkers}
use runtime_monitor.Targets.Workers.Places.{Ended}
use runtime_monitor.Targets.Workers.Joins.{result_at, joined, AllNull, counter-null}

abbrev pub thread_count : ℕ
thread_count = 4

abbrev pub iterations_per_thread : ℕ
iterations_per_thread = 250000

-- The workers; where a call fails they return 1. There is no barrier, so nobody but `main` counts for it.
abbrev pub program : Program
program = record {
  iterations = iterations_per_thread;
  works = false;
  work = 0;
  parties = 1;
  has_barrier = false;
  lock_code = 1;
  unlock_code = 1;
}

abbrev pub expected : ℕ
expected = u64 (thread_count * iterations_per_thread)

-- `main` after the threads are created: it joins them in order and stops at the first failure, then
-- it compares the counter.
abbrev pub exit_status : ℕ → List (ℕ × ℕ) → ℕ
exit_status counter [] = if not (counter == expected) then 1 else 0
exit_status counter ((rc, result) ∷ joins) =
    if not (rc == 0) then 1 else (if not (result == 0) then 1 else exit_status counter joins)

exit_status-AllNull :
    (counter : ℕ) (ws : List Worker)
    → counter ≡ expected
    → AllNull ws
    → exit_status counter (joined ws) ≡ 0
exit_status-AllNull counter [] e null = if_false (not (counter == expected)) _ _ (ground (arith, e))
exit_status-AllNull counter (w ∷ ws) e null =
    if_false (not (result_at w.place == 0)) _ _ (ground (arith, null.0))
    ∙ exit_status-AllNull counter ws e null.1

passed : (r k : ℕ) → if◌then◌else◌ {A = ℕ} (not (r == 0)) 1 k ≡ 0 → (r ≡ 0) × (k ≡ 0)
passed zero k h = (refl, h)
passed (suc r) k h = absurd (ground (arith, h))

AllNull-exit_status :
    (counter : ℕ) (ws : List Worker)
    → exit_status counter (joined ws) ≡ 0
    → AllNull ws × (counter ≡ expected)
AllNull-exit_status counter [] e = (tt, compared (Bool-cases (counter == expected)))
  where
    compared : ((counter == expected) ≡ true) ⊎ ((counter == expected) ≡ false) → counter ≡ expected
    compared (inl same) = (==_iff counter expected).0 same
    compared (inr other) = absurd (ground (arith, other, e))
AllNull-exit_status counter (w ∷ ws) e =
    let both : (result_at w.place ≡ 0) × (exit_status counter (joined ws) ≡ 0) =
      passed (result_at w.place) (exit_status counter (joined ws)) e in
    let rest : AllNull ws × (counter ≡ expected) = AllNull-exit_status counter ws both.1 in
    ((both.0, rest.0), rest.1)

-- For every state that the four workers can reach, once all have ended and every join succeeds: with
-- the counter of that state, `main` exits with success if and only if every worker returned NULL; and
-- with any number `seen` in place of the counter, if and only if every worker returned NULL and `seen`
-- is 1,000,000.
pub correct_target_verdict :
    (a : System) (seen : ℕ)
    → Reach program thread_count a
    → AllWorkers (λ w. Ended w.place) a.workers
    → ((exit_status a.shared.counter (joined a.workers) ≡ 0) ↔ AllNull a.workers)
      × ((exit_status seen (joined a.workers) ≡ 0) ↔ (AllNull a.workers × (seen ≡ 1000000)))
correct_target_verdict a seen run ended = (
  (
    λ e. (AllNull-exit_status a.shared.counter a.workers e).0,
    λ null. exit_status-AllNull a.shared.counter a.workers (complete null) null,
  ),
  (
    λ e. AllNull-exit_status seen a.workers e,
    λ (null, right). exit_status-AllNull seen a.workers right null,
  ),
)
  where
    complete : AllNull a.workers → a.shared.counter ≡ expected
    complete null = counter-null program thread_count a (omega arith, omega arith) run ended null
