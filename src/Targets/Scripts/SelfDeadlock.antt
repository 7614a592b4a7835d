-- ===== src/Targets/Scripts/SelfDeadlock.antt =====
-- targets/self_deadlock/self_deadlock.c: a thread that locks an error-checking mutex twice.
use runtime_monitor.Base.{
  ℕ, zero, suc, ◌≡◌, refl, Bool, true, not, ◌&&◌, ◌||◌, ◌==◌, if◌then◌else◌, none, List, [], ◌∷◌,
  ◌++◌,
}
use runtime_monitor.Event.{
  code, thread_start, thread_exit, lock_request, lock_acquired, lock_failed, unlocked,
}
use runtime_monitor.Text.{bytes, decimal}
use runtime_monitor.Targets.Scripts.{
  Who, main, first, Script, returns, prints, calls, lock, unlock, create, join, set_up, Process,
  start, run, stuck, printed, edeadlk, step, or_fail, has_ended, emitted, stream_of, stream_is,
}
use runtime_monitor.Targets.Scripts.Explore.{check, at_every_end}

abbrev pub second_lock : ℕ → Script
second_lock second_rc =
    prints (bytes "[WORKER] Second lock returned " ++ decimal second_rc ++ bytes "\n") (
      prints
        (if second_rc == edeadlk
          then bytes "[PASS] ERRORCHECK mutex rejected self-lock with EDEADLK\n"
          else bytes "[FAIL] Expected EDEADLK=" ++ decimal edeadlk ++ bytes "\n")
        (calls (unlock 0) λ rc. returns 0))

abbrev pub first_lock : ℕ → Script
first_lock zero =
    prints (bytes "[WORKER] First lock acquired\n")
      (prints (bytes "[WORKER] Requesting same mutex again\n") (calls (lock 0) second_lock))
first_lock (suc rc) =
    prints (bytes "[FAIL] First lock returned " ++ decimal (suc rc) ++ bytes "\n") (returns 0)

abbrev pub worker : Script
worker = prints (bytes "[WORKER] First mutex lock\n") (calls (lock 0) first_lock)

-- The calls are `attr_init`, `attr_settype`, `mutex_init`, `attr_destroy`, the creation of the worker,
-- its join and `mutex_destroy`.
abbrev pub main_script : Script
main_script = prints (bytes "=== Self-deadlock candidate target ===\n") (
    calls set_up (
      or_fail (
        calls set_up (
          or_fail (
            calls set_up (
              or_fail (
                calls set_up λ rc.
                  calls (create first)
                    (or_fail (calls (join first) λ rc. calls set_up λ rc. returns 0)))))))))

abbrev pub program : Process
program = start main_script worker (returns 0) (record { errorcheck = true; owner = none } ∷ []) []

-- How it should end: both threads have returned, the second lock was refused with EDEADLK, as the
-- program prints, and the monitor was told so, before the one unlock.
abbrev pub ends_well : Process → Bool
ends_well p =
    (has_ended 0 (p.threads main) && has_ended 0 (p.threads first))
    && (printed (bytes "[PASS] ERRORCHECK mutex rejected self-lock with EDEADLK\n") p.output
        && stream_is (stream_of first p.trace) (
            emitted first thread_exit 0 0
            ∷ emitted first unlocked 0 0
            ∷ emitted first lock_failed 0 edeadlk
            ∷ emitted first lock_request 0 0
            ∷ emitted first lock_acquired 0 0
            ∷ emitted first lock_request 0 0
            ∷ emitted first thread_start 0 0
            ∷ []))

explored : check (λ p. not (stuck p) || ends_well p) 20 program ≡ true
unfolding check step code
explored = refl

-- In every schedule of self_deadlock.c, once no thread can move, both threads have returned, the
-- program has printed PASS, and the worker's events are its start, a request, an acquisition, a
-- second request, a failure with EDEADLK, an unlock and its exit.
pub self_deadlock_refused :
    (schedule : List Who)
    → stuck (run schedule program) ≡ true
    → ends_well (run schedule program) ≡ true
self_deadlock_refused schedule e = at_every_end ends_well 20 program schedule explored e
