-- ===== src/Targets/Scripts/NonOwner.antt =====
-- targets/non_owner_unlock/non_owner_unlock.c: a thread that unlocks the error-checking mutex of another.
use runtime_monitor.Base.{
  ℕ, zero, suc, ◌≡◌, refl, Bool, true, not, ◌&&◌, ◌||◌, ◌==◌, if◌then◌else◌, none, List, [], ◌∷◌,
  ◌++◌,
}
use runtime_monitor.Event.{
  code, thread_start, thread_exit, lock_request, lock_acquired, unlocked, unlock_failed,
}
use runtime_monitor.Text.{bytes, decimal}
use runtime_monitor.Targets.Scripts.{
  Who, main, first, second, Script, returns, prints, calls, lock, unlock, wait, create, join,
  set_up, Process, start, run, stuck, printed, eperm, step, or_fail, has_ended, emitted, stream_of,
  stream_is,
}
use runtime_monitor.Targets.Scripts.Explore.{check, at_every_end}

abbrev pub owner_locked : ℕ → Script
owner_locked zero = prints (bytes "[OWNER] Mutex acquired\n") (
    calls (wait 0) λ rc.
      calls (wait 1)
        λ rc. prints (bytes "[OWNER] Releasing mutex\n") (calls (unlock 0) λ rc. returns 0))
owner_locked (suc rc) = prints (bytes "[FAIL] Owner could not lock mutex\n") (returns 0)

abbrev pub owner_thread : Script
owner_thread = prints (bytes "[OWNER] Locking mutex\n") (calls (lock 0) owner_locked)

abbrev pub non_owner_unlocked : ℕ → Script
non_owner_unlocked rc =
    prints (bytes "[NON-OWNER] pthread_mutex_unlock returned " ++ decimal rc ++ bytes "\n") (
      prints
        (if rc == eperm
          then bytes "[PASS] Non-owner unlock rejected with EPERM\n"
          else bytes "[FAIL] Expected EPERM=" ++ decimal eperm ++ bytes "\n")
        (calls (wait 1) λ rc. returns 0))

abbrev pub non_owner_thread : Script
non_owner_thread = calls (wait 0) λ rc.
    prints (bytes "[NON-OWNER] Attempting invalid unlock\n") (calls (unlock 0) non_owner_unlocked)

abbrev pub joins_all : Script
joins_all = calls (join first) λ rc.
    calls (join second) λ rc. calls set_up λ rc. calls set_up λ rc. calls set_up λ rc. returns 0

-- The setup calls are `attr_init`, `attr_settype`, `mutex_init`, `attr_destroy` and the two
-- `barrier_init`; at the end both barriers and the mutex are destroyed.
abbrev pub main_script : Script
main_script = prints (bytes "=== Non-owner unlock target ===\n") (
    calls set_up (
      or_fail (
        calls set_up (
          or_fail (
            calls set_up (
              or_fail (
                calls set_up λ rc. calls set_up (
                  or_fail (
                    calls set_up (
                      or_fail (
                        calls (create first)
                          (or_fail (calls (create second) (or_fail joins_all))))))))))))))

abbrev pub program : Process
program =
    start main_script owner_thread non_owner_thread
      (record { errorcheck = true; owner = none } ∷ [])
      (record { parties = 2; arrived = 0 } ∷ record { parties = 2; arrived = 0 } ∷ [])

-- How it should end: the threads have returned, the wrong unlock was refused with EPERM, as the program
-- prints, the owner's unlock was not, and the monitor was told both.
abbrev pub ends_well : Process → Bool
ends_well p =
    (has_ended 0 (p.threads main)
      && (has_ended 0 (p.threads first) && has_ended 0 (p.threads second)))
    && (printed (bytes "[PASS] Non-owner unlock rejected with EPERM\n") p.output
        && (stream_is (stream_of first p.trace) (
              emitted first thread_exit 0 0
              ∷ emitted first unlocked 0 0
              ∷ emitted first lock_acquired 0 0
              ∷ emitted first lock_request 0 0
              ∷ emitted first thread_start 0 0
              ∷ [])
            && stream_is (stream_of second p.trace) (
                emitted second thread_exit 0 0
                ∷ emitted second unlock_failed 0 eperm
                ∷ emitted second thread_start 0 0
                ∷ [])))

explored : check (λ p. not (stuck p) || ends_well p) 30 program ≡ true
unfolding check step code
explored = refl

-- In every schedule of non_owner_unlock.c, once no thread can move, all threads have returned, the
-- program has printed PASS, the non-owner's events are its start, a failed unlock with EPERM and its
-- exit, and the owner's are its start, a request, an acquisition, an unlock and its exit.
pub non_owner_refused :
    (schedule : List Who)
    → stuck (run schedule program) ≡ true
    → ends_well (run schedule program) ≡ true
non_owner_refused schedule e = at_every_end ends_well 30 program schedule explored e
