-- ===== src/Targets/Scripts/Holding.antt =====
-- targets/hold_time/hold_time.c and targets/held_at_exit/held_at_exit.c: a thread that holds a mutex for
-- long, and one that returns with it.
use runtime_monitor.Base.{
  ℕ, zero, suc, ◌≡◌, refl, Bool, true, false, not, ◌&&◌, ◌||◌, none, List, [], ◌∷◌, ◌++◌,
}
use runtime_monitor.Event.{code, thread_start, thread_exit, lock_request, lock_acquired, unlocked}
use runtime_monitor.Text.{bytes, decimal}
use runtime_monitor.Targets.Scripts.{
  Who, main, first, Script, returns, prints, calls, lock, unlock, sleep, create, join, set_up,
  Process, Mutex, start, run, stuck, step, or_fail, has_ended, emitted, stream_of, stream_is,
  is_owner, mutex_at,
}
use runtime_monitor.Targets.Scripts.Explore.{check, at_every_end}

abbrev pub lock_refused : ℕ → Script
lock_refused rc =
    prints (bytes "[FAIL] pthread_mutex_lock returned " ++ decimal rc ++ bytes "\n") (returns 0)

-- The thread of hold_time.c sleeps for 200 milliseconds.
abbrev pub holds_long : ℕ → Script
holds_long zero = prints (bytes "[WORKER] Holding mutex for approximately 200 ms\n") (
    calls (sleep 200000000)
      λ rc. prints (bytes "[WORKER] Unlocking mutex\n") (calls (unlock 0) λ rc. returns 0))
holds_long (suc rc) = lock_refused (suc rc)

abbrev pub hold_time_worker : Script
hold_time_worker = prints (bytes "[WORKER] Locking mutex\n") (calls (lock 0) holds_long)

abbrev pub hold_time_main : Script
hold_time_main =
    prints (bytes "=== Hold-time violation target ===\n")
      (calls (create first) (or_fail (calls (join first) λ rc. calls set_up λ rc. returns 0)))

-- The thread of held_at_exit.c returns.
abbrev pub holds_on : ℕ → Script
holds_on zero =
    prints (bytes "[WORKER] Mutex acquired\n")
      (prints (bytes "[WORKER] Exiting without unlocking\n") (returns 0))
holds_on (suc rc) = lock_refused (suc rc)

abbrev pub held_at_exit_worker : Script
held_at_exit_worker = prints (bytes "[WORKER] Locking mutex\n") (calls (lock 0) holds_on)

abbrev pub held_at_exit_main : Script
held_at_exit_main = prints (bytes "=== Lock-held-at-thread-exit target ===\n") (
    calls (create first) (
      or_fail (calls (join first) λ rc. prints (bytes "[TARGET] Worker has exited\n") (returns 0))))

abbrev pub one_mutex : List Mutex
one_mutex = record { errorcheck = false; owner = none } ∷ []

abbrev pub hold_time : Process
hold_time = start hold_time_main hold_time_worker (returns 0) one_mutex []

abbrev pub held_at_exit : Process
held_at_exit = start held_at_exit_main held_at_exit_worker (returns 0) one_mutex []

-- Both threads have returned, and the mutex is free again.
abbrev pub released : Process → Bool
released p =
    (has_ended 0 (p.threads main) && has_ended 0 (p.threads first))
    && (stream_is (stream_of first p.trace) (
          emitted first thread_exit 0 0
          ∷ emitted first unlocked 0 0
          ∷ emitted first lock_acquired 0 0
          ∷ emitted first lock_request 0 0
          ∷ emitted first thread_start 0 0
          ∷ [])
        && not (is_owner first (mutex_at p 0).owner))

-- Both threads have returned, and the mutex has the ended thread as its owner.
abbrev pub kept : Process → Bool
kept p =
    (has_ended 0 (p.threads main) && has_ended 0 (p.threads first))
    && (stream_is (stream_of first p.trace) (
          emitted first thread_exit 0 0
          ∷ emitted first lock_acquired 0 0
          ∷ emitted first lock_request 0 0
          ∷ emitted first thread_start 0 0
          ∷ [])
        && is_owner first (mutex_at p 0).owner)

hold_time_explored : check (λ p. not (stuck p) || released p) 10 hold_time ≡ true
unfolding check step code
hold_time_explored = refl

held_at_exit_explored : check (λ p. not (stuck p) || kept p) 10 held_at_exit ≡ true
unfolding check step code
held_at_exit_explored = refl

hold_time_releases :
    (schedule : List Who)
    → stuck (run schedule hold_time) ≡ true
    → released (run schedule hold_time) ≡ true
hold_time_releases schedule e = at_every_end released 10 hold_time schedule hold_time_explored e

held_at_exit_keeps :
    (schedule : List Who)
    → stuck (run schedule held_at_exit) ≡ true
    → kept (run schedule held_at_exit) ≡ true
held_at_exit_keeps schedule e = at_every_end kept 10 held_at_exit schedule held_at_exit_explored e
