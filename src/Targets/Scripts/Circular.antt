-- ===== src/Targets/Scripts/Circular.antt =====
-- targets/circular_deadlock/circular_deadlock.c: two threads that lock two mutexes in opposite orders.
use runtime_monitor.Base.{
  ℕ, zero, suc, ◌≡◌, refl, Bool, true, false, not, ◌&&◌, ◌||◌, ◌==◌, if◌then◌else◌, none, List, [],
  ◌∷◌, ◌++◌,
}
use runtime_monitor.Event.{code, thread_start, lock_request, lock_acquired}
use runtime_monitor.Text.{Text, bytes, decimal}
use runtime_monitor.Targets.Scripts.{
  Who, first, second, Script, returns, prints, calls, lock, unlock, wait, create, join, set_up,
  Process, Emitted, start, run, stuck, serial_thread, step, blocked_on, emitted, stream_of,
  stream_is, is_owner, mutex_at,
}
use runtime_monitor.Targets.Scripts.Explore.{check, at_every_end}

-- `wait_at_barrier`, with what its caller does on 0
abbrev pub wait_at_barrier : Script → ℕ → Script
wait_at_barrier s rc =
    if not (rc == 0) && not (rc == serial_thread)
    then prints (bytes "pthread_barrier_wait failed: " ++ decimal rc ++ bytes "\n") (returns 1)
    else s

-- A lock that must succeed.
abbrev pub or_report : Text → Script → ℕ → Script
or_report line s zero = s
or_report line s (suc rc) = prints line (returns 1)

-- Mutex A is 0 and mutex B is 1.
abbrev pub thread_one : Script
thread_one = prints (bytes "[T1] Locking mutex A\n") (
    calls (lock 0) (
      or_report (bytes "[T1] Failed to lock mutex A\n") (
        prints (bytes "[T1] Acquired mutex A\n") (
          calls (wait 0) (
            wait_at_barrier (
              prints (bytes "[T1] Requesting mutex B\n") (
                calls (lock 1) (
                  or_report (bytes "[T1] Failed to lock mutex B\n")
                    (calls (unlock 1) λ rc. calls (unlock 0) λ rc. returns 0)))))))))

abbrev pub thread_two : Script
thread_two = prints (bytes "[T2] Locking mutex B\n") (
    calls (lock 1) (
      or_report (bytes "[T2] Failed to lock mutex B\n") (
        prints (bytes "[T2] Acquired mutex B\n") (
          calls (wait 0) (
            wait_at_barrier (
              prints (bytes "[T2] Requesting mutex A\n") (
                calls (lock 0) (
                  or_report (bytes "[T2] Failed to lock mutex A\n")
                    (calls (unlock 0) λ rc. calls (unlock 1) λ rc. returns 0)))))))))

abbrev pub failed : Text → ℕ → Script
failed name rc = prints (name ++ bytes " failed: " ++ decimal rc ++ bytes "\n") (returns 1)

-- A setup call that must succeed, or it is named.
abbrev pub or_name : Text → Script → ℕ → Script
or_name name s zero = s
or_name name s (suc rc) = failed name (suc rc)

abbrev pub main_script : Script
main_script = calls set_up λ rc. prints (bytes "=== Circular deadlock target ===\n") (
    calls set_up (
      or_name (bytes "pthread_barrier_init") (
        calls (create first) (
          or_name (bytes "pthread_create(T1)") (
            calls (create second) (
              or_name (bytes "pthread_create(T2)") (
                calls (join first)
                  λ rc. calls (join second) λ rc. calls set_up λ rc. returns 0)))))))

abbrev pub program : Process
program =
    start main_script thread_one thread_two
      (record { errorcheck = false; owner = none }
        ∷ record { errorcheck = false; owner = none }
        ∷ [])
      (record { parties = 2; arrived = 0 } ∷ [])

-- The events of the two threads, the latest first.
abbrev pub events_one : List Emitted
events_one =
    emitted first lock_request 1 0
    ∷ emitted first lock_acquired 0 0
    ∷ emitted first lock_request 0 0
    ∷ emitted first thread_start 0 0
    ∷ []

abbrev pub events_two : List Emitted
events_two =
    emitted second lock_request 0 0
    ∷ emitted second lock_acquired 1 0
    ∷ emitted second lock_request 1 0
    ∷ emitted second thread_start 0 0
    ∷ []

-- Each thread holds the mutex that the other one waits for.
abbrev pub deadlocked : Process → Bool
deadlocked p =
    (blocked_on 1 (p.threads first) && is_owner first (mutex_at p 0).owner)
    && ((blocked_on 0 (p.threads second) && is_owner second (mutex_at p 1).owner)
        && (stream_is (stream_of first p.trace) events_one
            && stream_is (stream_of second p.trace) events_two))

explored : check (λ p. not (stuck p) || deadlocked p) 20 program ≡ true
unfolding check step code
explored = refl

-- In every schedule of circular_deadlock.c, once no thread can move, the first thread holds mutex A and
-- is blocked on mutex B, the second holds B and is blocked on A, and each has had four events
-- emitted: its start, a request and an acquisition of its own mutex and a request of the other's.
pub circular_deadlocks :
    (schedule : List Who)
    → stuck (run schedule program) ≡ true
    → deadlocked (run schedule program) ≡ true
circular_deadlocks schedule e = at_every_end deadlocked 20 program schedule explored e
