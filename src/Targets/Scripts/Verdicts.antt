-- ===== src/Targets/Scripts/Verdicts.antt =====
-- targets/self_deadlock, targets/non_owner_unlock and targets/held_at_exit under the monitor: what the
-- verifier makes of their events.
use runtime_monitor.Base.{ℕ, ◌≡◌, refl, Bool, true, false, not, ◌&&◌, ◌||◌, ◌==◌, List, [], ◌∷◌}
use runtime_monitor.Event.{Event, code, decode}
use runtime_monitor.Verifier.State.{
  Report, self_deadlock_candidate, non_owner_unlock, lock_held_at_thread_exit,
}
use runtime_monitor.Verifier.Slots.{scan}
use runtime_monitor.Verifier.Lookup.{find_thread, find_mutex}
use runtime_monitor.Verifier.Reports.{
  report_self_deadlock_candidate, report_non_owner_unlock, report_lock_held_at_thread_exit,
}
use runtime_monitor.Verifier.Held.{
  held_from, find_held_mutex, add_held_mutex, release_held_mutex, check_hold_time,
}
use runtime_monitor.Verifier.Waiting.{set_thread_waiting, stop_waiting, clear_thread_waiting}
use runtime_monitor.Verifier.Gap.{observe_thread_sequence, observe_at}
use runtime_monitor.Verifier.Handlers.{
  handle_thread_start, handle_thread_exit, exit_at, check_self_deadlock, handle_lock_request,
  new_owner, acquired_at, handle_lock_acquired, handle_lock_failed, handle_unlocked,
  handle_unlock_failed,
}
use runtime_monitor.Verifier.Process.{init, dispatch, process_event}
use runtime_monitor.Targets.Scripts.{Who, first, second, Process, stuck, run, step, eperm}
use runtime_monitor.Targets.Scripts.Explore.{check, at_every_end}
use runtime_monitor.Targets.Scripts.Monitored.{
  Merge, process_all, every_merge, every_merge_sound, events_of,
}
use runtime_monitor.Targets.Scripts.SelfDeadlock as SelfDeadlock
use runtime_monitor.Targets.Scripts.NonOwner as NonOwner
use runtime_monitor.Targets.Scripts.Holding as Holding

-- The programs with one violation each.
pub data Target : Type 0 where
  self_deadlock : Target
  non_owner_unlock_target : Target
  held_at_exit : Target

abbrev pub program_of : Target → Process
program_of self_deadlock = SelfDeadlock.program
program_of non_owner_unlock_target = NonOwner.program
program_of held_at_exit = Holding.held_at_exit

-- The report that each of them is there for, on the thread and the mutex to blame.
abbrev pub is_expected : Target → Report → Bool
is_expected self_deadlock (self_deadlock_candidate seq thread mutex) = thread == 2 && mutex == 100
is_expected non_owner_unlock_target (non_owner_unlock seq thread mutex result) =
    thread == 3 && (mutex == 100 && result == eperm)
is_expected held_at_exit (lock_held_at_thread_exit seq thread n held) = thread == 2 && n == 1
is_expected _ _ = false

abbrev pub only : (Report → Bool) → List Report → Bool
only wanted (r ∷ []) = wanted r
only wanted _ = false

abbrev pub no_delay : ℕ → ℕ
no_delay n = 0

abbrev pub reported : Target → ℕ → Process → Bool
reported t threshold p =
    every_merge (λ v. only (is_expected t) v.output) (events_of no_delay p first)
      (events_of no_delay p second) (init threshold)

explored : (t : Target) → check (λ p. not (stuck p) || reported t 1000 p) 40 (program_of t) ≡ true
unfolding check step code init process_event dispatch decode observe_thread_sequence observe_at
    find_thread find_mutex scan held_from find_held_mutex add_held_mutex release_held_mutex
    check_hold_time set_thread_waiting stop_waiting clear_thread_waiting handle_thread_start
    handle_thread_exit exit_at check_self_deadlock handle_lock_request new_owner acquired_at
    handle_lock_acquired handle_lock_failed handle_unlocked handle_unlock_failed
    report_self_deadlock_candidate report_non_owner_unlock report_lock_held_at_thread_exit
explored self_deadlock = refl
explored non_owner_unlock_target = refl
explored held_at_exit = refl

-- In every schedule of self_deadlock.c, non_owner_unlock.c and held_at_exit.c, once no thread can move:
-- whatever the order in which the consumer hands over the events of the two threads, the verifier has
-- written exactly one report, and it is the one that the program is there for, on the thread that did
-- it. The threads have the numbers 2 and 3, the first mutex the address 100, the clock stands still,
-- the threshold is 1000 and no event was dropped.
pub violation_reported :
    (t : Target) (schedule : List Who) (es : List Event)
    → stuck (run schedule (program_of t)) ≡ true
    → Merge
        (events_of no_delay (run schedule (program_of t)) first)
        (events_of no_delay (run schedule (program_of t)) second)
        es
    → only (is_expected t) (process_all (init 1000) es).output ≡ true
violation_reported t schedule es end merge =
    every_merge_sound (λ v. only (is_expected t) v.output) _ _ es (init 1000)
      (at_every_end (reported t 1000) 40 (program_of t) schedule (explored t) end) merge
