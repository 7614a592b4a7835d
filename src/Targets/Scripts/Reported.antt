-- ===== src/Targets/Scripts/Reported.antt =====
-- targets/circular_deadlock/circular_deadlock.c under the monitor: what the verifier makes of its events.
use runtime_monitor.Base.{ℕ, ◌≡◌, refl, Bool, true, false, not, ◌&&◌, ◌||◌, ◌==◌, List, [], ◌∷◌}
use runtime_monitor.Event.{Event, code, decode}
use runtime_monitor.Text.{same}
use runtime_monitor.Verifier.State.{Verifier, Report, deadlock_cycle}
use runtime_monitor.Verifier.Slots.{scan}
use runtime_monitor.Verifier.Lookup.{find_thread, find_mutex, thread_index}
use runtime_monitor.Verifier.Reports.{report_deadlock_cycle, printed_owner}
use runtime_monitor.Verifier.Held.{held_from, find_held_mutex, add_held_mutex}
use runtime_monitor.Verifier.Waiting.{set_thread_waiting, stop_waiting, clear_thread_waiting}
use runtime_monitor.Verifier.Gap.{observe_thread_sequence, observe_at}
use runtime_monitor.Verifier.Cycle.{find_cycle_from, any_cycle_from, find_any_cycle, mask_of}
use runtime_monitor.Verifier.Handlers.{
  handle_thread_start, check_self_deadlock, handle_lock_request, new_owner, acquired_at,
  handle_lock_acquired,
}
use runtime_monitor.Verifier.Process.{init, dispatch, process_event}
use runtime_monitor.Verifier.Deadlock.{cycle_seen, check_deadlocks}
use runtime_monitor.Targets.Scripts.{Who, first, second, Process, stuck, run, step}
use runtime_monitor.Targets.Scripts.Explore.{check, at_every_end}
use runtime_monitor.Targets.Scripts.Monitored.{
  Merge, process_all, every_merge, every_merge_sound, events_of,
}
use runtime_monitor.Targets.Scripts.Circular.{program}

-- The two threads, in either order, each waiting for the mutex of the other.
abbrev pub names_circle : Report → Bool
names_circle (deadlock_cycle seq n threads mutexes owners) =
    n == 2
    && ((same threads (2 ∷ 3 ∷ []) && same mutexes (200 ∷ 100 ∷ []))
        || (same threads (3 ∷ 2 ∷ []) && same mutexes (100 ∷ 200 ∷ [])))
names_circle _ = false

-- One report, and it names the circle.
abbrev pub reports_circle : List Report → Bool
reports_circle (r ∷ []) = names_circle r
reports_circle _ = false

abbrev pub after_checks : Verifier → Bool
after_checks v = reports_circle (check_deadlocks (check_deadlocks v)).output

abbrev pub reported : (ℕ → ℕ) → ℕ → Process → Bool
reported clock threshold p =
    every_merge after_checks (events_of clock p first) (events_of clock p second) (init threshold)

explored :
    (clock : ℕ → ℕ) (threshold : ℕ)
    → check (λ p. not (stuck p) || reported clock threshold p) 20 program ≡ true
unfolding check step code init process_event dispatch decode observe_thread_sequence observe_at
    find_thread find_mutex scan thread_index held_from find_held_mutex add_held_mutex
    set_thread_waiting stop_waiting clear_thread_waiting handle_thread_start check_self_deadlock
    handle_lock_request new_owner acquired_at handle_lock_acquired check_deadlocks cycle_seen
    find_any_cycle any_cycle_from find_cycle_from mask_of report_deadlock_cycle printed_owner
explored clock threshold = refl

-- In every schedule of circular_deadlock.c, once no thread can move: whatever the order in which the
-- consumer hands over the events of the two threads, whatever the clock says and the hold-time
-- threshold is, two deadlock checks later the verifier has written exactly one report, on the cycle of
-- the two threads and the mutexes that they wait for. The threads have the numbers 2 and 3, the mutexes
-- the addresses 100 and 200, and no event was dropped.
pub circular_reported :
    (clock : ℕ → ℕ) (threshold : ℕ) (schedule : List Who) (es : List Event)
    → stuck (run schedule program) ≡ true
    → Merge
        (events_of clock (run schedule program) first)
        (events_of clock (run schedule program) second)
        es
    → reports_circle (check_deadlocks (check_deadlocks (process_all (init threshold) es))).output
      ≡ true
circular_reported clock threshold schedule es end merge =
    every_merge_sound after_checks _ _ es (init threshold)
      (at_every_end (reported clock threshold) 20 program schedule (explored clock threshold) end)
      merge
