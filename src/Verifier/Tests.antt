-- ===== src/Verifier/Tests.antt =====
-- Runs of the verifier on small event streams, and the theorems applied to them.
use runtime_monitor.Base.{
  ℕ, suc, ◌+◌, ◌-◌, ◌≤◌, ◌<◌, ◌≡◌, ◌≢◌, refl, arith, true, false, not, ◌||◌, ◌==◌, if◌then◌else◌,
  some, List, [], ◌∷◌, ◌++◌, ◌⊎◌, length, u32, u64,
}
use runtime_monitor.Event.{
  Event, EventType, zero_event, code, decode, lock_request, lock_acquired, unlocked, thread_start,
}
use runtime_monitor.Verifier.State.{
  Verifier, zero_mutex, deadlock_cycle, thread_at, max_held_mutexes,
}
use runtime_monitor.Verifier.Slots.{scan}
use runtime_monitor.Verifier.Lookup.{find_thread, find_mutex, thread_index}
use runtime_monitor.Verifier.Reports.{report_deadlock_cycle, printed_owner}
use runtime_monitor.Verifier.Held.{held_from, find_held_mutex, add_held_mutex, release_held_mutex}
use runtime_monitor.Verifier.Waiting.{set_thread_waiting, stop_waiting, clear_thread_waiting}
use runtime_monitor.Verifier.Gap.{observe_thread_sequence, observe_at}
use runtime_monitor.Verifier.Cycle.{Cycle, find_cycle_from, any_cycle_from, find_any_cycle, mask_of}
use runtime_monitor.Verifier.Handlers.{
  handle_thread_start, check_self_deadlock, handle_lock_request, new_owner, acquired_at,
  handle_lock_acquired,
}
use runtime_monitor.Verifier.Process.{init, dispatch, process_event}
use runtime_monitor.Verifier.Deadlock.{cycle_seen, check_deadlocks}
use runtime_monitor.Verifier.Held.Entries.{entry}
use runtime_monitor.Verifier.Held.Effects.{
  acquired_entry, released_entry, is_none, entry-add_held_mutex, entry-release_held_mutex,
}
use runtime_monitor.Verifier.Gap.{mark_thread_stream_tainted, expected}
use runtime_monitor.Verifier.Cycle.Spec.{IsCycle}
use runtime_monitor.Verifier.Cycle.Soundness.{find_cycle_from-IsCycle}
use runtime_monitor.Verifier.Cycle.Completeness.{
  find_cycle_from_complete, find_any_cycle-IsCycle, find_any_cycle_complete,
}
use runtime_monitor.Verifier.Deadlock.Confirm.{
  report_of, checks, counted, check_deadlocks_reports, deadlock_reported_once,
}
use runtime_monitor.Verifier.Ownership.{new_owners, newest_owner_wins}
use runtime_monitor.Verifier.Invariant.{IsValid}
use runtime_monitor.Verifier.Invariant.Run.{
  NamesMutex, start, later, event, check, init-IsValid, process_event-IsValid,
  check_deadlocks-IsValid, Reach-IsValid,
}
use runtime_monitor.Event.{unlock_request}
use runtime_monitor.Verifier.Process.{count_event}
use runtime_monitor.Verifier.Verdicts.Confirmation.{event_restarts_confirmation}
use runtime_monitor.Verifier.Verdicts.Tainted.{tainted_silent}
use runtime_monitor.Verifier.Verdicts.HoldTime.{release_output, release_held_mutex_reports}
use runtime_monitor.Verifier.Verdicts.Gaps.{
  Forgotten, mark_thread_stream_tainted-Forgotten, gap_noticed,
}
use runtime_monitor.Text.{decimal}
use runtime_monitor.Verifier.State.{default_max_hold_ns}
use runtime_monitor.Verifier.Config.{
  load_configuration, followed, threshold_round_trip, threshold_rejected,
}
use runtime_monitor.Verifier.Render.{render}
use runtime_monitor.Verifier.Render.Complete.{full_text, render_whole}
use runtime_monitor.Verifier.Invariant.Threads.{Live}
use runtime_monitor.Verifier.Invariant.Lookups.{find_thread-ThreadFound}
use runtime_monitor.Verifier.Verdicts.Streams.{observe_all, in_order, taint_exact}

-- An event with the numbers that a test needs.
abbrev pub make_event : EventType → (thread thread_seq sequence mutex : ℕ) → Event
unfolding code
make_event t thread thread_seq sequence mutex = record zero_event {
  sequence_id = sequence;
  timestamp_ns = sequence;
  thread_id = thread;
  object_address = mutex;
  event_type = code t;
  thread_sequence = thread_seq;
}

-- Two threads that lock two mutexes in opposite order.
pub circular : List Event
unfolding code
circular =
    make_event thread_start 1 0 0 0
    ∷ make_event thread_start 2 0 1 0
    ∷ make_event lock_request 1 1 2 100
    ∷ make_event lock_acquired 1 2 3 100
    ∷ make_event lock_request 2 1 4 200
    ∷ make_event lock_acquired 2 2 5 200
    ∷ make_event lock_request 1 3 6 200
    ∷ make_event lock_request 2 3 7 100
    ∷ []

pub run : Verifier → List Event → Verifier
run v [] = v
run v (e ∷ es) = run (process_event v e) es

abbrev pub fresh : Verifier
fresh = init 0

circular_reported :
    (check_deadlocks (check_deadlocks (check_deadlocks (run fresh circular)))).output
    ≡ deadlock_cycle 7 2 (1 ∷ 2 ∷ []) (200 ∷ 100 ∷ []) (2 ∷ 1 ∷ []) ∷ []
unfolding run circular code init process_event dispatch decode observe_thread_sequence observe_at
    find_thread find_mutex scan thread_index held_from find_held_mutex add_held_mutex
    set_thread_waiting stop_waiting clear_thread_waiting handle_thread_start check_self_deadlock
    handle_lock_request new_owner acquired_at handle_lock_acquired check_deadlocks cycle_seen
    find_any_cycle any_cycle_from find_cycle_from mask_of report_deadlock_cycle printed_owner
circular_reported = refl

-- The state in which the two threads wait for each other.
abbrev pub stuck : Verifier
stuck = run fresh circular

abbrev AllNameMutex : List Event → Type 0
AllNameMutex [] = Unit
AllNameMutex (e ∷ es) = NamesMutex e × AllNameMutex es

run-IsValid : (es : List Event) (v : Verifier) → AllNameMutex es → IsValid v → IsValid (run v es)
unfolding run
run-IsValid [] v a ok = ok
run-IsValid (e ∷ es) v (ne, a) ok = run-IsValid es _ a (process_event-IsValid v e ne ok)

circular-AllNameMutex : AllNameMutex circular
unfolding circular code decode
circular-AllNameMutex =
    (λ l. absurd (cc), (λ l. absurd (cc), (named, (named, (named, (named, (named, (named, tt))))))))
  where
    named : {n : ℕ} {A : Type 0} → A → suc n ≢ 0
    named l e = absurd (omega arith)

pub stuck-IsValid : IsValid stuck
stuck-IsValid = run-IsValid circular fresh circular-AllNameMutex (init-IsValid 0)

abbrev circle : Cycle
circle = record { threads = 1 ∷ 2 ∷ []; mutexes = 200 ∷ 100 ∷ []; mask = 3 }

pub stuck_values :
    (find_any_cycle stuck ≡ some circle)
    × (find_cycle_from stuck 1 ≡ some circle)
    × (stuck.deadlock.candidate_cycle_mask ≡ 0)
    × (stuck.deadlock.reported_cycle_mask ≡ 0)
    × (length stuck.threads ≡ 16)
    × ((thread_at stuck 0).trace_tainted ≡ false)
unfolding run circular code init process_event dispatch decode observe_thread_sequence observe_at
    find_thread find_mutex scan thread_index held_from find_held_mutex add_held_mutex
    set_thread_waiting stop_waiting clear_thread_waiting handle_thread_start check_self_deadlock
    handle_lock_request new_owner acquired_at handle_lock_acquired check_deadlocks cycle_seen
    find_any_cycle any_cycle_from find_cycle_from mask_of report_deadlock_cycle printed_owner
stuck_values = (refl, refl, refl, refl, refl, refl)

mask_not : {a : ℕ} → a ≡ 0 → a ≢ 3
mask_not z e = absurd (omega arith)

pub stuck-IsCycle : IsCycle stuck 1 (1 ∷ 2 ∷ []) (200 ∷ 100 ∷ [])
stuck-IsCycle = (find_cycle_from-IsCycle stuck 1 circle stuck_values.1).0

slot_0 : 0 < length stuck.threads
slot_0 = omega (arith, stuck_values.4)

find_cycle_from-IsCycle_example :
    IsCycle stuck 1 (1 ∷ 2 ∷ []) (200 ∷ 100 ∷ []) × (3 ≡ mask_of stuck 0 (1 ∷ 2 ∷ []))
find_cycle_from-IsCycle_example = find_cycle_from-IsCycle stuck 1 circle stuck_values.1

find_cycle_from_complete_example :
    find_cycle_from stuck 1
    ≡ some (record {
      threads = 1 ∷ 2 ∷ [];
      mutexes = 200 ∷ 100 ∷ [];
      mask = mask_of stuck 0 (1 ∷ 2 ∷ []);
    })
find_cycle_from_complete_example =
    find_cycle_from_complete stuck 1 (1 ∷ 2 ∷ []) (200 ∷ 100 ∷ []) stuck-IsValid stuck-IsCycle

find_any_cycle-IsCycle_example :
    (s : ℕ) × IsCycle stuck s (1 ∷ 2 ∷ []) (200 ∷ 100 ∷ []) × (3 ≡ mask_of stuck 0 (1 ∷ 2 ∷ []))
find_any_cycle-IsCycle_example = find_any_cycle-IsCycle stuck circle stuck_values.0

find_any_cycle_complete_example : (c : Cycle) × (find_any_cycle stuck ≡ some c)
find_any_cycle_complete_example =
    find_any_cycle_complete stuck 1 (1 ∷ 2 ∷ []) (200 ∷ 100 ∷ []) stuck-IsValid stuck-IsCycle

deadlock_reported_once_example :
    ((check_deadlocks stuck).output ≡ stuck.output)
    × ((checks 5 stuck).output ≡ report_of stuck circle ∷ stuck.output)
    × ((checks 5 stuck).stats ≡ counted stuck.stats)
deadlock_reported_once_example =
    deadlock_reported_once stuck circle 3 stuck-IsValid stuck_values.0 (mask_not stuck_values.2)
      (mask_not stuck_values.3)

-- The circle is a candidate, and thread 1 has one more event.
abbrev confirming : Verifier
confirming = check_deadlocks stuck

abbrev one_more : Event
one_more = make_event unlock_request 1 4 8 100

one_more-NamesMutex : NamesMutex one_more
unfolding code decode
one_more-NamesMutex l = absurd (cc)

slot_of_one : (observe_thread_sequence (count_event confirming one_more) one_more).0 ≡ some 0
unfolding run circular code init process_event dispatch decode observe_thread_sequence observe_at
    find_thread find_mutex scan thread_index held_from find_held_mutex add_held_mutex
    set_thread_waiting stop_waiting clear_thread_waiting handle_thread_start check_self_deadlock
    handle_lock_request new_owner acquired_at handle_lock_acquired check_deadlocks cycle_seen
    find_any_cycle any_cycle_from find_cycle_from mask_of report_deadlock_cycle printed_owner
slot_of_one = refl

event_restarts_confirmation_example :
    let v = process_event confirming one_more in
    (v.deadlock.candidate_cycle_mask ≡ 0)
    × (v.deadlock.candidate_cycle_confirmations ≡ 0)
    × ((check_deadlocks v).output ≡ v.output)
event_restarts_confirmation_example =
    event_restarts_confirmation confirming one_more 0 (check_deadlocks-IsValid stuck stuck-IsValid)
      one_more-NamesMutex slot_of_one

check_deadlocks_reports_example :
    let v = check_deadlocks stuck in
    ((check_deadlocks v).output ≡ v.output)
    ⊎ ((c : Cycle) × (s : ℕ) × IsCycle v s c.threads c.mutexes
        × (c.mask ≡ mask_of v 0 c.threads)
        × (v.deadlock.candidate_cycle_mask ≡ c.mask)
        × (v.deadlock.reported_cycle_mask ≢ c.mask)
        × (1 ≤ v.deadlock.candidate_cycle_confirmations)
        × ((check_deadlocks v).output ≡ report_of v c ∷ v.output))
check_deadlocks_reports_example = check_deadlocks_reports (check_deadlocks stuck)

process_event-IsValid_example : IsValid (process_event stuck (make_event unlocked 1 4 8 100))
unfolding make_event code decode
process_event-IsValid_example =
    process_event-IsValid stuck (make_event unlocked 1 4 8 100) (λ l. absurd (cc)) stuck-IsValid

Reach-IsValid_example :
    IsValid (check_deadlocks (process_event fresh (make_event thread_start 1 0 0 0)))
unfolding make_event code decode
Reach-IsValid_example =
    Reach-IsValid
      (later (later (start 0) (event (make_event thread_start 1 0 0 0) (λ l. absurd (cc)))) check)

gap_noticed_example :
    let v = observe_at stuck 0 (make_event lock_request 1 9 8 300) in
    ((thread_at v 0).next_expected_sequence ≡ u32 10)
    × ((thread_at v 0).sequence_initialized ≡ true)
    × ((thread_at v 0).trace_tainted
        ≡ ((thread_at stuck 0).trace_tainted || not (9 == expected (thread_at stuck 0))))
    × (v.stats.detected_stream_gaps ≡ (
        if 9 == expected (thread_at stuck 0)
        then stuck.stats.detected_stream_gaps
        else u64 (stuck.stats.detected_stream_gaps + 1)))
unfolding make_event code
gap_noticed_example = gap_noticed stuck 0 (make_event lock_request 1 9 8 300) slot_0

mark_thread_stream_tainted-Forgotten_example :
    Forgotten stuck (mark_thread_stream_tainted stuck 0 8) 0
mark_thread_stream_tainted-Forgotten_example =
    mark_thread_stream_tainted-Forgotten stuck 0 8 slot_0 stuck_values.5

entry-add_held_mutex_example : entry (thread_at (add_held_mutex stuck 0 100 9) 0) 100 ≡ (
    if 100 == 100
    then acquired_entry
        (max_held_mutexes - (thread_at stuck 0).held_count)
        100
        9
        (entry (thread_at stuck 0) 100)
    else entry (thread_at stuck 0) 100)
entry-add_held_mutex_example =
    entry-add_held_mutex stuck 0 slot_0 (stuck-IsValid.each 0).held 100 9 100 stuck_values.5

entry-release_held_mutex_example :
    let r = release_held_mutex stuck 0 (make_event unlocked 1 4 8 100) in
    (entry (thread_at r.1 0) 100 ≡ (
      if 100 == 100
      then released_entry (entry (thread_at stuck 0) 100)
      else entry (thread_at stuck 0) 100))
    × (r.0 ≡ is_none (released_entry (entry (thread_at stuck 0) 100)))
unfolding make_event code
entry-release_held_mutex_example =
    entry-release_held_mutex stuck 0 slot_0 (stuck-IsValid.each 0).held
      (make_event unlocked 1 4 8 100) 100 stuck_values.5

newest_owner_wins_example :
    new_owners ((3, 1) ∷ [] ++ (5, 2) ∷ (4, 0) ∷ []) zero_mutex
    ≡ record zero_mutex { owner_known = true; owner_thread_id = 2; last_state_sequence = 5 }
newest_owner_wins_example =
    newest_owner_wins 5 2 ((3, 1) ∷ []) ((4, 0) ∷ []) zero_mutex (omega arith, tt) (omega arith, tt)
      (omega arith)

stuck_thread :
    ((thread_at stuck 0).used ≡ true)
    × ((thread_at stuck 0).thread_id ≡ 1)
    × (((thread_at stuck 0).trace_tainted || not (9 == expected (thread_at stuck 0))) ≡ true)
unfolding run circular code init process_event dispatch decode observe_thread_sequence observe_at
    find_thread find_mutex scan thread_index held_from find_held_mutex add_held_mutex
    set_thread_waiting stop_waiting clear_thread_waiting handle_thread_start check_self_deadlock
    handle_lock_request new_owner acquired_at handle_lock_acquired check_deadlocks cycle_seen
    find_any_cycle any_cycle_from find_cycle_from mask_of report_deadlock_cycle printed_owner
stuck_thread = (refl, refl, refl)

-- It asks for a mutex that it holds, after a gap.
tainted_silent_example :
    (process_event stuck (make_event lock_request 1 9 8 100)).output ≡ stuck.output
unfolding make_event code decode
tainted_silent_example =
    tainted_silent stuck 0 (make_event lock_request 1 9 8 100) stuck-IsValid stuck_thread.0
      stuck_thread.1 stuck_thread.2 (λ d. absurd (cc))

release_held_mutex_reports_example :
    (release_held_mutex stuck 0 (make_event unlocked 1 4 9 100)).1.output
    ≡ release_output stuck
        (make_event unlocked 1 4 9 100)
        (entry (thread_at stuck 0) (make_event unlocked 1 4 9 100).object_address)
release_held_mutex_reports_example =
    release_held_mutex_reports stuck 0 (make_event unlocked 1 4 9 100) (stuck-IsValid.each 0).held
      stuck_values.5

-- The verifier that has just met thread 7.
abbrev pub met : Verifier
met = (find_thread fresh 7 true).1

pub met-Live : Live met 0
unfolding find_thread scan init
met-Live = (find_thread-ThreadFound fresh 7 true (init-IsValid 0)).0

pub met_values :
    ((thread_at met 0).trace_tainted ≡ false) × ((thread_at met 0).sequence_initialized ≡ false)
unfolding find_thread scan init
met_values = (refl, refl)

taint_exact_example :
    let es = make_event lock_request 7 0 8 100 ∷ make_event lock_request 7 2 9 100 ∷ [] in
    (thread_at (observe_all met 0 es) 0).trace_tainted
    ≡ ((thread_at met 0).trace_tainted || not (in_order (expected (thread_at met 0)) es))
taint_exact_example =
    taint_exact met 0 (make_event lock_request 7 0 8 100 ∷ make_event lock_request 7 2 9 100 ∷ [])
      met-Live

threshold_round_trip_example : load_configuration (some (decimal 250)) ≡ 250
threshold_round_trip_example = threshold_round_trip 250 (omega arith)

-- 12m
threshold_rejected_example :
    load_configuration (some (decimal 12 ++ 109 ∷ [])) ≡ default_max_hold_ns
threshold_rejected_example =
    threshold_rejected (decimal 12 ++ 109 ∷ []) (followed 12 109 [] (omega arith) refl)

render_whole_example :
    let r = deadlock_cycle 7 2 (1 ∷ 2 ∷ []) (200 ∷ 100 ∷ []) (2 ∷ 1 ∷ []) in render r ≡ full_text r
render_whole_example =
    render_whole (deadlock_cycle 7 2 (1 ∷ 2 ∷ []) (200 ∷ 100 ∷ []) (2 ∷ 1 ∷ [])) (omega arith)
