-- ===== src/Verifier/Held.antt =====
-- src/monitor_verifier.c, `find_held_mutex`, `add_held_mutex` and `release_held_mutex`: the array of
-- mutexes that a thread holds, its first `held_count` entries in use.
use runtime_monitor.Base.{
  ℕ, zero, suc, ◌+◌, ◌-◌, ◌%◌, ◌^◌, Bool, true, false, not, ◌&&◌, Option, none, some, List, [], ◌∷◌,
  ◌==◌, ltb, leb, if◌then◌else◌, get_or, set, u32,
}
use runtime_monitor.Event.{Event}
use runtime_monitor.Verifier.State.{
  Verifier, ThreadState, HeldMutex, zero_held, max_held_mutexes, uint32_max, thread_at, set_thread,
  overflowed,
}
use runtime_monitor.Verifier.Reports.{report_hold_time_violation}
pub mod Search
pub mod Bounds
pub mod Entries
pub mod Effects

abbrev pub held_at : List HeldMutex → ℕ → HeldMutex
held_at hs i = get_or hs i zero_held

-- The loop with `n` rounds left, at index `i`.
unfoldable pub held_from : List HeldMutex → ℕ → ℕ → ℕ → Option ℕ
held_from hs a zero i = none
held_from hs a (suc n) i =
    let rest = held_from hs a n (i + 1) in if (held_at hs i).address == a then some i else rest

unfoldable pub find_held_mutex : ThreadState → ℕ → Option ℕ
find_held_mutex t a = held_from t.held_mutexes a t.held_count 0

-- `if (held->depth < UINT32_MAX) ++held->depth`
abbrev pub deeper : HeldMutex → HeldMutex
deeper x = record x { depth = if ltb x.depth uint32_max then x.depth + 1 else x.depth }

abbrev pub deepen : ThreadState → ℕ → ThreadState
deepen t h = record t { held_mutexes = set t.held_mutexes h (deeper (held_at t.held_mutexes h)) }

-- A new entry, at index `held_count`.
abbrev pub append_held : ThreadState → ℕ → ℕ → ThreadState
append_held t a now = record t {
  held_mutexes =
      set t.held_mutexes t.held_count
        (record { address = a; first_acquired_timestamp_ns = now; depth = 1 });
  held_count = u32 (t.held_count + 1);
}

unfoldable pub add_held_mutex : Verifier → ℕ → ℕ → ℕ → Verifier
add_held_mutex v i a now =
    let t = thread_at v i in
    if t.trace_tainted then v else elim (find_held_mutex t a) [
      | some h ↦ set_thread v i (deepen t h)
      | none ↦
          if leb max_held_mutexes t.held_count
          then overflowed v
          else set_thread v i (append_held t a now)
    ]

-- `--held->depth`, run only where the depth is above 1
abbrev pub less_deep : HeldMutex → HeldMutex
less_deep x = record x { depth = x.depth - 1 }

abbrev pub shallower : ThreadState → ℕ → ThreadState
shallower t h = record t {
  held_mutexes = set t.held_mutexes h (less_deep (held_at t.held_mutexes h));
}

-- The last entry moves to the place of entry `h`, and is cleared.
abbrev pub remove_held : ThreadState → ℕ → ThreadState
remove_held t h =
    let last = u32 (t.held_count + 2 ^ 32 - 1) in
    record t {
      held_mutexes = set (set t.held_mutexes h (held_at t.held_mutexes last)) last zero_held;
      held_count = u32 (t.held_count + 2 ^ 32 - 1);
    }

-- How long a mutex was held; 0 if the clock ran backwards.
abbrev pub held_for : Event → HeldMutex → ℕ
held_for e held =
    if leb held.first_acquired_timestamp_ns e.timestamp_ns
    then e.timestamp_ns - held.first_acquired_timestamp_ns
    else 0

-- The threshold 0 switches the test off.
abbrev pub exceeds : Verifier → ℕ → Bool
exceeds v held_ns = not (v.max_hold_ns == 0) && ltb v.max_hold_ns held_ns

unfoldable pub check_hold_time : Verifier → Event → HeldMutex → Verifier
check_hold_time v e held =
    let held_ns = held_for e held in
    if exceeds v held_ns then report_hold_time_violation v e held_ns else v

-- The result is true where the mutex is no longer held.
abbrev pub release_at : Verifier → ℕ → Event → ℕ → Bool × Verifier
release_at v i e h =
    let t = thread_at v i in
    let held = held_at t.held_mutexes h in
    if ltb 1 held.depth
    then (false, set_thread v i (shallower t h))
    else (true, set_thread (check_hold_time v e held) i (remove_held t h))

unfoldable pub release_held_mutex : Verifier → ℕ → Event → Bool × Verifier
release_held_mutex v i e =
    let t = thread_at v i in
    if t.trace_tainted then (true, v) else elim (find_held_mutex t e.object_address) [
      | none ↦ (true, v)
      | some h ↦ release_at v i e h
    ]
