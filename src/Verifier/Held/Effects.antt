-- ===== src/Verifier/Held/Effects.antt =====
-- What `add_held_mutex` and `release_held_mutex` do to a thread with a complete stream, as
-- operations of the map from addresses to entries.
use runtime_monitor.Base.{
  ℕ, suc, ◌+◌, ◌-◌, ◌^◌, ◌≤◌, ◌<◌, ◌≡◌, ◌≢◌, inl, inr, arith, Bool, true, false, Option, none, some,
  ◌==◌, if◌then◌else◌, u32, ltb, length, set, get_or-set, get_or-set_self, Option-cases,
}
use runtime_monitor.Event.{Event}
use runtime_monitor.Verifier.State.{
  Verifier, ThreadState, HeldMutex, zero_thread, max_held_mutexes, uint32_max, thread_at,
  set_thread,
}
use runtime_monitor.Verifier.Reports.{report_hold_time_violation}
use runtime_monitor.Verifier.Held.{
  held_at, deeper, less_deep, find_held_mutex, deepen, append_held, shallower, remove_held,
  add_held_mutex, release_held_mutex, check_hold_time,
}
use runtime_monitor.Verifier.Held.Search.{address_at, Found, held_from-Found}
use runtime_monitor.Verifier.Held.Bounds.{ThreadHeldOk}
use runtime_monitor.Verifier.Held.Entries.{
  entry, entry_in, entry_in-set, entry_in-append, entry_in-remove,
}

-- The specification of one address: a second acquisition deepens it, up to `UINT32_MAX`; a first one
-- adds it, unless the table is full.
abbrev pub acquired_entry : ℕ → ℕ → ℕ → Option HeldMutex → Option HeldMutex
acquired_entry room a now none =
    if ltb 0 room
    then some (record { address = a; first_acquired_timestamp_ns = now; depth = 1 })
    else none
acquired_entry room a now (some x) =
    some (record x { depth = if ltb x.depth uint32_max then x.depth + 1 else uint32_max })

-- A release takes one level off, and the entry with its last level.
abbrev pub released_entry : Option HeldMutex → Option HeldMutex
released_entry none = none
released_entry (some x) = if ltb 1 x.depth then some (record x { depth = x.depth - 1 }) else none

abbrev pub is_none {ℓ} : {A : Type ℓ} → Option A → Bool
is_none none = true
is_none (some a) = false

-- A search that found entry `h`, and one that found none.
pub find_some :
    (t : ThreadState) (a h : ℕ)
    → ThreadHeldOk t
    → find_held_mutex t a ≡ some h
    → (h < t.held_count)
      × (address_at t.held_mutexes h ≡ a)
      × (entry t a ≡ some (held_at t.held_mutexes h))
unfolding find_held_mutex entry entry_in
find_some t a h v e = (here.0, here.1, rw e)
  where
    pick :
        (o : Option ℕ)
        → o ≡ some h
        → Found t.held_mutexes a t.held_count o
        → (h < t.held_count) × (address_at t.held_mutexes h ≡ a)
    pick (some i) q f = ground arith
    pick none q f = absurd (cc)

    here : (h < t.held_count) × (address_at t.held_mutexes h ≡ a)
    here = pick _ e (held_from-Found t.held_mutexes a t.held_count)

pub find_none :
    (t : ThreadState) (a : ℕ)
    → find_held_mutex t a ≡ none
    → ((d : ℕ) → d < t.held_count → address_at t.held_mutexes d ≢ a) × (entry t a ≡ none)
unfolding find_held_mutex entry entry_in
find_none t a e = (pick _ e (held_from-Found t.held_mutexes a t.held_count), rw e)
  where
    pick :
        (o : Option ℕ)
        → o ≡ none
        → Found t.held_mutexes a t.held_count o
        → (d : ℕ) → d < t.held_count
        → address_at t.held_mutexes d ≢ a
    pick none q f = f
    pick (some i) q f = absurd (cc)

-- The entry that `deepen` and `shallower` write.
set-entry :
    (t : ThreadState) (a h b : ℕ) (x : HeldMutex)
    → ThreadHeldOk t
    → find_held_mutex t a ≡ some h
    → x.address ≡ address_at t.held_mutexes h
    → (1 ≤ x.depth) × (x.depth ≤ uint32_max)
    → entry (record t { held_mutexes = set t.held_mutexes h x }) b
      ≡ (if a == b then some x else entry t b)
unfolding entry
set-entry t a h b x v e same range =
    let (p, q, r) = find_some t a h v e in ground (arith, entry_in-set v h x b p same range)

append-entry :
    (t : ThreadState) (a now b : ℕ)
    → ThreadHeldOk t
    → t.held_count < max_held_mutexes
    → find_held_mutex t a ≡ none
    → entry (append_held t a now) b ≡ (
        if a == b
        then some (record { address = a; first_acquired_timestamp_ns = now; depth = 1 })
        else entry t b)
unfolding entry
append-entry t a now b v p e =
    let next : u32 (t.held_count + 1) ≡ suc t.held_count = omega arith in
    rw next (entry_in-append v _ b p (find_none t a e).0 (omega arith))

remove-entry :
    (t : ThreadState) (a h b : ℕ)
    → ThreadHeldOk t
    → find_held_mutex t a ≡ some h
    → entry (remove_held t h) b ≡ (if a == b then none else entry t b)
unfolding entry
remove-entry t a h b v e =
    let (p, q, r) = find_some t a h v e in
    let last : u32 (t.held_count + 2 ^ 32 - 1) ≡ t.held_count - 1 = omega (arith, v.bound) in
    rw (last, ← q) (entry_in-remove v h b p)

-- The test of the hold time changes its counter and the output alone.
pub check_hold_time_frame :
    (v : Verifier) (e : Event) (x : HeldMutex)
    → let v' = check_hold_time v e x in
      (v'.threads ≡ v.threads)
      × (v'.mutexes ≡ v.mutexes)
      × (v'.waiting_thread_count ≡ v.waiting_thread_count)
      × (v'.stats.tainted_thread_streams ≡ v.stats.tainted_thread_streams)
unfolding check_hold_time report_hold_time_violation
check_hold_time_frame v e x = ground arith

module _ (v : Verifier) (i : ℕ) (p : i < length v.threads) (ok : ThreadHeldOk (thread_at v i)) where
  abbrev this : ThreadState
  this = thread_at v i

  -- On a thread with a complete stream and well-formed held mutexes, seen as a map from addresses to
  -- entries: `add_held_mutex` deepens the entry of its address, up to `UINT32_MAX`, or adds one of
  -- depth 1 unless the table is full, and changes no other entry.
  pub entry-add_held_mutex :
      (a now b : ℕ)
      → (thread_at v i).trace_tainted ≡ false
      → entry (thread_at (add_held_mutex v i a now) i) b ≡ (
          if a == b
          then acquired_entry
              (max_held_mutexes - (thread_at v i).held_count)
              a
              now
              (entry (thread_at v i) a)
          else entry (thread_at v i) b)
  unfolding add_held_mutex
  entry-add_held_mutex a now b whole = elim (Option-cases (find_held_mutex this a)) [
    | inl e ↦ ground (
      arith,
      find_none this a e,
      get_or-set v.threads i i (append_held this a now) zero_thread p,
      append-entry this a now b ok,
    )
    | inr (h, e) ↦ ground (
      arith,
      find_some this a h ok e,
      get_or-set v.threads i i (deepen this h) zero_thread p,
      ok.counted h,
      set-entry this a h b (deeper (held_at this.held_mutexes h)) ok e,
    )
  ]

  -- The test of the hold time leaves the table alone.
  thread-release :
      (e : Event) (x : HeldMutex) (t : ThreadState)
      → thread_at (set_thread (check_hold_time v e x) i t) i ≡ t
  thread-release e x t =
      rw ((check_hold_time_frame v e x).0) (get_or-set_self v.threads i t zero_thread p)

  -- On a thread with a complete stream and well-formed held mutexes, seen as a map from addresses to
  -- entries: `release_held_mutex` takes one level off the entry of its address, or removes it with its
  -- last level, and changes no other entry; it returns whether the mutex is no longer held.
  pub entry-release_held_mutex :
      (e : Event) (b : ℕ)
      → (thread_at v i).trace_tainted ≡ false
      → let a = e.object_address in
        (entry (thread_at (release_held_mutex v i e).1 i) b
          ≡ (if a == b then released_entry (entry (thread_at v i) a) else entry (thread_at v i) b))
        × ((release_held_mutex v i e).0 ≡ is_none (released_entry (entry (thread_at v i) a)))
  unfolding release_held_mutex
  entry-release_held_mutex e b whole = elim (Option-cases (find_held_mutex this e.object_address)) [
    | inl f ↦ (
      ground (arith, find_none this e.object_address f),
      ground (arith, find_none this e.object_address f),
    )
    | inr (h, f) ↦ (
      ground (
        arith,
        find_some this e.object_address h ok f,
        get_or-set v.threads i i (shallower this h) zero_thread p,
        thread-release e (held_at this.held_mutexes h) (remove_held this h),
        ok.counted h,
        set-entry this e.object_address h b (less_deep (held_at this.held_mutexes h)) ok f,
        remove-entry this e.object_address h b ok f,
      ),
      ground (arith, find_some this e.object_address h ok f),
    )
  ]
