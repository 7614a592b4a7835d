-- ===== src/Verifier/Invariant/Gaps.antt =====
-- src/monitor_verifier.c, `observe_thread_sequence`: the invariant of the tables at a gap.
use runtime_monitor.Base.{
  ℕ, ◌+◌, ◌≡◌, inl, inr, refl, arith, Bool, true, false, ◌==◌, get_or, replicate, length-map,
  get_or-map, Bool-cases, u32,
}
use runtime_monitor.Event.{Event}
use runtime_monitor.Verifier.State.{
  Verifier, MutexState, zero_mutex, zero_held, max_held_mutexes, thread_at, set_thread,
}
use runtime_monitor.Verifier.Gap.{
  invalidate_mutex, invalidate_mutexes_owned_by_thread, forget_waiting, forget_held, taint,
  mark_thread_stream_tainted, gap_found, expect_next, observe_first, observe_later, observe_at,
}
use runtime_monitor.Verifier.Held.Bounds.{cleared-HeldOk}
use runtime_monitor.Verifier.Invariant.{ThreadOk, mutexes-Tables, tainted-le}
use runtime_monitor.Verifier.Invariant.Threads.{Live, rewrite-Live, stop_waiting-Live}

-- An invalidated mutex keeps its identity.
pub invalidate_mutex_frame :
    (id barrier : ℕ) (m : MutexState)
    → let m' = invalidate_mutex id barrier m in (m'.used ≡ m.used) × (m'.address ≡ m.address)
unfolding invalidate_mutex
invalidate_mutex_frame id barrier m = ground arith

pub invalidate-Live :
    (v : Verifier) (i id barrier : ℕ)
    → Live v i
    → Live (invalidate_mutexes_owned_by_thread v id barrier) i
unfolding invalidate_mutex
invalidate-Live v i id barrier l = record {
  valid =
      mutexes-Tables l.valid _ (length-map (invalidate_mutex id barrier) v.mutexes) λ a b ua ub e.
        ground (
          arith,
          get_or-map (invalidate_mutex id barrier) v.mutexes a zero_mutex,
          get_or-map (invalidate_mutex id barrier) v.mutexes b zero_mutex,
          invalidate_mutex_frame id barrier (get_or v.mutexes a zero_mutex),
          invalidate_mutex_frame id barrier (get_or v.mutexes b zero_mutex),
          l.valid.mutex_unique a b,
        );
  used = l.used;
}

taint-Live :
    (v : Verifier) (i : ℕ) → Live v i → (thread_at v i).trace_tainted ≡ false → Live (taint v i) i
taint-Live v i l whole =
    rewrite-Live v _ i _ l refl refl l.used refl ok refl
      (ground (arith, l.valid.tainted_counted, l.valid.threads, tainted-le l.valid))
  where
    open (l.valid.each i) use {held, free_idle}

    ok : ThreadOk (record (thread_at v i) { trace_tainted = true })
    ok = record { held = held; free_idle = free_idle; free_whole = λ e. ground (arith, l.used) }

forget_waiting-Live : (v : Verifier) (i : ℕ) → Live v i → Live (forget_waiting v i) i
forget_waiting-Live v i l = elim (Bool-cases ((thread_at v i).waiting_mutex == 0)) [
  | inl idle ↦ rw idle l
  | inr waits ↦ rw waits (stop_waiting-Live v i l (ground arith))
]

forget_held-Live : (v : Verifier) (i : ℕ) → Live v i → Live (forget_held v i) i
forget_held-Live v i l = rewrite-Live v _ i _ l refl refl l.used refl ok refl refl
  where
    open (l.valid.each i) use {free_idle, free_whole}

    ok : ThreadOk (record (thread_at v i) {
      held_mutexes = replicate max_held_mutexes zero_held;
      held_count = 0;
    })
    ok = record { held = cleared-HeldOk; free_idle = free_idle; free_whole = free_whole }

pub mark_thread_stream_tainted-Live :
    (v : Verifier) (i barrier : ℕ) → Live v i → Live (mark_thread_stream_tainted v i barrier) i
unfolding mark_thread_stream_tainted
mark_thread_stream_tainted-Live v i barrier l = elim (Bool-cases (thread_at v i).trace_tainted) [
  | inl tainted ↦ rw tainted l
  | inr whole ↦ rw whole (
      invalidate-Live _ i _ barrier
        (forget_held-Live _ i (forget_waiting-Live _ i (taint-Live v i l whole))))
]

-- A change of counters alone.
pub counters-Live :
    (v v' : Verifier) (i : ℕ)
    → v'.threads ≡ v.threads
    → v'.mutexes ≡ v.mutexes
    → v'.waiting_thread_count ≡ v.waiting_thread_count
    → v'.stats.tainted_thread_streams ≡ v.stats.tainted_thread_streams
    → Live v i
    → Live v' i
counters-Live v v' i t m w n l = record { valid = rw (t, m, w, n) l.valid; used = rw t l.used }

gap_found-Live : (v : Verifier) (i : ℕ) (e : Event) → Live v i → Live (gap_found v i e) i
unfolding gap_found
gap_found-Live v i e l =
    mark_thread_stream_tainted-Live _ i e.sequence_id (record { valid = l.valid; used = l.used })

expect_next-Live : (v : Verifier) (i : ℕ) (e : Event) → Live v i → Live (expect_next v i e) i
expect_next-Live v i e l = rewrite-Live v _ i _ l refl refl l.used refl ok refl refl
  where
    open (l.valid.each i) use {held, free_idle, free_whole}

    ok : ThreadOk (record (thread_at v i) { next_expected_sequence = u32 (e.thread_sequence + 1) })
    ok = record { held = held; free_idle = free_idle; free_whole = free_whole }

initialized-Live :
    (v : Verifier) (i : ℕ)
    → Live v i
    → Live (set_thread v i (record (thread_at v i) { sequence_initialized = true })) i
initialized-Live v i l = rewrite-Live v _ i _ l refl refl l.used refl ok refl refl
  where
    open (l.valid.each i) use {held, free_idle, free_whole}

    ok : ThreadOk (record (thread_at v i) { sequence_initialized = true })
    ok = record { held = held; free_idle = free_idle; free_whole = free_whole }

pub exited-Live :
    (v : Verifier) (i : ℕ) (b : Bool)
    → Live v i
    → Live (set_thread v i (record (thread_at v i) { exited = b })) i
exited-Live v i b l = rewrite-Live v _ i _ l refl refl l.used refl ok refl refl
  where
    open (l.valid.each i) use {held, free_idle, free_whole}

    ok : ThreadOk (record (thread_at v i) { exited = b })
    ok = record { held = held; free_idle = free_idle; free_whole = free_whole }

observe_first-Live : (v : Verifier) (i : ℕ) (e : Event) → Live v i → Live (observe_first v i e) i
observe_first-Live v i e l = elim (Bool-cases (e.thread_sequence == 0)) [
  | inl start ↦ rw start (expect_next-Live _ i e (initialized-Live v i l))
  | inr gap ↦ rw gap (expect_next-Live _ i e (gap_found-Live _ i e (initialized-Live v i l)))
]

observe_later-Live : (v : Verifier) (i : ℕ) (e : Event) → Live v i → Live (observe_later v i e) i
observe_later-Live v i e l =
    elim (Bool-cases (e.thread_sequence == (thread_at v i).next_expected_sequence)) [
      | inl next ↦ rw next (expect_next-Live v i e l)
      | inr gap ↦ rw gap (expect_next-Live _ i e (gap_found-Live v i e l))
    ]

pub observe_at-Live : (v : Verifier) (i : ℕ) (e : Event) → Live v i → Live (observe_at v i e) i
unfolding observe_at
observe_at-Live v i e l = elim (Bool-cases (thread_at v i).sequence_initialized) [
  | inl later ↦ rw later (observe_later-Live v i e l)
  | inr first ↦ rw first (observe_first-Live v i e l)
]
