-- ===== src/Verifier/Invariant/Threads.antt =====
-- src/monitor_verifier.c: the operations on a thread in use and the invariant of the tables.
use runtime_monitor.Base.{
  ℕ, ◌+◌, ◌≡◌, ◌≢◌, ◌⊎◌, inl, inr, refl, ◌∙◌, ap, arith, Bool, true, false, none, some, ◌==◌,
  if◌then◌else◌, bit, set, bit-le-count, get_or-set_self, Bool-cases, Option-cases, leb, ltb,
}
use runtime_monitor.Event.{Event}
use runtime_monitor.Verifier.State.{
  Verifier, ThreadState, zero_thread, max_held_mutexes, thread_at, set_thread, overflowed,
}
use runtime_monitor.Verifier.Waiting.{set_thread_waiting, stop_waiting, clear_thread_waiting}
use runtime_monitor.Verifier.Held.{
  held_at, release_at, find_held_mutex, add_held_mutex, release_held_mutex, append_held, deepen,
  remove_held,
}
use runtime_monitor.Verifier.Held.Bounds.{
  ThreadHeldOk, deepen-HeldOk, shallower-HeldOk, append_held-HeldOk, remove_held-HeldOk,
}
use runtime_monitor.Verifier.Held.Effects.{find_some, check_hold_time_frame}
use runtime_monitor.Verifier.Invariant.{
  is_waiting, is_tainted, ThreadOk, IsValid, lt_of_used, set-Tables, waiting-le,
}

-- A valid state with slot `i` in use.
pub record Live (v : Verifier) (i : ℕ) : Type 0 where
  pub valid : IsValid v
  pub used : (thread_at v i).used ≡ true

-- Slot `i` is rewritten, its thread and its use kept.
pub rewrite-Live :
    (v v' : Verifier) (i : ℕ) (t : ThreadState)
    → Live v i
    → v'.threads ≡ set v.threads i t
    → v'.mutexes ≡ v.mutexes
    → t.used ≡ true
    → t.thread_id ≡ (thread_at v i).thread_id
    → ThreadOk t
    → v'.waiting_thread_count + bit (is_waiting (thread_at v i))
      ≡ v.waiting_thread_count + bit (is_waiting t)
    → v'.stats.tainted_thread_streams + bit (is_tainted (thread_at v i))
      ≡ v.stats.tainted_thread_streams + bit (is_tainted t)
    → Live v' i
rewrite-Live v v' i t l e m u same ok we ne = record {
  valid = rw (e, m) (set-Tables l.valid i t _ _ l.used same ok we ne);
  used = rw e (
      ap (λ (x : ThreadState). x.used)
        (get_or-set_self v.threads i t zero_thread (lt_of_used v.threads i l.used))
      ∙ u);
}

pub set_thread_waiting-Live :
    (v : Verifier) (i a s : ℕ) → Live v i → a ≢ 0 → Live (set_thread_waiting v i a s) i
unfolding set_thread_waiting
set_thread_waiting-Live v i a s l ne =
    rewrite-Live v _ i _ l refl refl l.used refl ok (ground (arith, waiting-le l.valid)) refl
  where
    open (l.valid.each i) use {held}

    ok : ThreadOk (record (thread_at v i) { waiting_mutex = a; waiting_sequence = s })
    ok = record {
      held = held;
      free_idle = λ e. ground (arith, l.used);
      free_whole = λ e. ground (arith, l.used);
    }

pub stop_waiting-Live :
    (v : Verifier) (i : ℕ)
    → Live v i
    → (thread_at v i).waiting_mutex ≢ 0
    → Live (stop_waiting v i) i
unfolding stop_waiting
stop_waiting-Live v i l ne =
    rewrite-Live v _ i _ l refl refl l.used refl ok
      (ground (
        arith,
        l.valid.waiting_counted,
        bit-le-count is_waiting v.threads i zero_thread (lt_of_used v.threads i l.used),
      ))
      refl
  where
    open (l.valid.each i) use {held}

    ok : ThreadOk (record (thread_at v i) { waiting_mutex = 0; waiting_sequence = 0 })
    ok = record { held = held; free_idle = λ e. refl; free_whole = λ e. ground (arith, l.used) }

pub clear_thread_waiting-Live :
    (v : Verifier) (i a : ℕ) → Live v i → a ≢ 0 → Live (clear_thread_waiting v i a) i
unfolding clear_thread_waiting
clear_thread_waiting-Live v i a l ne = elim (Bool-cases ((thread_at v i).waiting_mutex == a)) [
  | inl same ↦ rw same (stop_waiting-Live v i l (ground arith))
  | inr other ↦ rw other l
]

-- Slot `i` changes in its held mutexes alone, the state otherwise in its output and counters.
held-Live :
    (v v' : Verifier) (i : ℕ) (t : ThreadState)
    → Live v i
    → v'.threads ≡ set v.threads i t
    → v'.mutexes ≡ v.mutexes
    → v'.waiting_thread_count ≡ v.waiting_thread_count
    → v'.stats.tainted_thread_streams ≡ v.stats.tainted_thread_streams
    → (t.used ≡ true)
      × (t.thread_id ≡ (thread_at v i).thread_id)
      × (t.waiting_mutex ≡ (thread_at v i).waiting_mutex)
      × (t.trace_tainted ≡ false)
      × ((thread_at v i).trace_tainted ≡ false)
    → ThreadHeldOk t
    → Live v' i
held-Live v v' i t l e m w n (u, same, we, whole, whole') ok =
    rewrite-Live v v' i t l e m u same
      (record { held = ok; free_idle = λ x. ground arith; free_whole = λ x. whole }) (rw (w, we))
      (rw (n, whole, whole'))

pub add_held_mutex-Live :
    (v : Verifier) (i a now : ℕ) → Live v i → Live (add_held_mutex v i a now) i
unfolding add_held_mutex
add_held_mutex-Live v i a now l = elim (Bool-cases (thread_at v i).trace_tainted) [
  | inl tainted ↦ rw tainted l
  | inr whole ↦ rw whole (added whole (Option-cases (find_held_mutex t a)))
]
  where
    t : ThreadState
    t = thread_at v i

    ok : ThreadHeldOk t
    ok = (l.valid.each i).held

    added :
        t.trace_tainted ≡ false
        → (find_held_mutex t a ≡ none) ⊎ ((h : ℕ) × (find_held_mutex t a ≡ some h))
        → Live
            (elim (find_held_mutex t a) [
              | some h ↦ set_thread v i (deepen t h)
              | none ↦
                  if leb max_held_mutexes t.held_count
                  then overflowed v
                  else set_thread v i (append_held t a now)
            ])
            i
    added whole (inl e) = elim (Bool-cases (leb max_held_mutexes t.held_count)) [
      | inl full ↦ rw (e, full) (record { valid = l.valid; used = l.used })
      | inr room ↦
          rw (e, room)
            (held-Live v _ i _ l refl refl refl refl (l.used, refl, refl, whole, whole)
              (append_held-HeldOk t a now ok (ground arith) e))
    ]
    added whole (inr (h, e)) = rw e (
        held-Live v _ i _ l refl refl refl refl (l.used, refl, refl, whole, whole)
          (deepen-HeldOk t h ok (find_some t a h ok e).0))

pub release_held_mutex-Live :
    (v : Verifier) (i : ℕ) (e : Event) → Live v i → Live (release_held_mutex v i e).1 i
unfolding release_held_mutex
release_held_mutex-Live v i e l = elim (Bool-cases (thread_at v i).trace_tainted) [
  | inl tainted ↦ rw tainted l
  | inr whole ↦ rw whole (released whole (Option-cases (find_held_mutex t e.object_address)))
]
  where
    t : ThreadState
    t = thread_at v i

    ok : ThreadHeldOk t
    ok = (l.valid.each i).held

    released :
        t.trace_tainted ≡ false
        → (find_held_mutex t e.object_address ≡ none)
          ⊎ ((h : ℕ) × (find_held_mutex t e.object_address ≡ some h))
        → Live
            (elim (find_held_mutex t e.object_address) as (λ _. Bool × Verifier) [
              | none ↦ (true, v)
              | some h ↦ release_at v i e h
            ]).1
            i
    released whole (inl f) = rw f l
    released whole (inr (h, f)) = rw f (elim (Bool-cases (ltb 1 (held_at t.held_mutexes h).depth)) [
      | inl deep ↦ rw deep (
          held-Live v _ i _ l refl refl refl refl (l.used, refl, refl, whole, whole)
            (shallower-HeldOk t h ok (find_some t _ h ok f).0 (ground arith)))
      | inr last ↦
          let (a, b, c, d) = check_hold_time_frame v e (held_at t.held_mutexes h) in
          rw last (
            held-Live v _ i (remove_held t h) l (rw a) b c d (l.used, refl, refl, whole, whole)
              (remove_held-HeldOk t h ok (find_some t _ h ok f).0))
    ])
