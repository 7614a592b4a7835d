-- ===== src/Verifier/Verdicts/Streams.antt =====
-- src/monitor_verifier.c, `observe_thread_sequence`: what a whole stream of one thread's events does.
use runtime_monitor.Base.{
  ℕ, ◌+◌, ◌^◌, ◌<◌, ◌≡◌, refl, ◌∙◌, arith, Bool, true, false, not, ◌&&◌, ◌||◌, ◌==◌, ==_iff,
  if_true, List, [], ◌∷◌, ◌++◌, length, u32,
}
use runtime_monitor.Event.{Event}
use runtime_monitor.Verifier.State.{Verifier, thread_at}
use runtime_monitor.Verifier.Gap.{observe_at, expected}
use runtime_monitor.Verifier.Invariant.{lt_of_used}
use runtime_monitor.Verifier.Invariant.Threads.{Live}
use runtime_monitor.Verifier.Invariant.Gaps.{observe_at-Live}
use runtime_monitor.Verifier.Verdicts.Gaps.{gap_noticed}

-- The events of the thread in slot `i`, observed one after the other.
abbrev pub observe_all : Verifier → ℕ → List Event → Verifier
observe_all v i [] = v
observe_all v i (e ∷ es) = observe_all (observe_at v i e) i es

-- The events are numbered from `next` on without a gap, modulo 2^32.
abbrev pub in_order : ℕ → List Event → Bool
in_order next [] = true
in_order next (e ∷ es) = e.thread_sequence == next && in_order (u32 (e.thread_sequence + 1)) es

-- Whatever events of a thread in use are observed, of any number and in any order: the thread is
-- tainted afterwards exactly if it was before or if the events are not numbered without a gap from the
-- number expected, which is 0 for a thread that has not been observed.
pub taint_exact :
    (v : Verifier) (i : ℕ) (es : List Event)
    → Live v i
    → (thread_at (observe_all v i es) i).trace_tainted
      ≡ ((thread_at v i).trace_tainted || not (in_order (expected (thread_at v i)) es))
taint_exact v i [] live = ground arith
taint_exact v i (e ∷ es) live =
    taint_exact v1 i es (observe_at-Live v i e live)
    ∙ step (thread_at v i).trace_tainted (e.thread_sequence == expected (thread_at v i))
        (thread_at v1 i).trace_tainted (expected (thread_at v1 i)) (u32 (e.thread_sequence + 1)) g.2
        (if_true (thread_at v1 i).sequence_initialized _ _ g.1 ∙ g.0)
  where
    v1 : Verifier
    v1 = observe_at v i e

    g :
        let t = thread_at v i in
        let t' = thread_at v1 i in
        (t'.next_expected_sequence ≡ u32 (e.thread_sequence + 1))
        × (t'.sequence_initialized ≡ true)
        × (t'.trace_tainted ≡ (t.trace_tainted || not (e.thread_sequence == expected t)))
    g = let n = gap_noticed v i e (lt_of_used v.threads i live.used) in (n.0, n.1, n.2)

    join :
        (b fits gap fine : Bool)
        → gap ≡ not fine
        → ((b || not fits) || gap) ≡ (b || not (fits && fine))
    join true fits gap fine e = refl
    join false true gap fine e = e
    join false false gap fine e = refl

    step :
        (b fits b' : Bool) (x y : ℕ)
        → b' ≡ (b || not fits)
        → x ≡ y
        → (b' || not (in_order x es)) ≡ (b || not (fits && in_order y es))
    step b fits b' x y p q = rw (p, q) (join b fits (not (in_order y es)) (in_order y es) refl)

both_true : (a b : Bool) → (a && b) ≡ true → (a ≡ true) × (b ≡ true)
both_true true b e = (refl, e)
both_true false b e = absurd (cc)

-- One more event with the next number.
pub in_order-append :
    (next : ℕ) (es : List Event) (e : Event)
    → next < 2 ^ 32
    → in_order next es ≡ true
    → e.thread_sequence ≡ u32 (next + length es)
    → in_order next (es ++ e ∷ []) ≡ true
in_order-append next [] e small h eq = ground (arith, eq)
in_order-append next (x ∷ es) e small h eq = rw (parts.0) (
    in_order-append (u32 (x.thread_sequence + 1)) es e (omega arith) parts.1
      (omega (arith, eq, (==_iff x.thread_sequence next).0 parts.0)))
  where
    parts :
        ((x.thread_sequence == next) ≡ true) × (in_order (u32 (x.thread_sequence + 1)) es ≡ true)
    parts = both_true (x.thread_sequence == next) _ h

-- The first part of what is in order is in order.
pub in_order-prefix :
    (next : ℕ) (es rest : List Event) → in_order next (es ++ rest) ≡ true → in_order next es ≡ true
in_order-prefix next [] rest h = refl
in_order-prefix next (x ∷ es) rest h =
    both (x.thread_sequence == next) _ _ h (in_order-prefix (u32 (x.thread_sequence + 1)) es rest)
  where
    both : (a b c : Bool) → (a && b) ≡ true → (b ≡ true → c ≡ true) → (a && c) ≡ true
    both true b c e f = f e
    both false b c e f = e
