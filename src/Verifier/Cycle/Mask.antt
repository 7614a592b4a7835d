-- ===== src/Verifier/Cycle/Mask.antt =====
-- src/monitor_verifier.c, `find_cycle_from`: the mask of a cycle.
use Prim.Native.Nat.{bit_or}
use runtime_monitor.Base.{
  ℕ, zero, suc, ◌+◌, ◌^◌, ◌<◌, ◌≤◌, ◌≡◌, sym, subst, arith, true, ◌&&◌, Option, none, some, List,
  [], ◌∷◌, ◌==◌, if◌then◌else◌, ltb, Bool-cases, inl, inr, length, get_or, bit_or_ge, pow_two_pos,
}
use runtime_monitor.Verifier.State.{Verifier, ThreadState, zero_thread}
use runtime_monitor.Verifier.Lookup.{index_from, thread_index}
use runtime_monitor.Verifier.Invariant.{IsValid}
use runtime_monitor.Verifier.Cycle.{mask_bit, mask_of}
use runtime_monitor.Verifier.Cycle.Spec.{Active, Chain, IsCycle}

-- The index that a thread in use is found at.
index_from-some :
    (id : ℕ) (ts : List ThreadState) (i d : ℕ)
    → (get_or ts d zero_thread).used ≡ true
    → (get_or ts d zero_thread).thread_id ≡ id
    → (k : ℕ) × (index_from id ts i ≡ some k) × (k < i + length ts)
unfolding index_from
index_from-some id [] i d u e = absurd (cc)
index_from-some id (t ∷ ts) i zero u e = (i, ground arith, omega arith)
index_from-some id (t ∷ ts) i (suc d) u e = elim (Bool-cases (t.used && (t.thread_id == id))) [
  | inl here ↦ (i, rw here, omega arith)
  | inr other ↦ let (k, f, h) = index_from-some id ts (i + 1) d u e in (k, rw other f, omega arith)
]

mask_of-ge : (v : Verifier) (m : ℕ) (ids : List ℕ) → m ≤ mask_of v m ids
unfolding mask_of
mask_of-ge v m [] = omega arith
mask_of-ge v m (id ∷ ids) =
    omega (arith, mask_of-ge v (mask_bit v m id) ids, step (thread_index v id))
  where
    step :
        (o : Option ℕ)
        → m ≤ (elim o as (λ _. ℕ) [ none ↦ m | some i ↦ if ltb i 32 then bit_or m (2 ^ i) else m ])
    step none = omega arith
    step (some i) = ground (arith, bit_or_ge m (2 ^ i))

-- The bit of the first thread.
first_bit :
    (v : Verifier) (t i : ℕ) (ts : List ℕ) → IsValid v → Active v t i → 0 < mask_of v 0 (t ∷ ts)
unfolding mask_of thread_index
first_bit v t i ts ok a =
    let (k, f, h) = index_from-some t v.threads 0 i a.used a.is_thread in
    ground (arith, ok.threads, mask_of-ge v (mask_bit v 0 t) ts, bit_or_ge 0 (2 ^ k), pow_two_pos k)

pub mask_pos :
    (v : Verifier) (start : ℕ) (ts ms : List ℕ)
    → IsValid v
    → IsCycle v start ts ms
    → 0 < mask_of v 0 ts
mask_pos v start ts ms ok c = go ts ms c.closed c.long
  where
    go : (xs ys : List ℕ) → Chain v start xs ys start → 2 ≤ length xs → 0 < mask_of v 0 xs
    go [] ys c h = absurd (omega arith)
    go (x ∷ xs) [] c h = absurd c
    go (x ∷ xs) (y ∷ ys) (q, o, w, c) h =
        subst (λ t. 0 < mask_of v 0 (t ∷ xs)) (sym q) (first_bit v start w.i xs ok w.waiter)
