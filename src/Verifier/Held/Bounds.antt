-- ===== src/Verifier/Held/Bounds.antt =====
-- src/monitor_verifier.c: the operations on the held mutexes and the invariant of their array.
use runtime_monitor.Base.{
  ℕ, suc, ◌+◌, ◌-◌, ◌^◌, ◌≤◌, ◌<◌, ◌≡◌, ◌≢◌, refl, ◌∙◌, arith, Option, none, some, List, ◌==◌,
  if◌then◌else◌, u32, set, replicate, length-set, length-replicate, get_or-set,
}
use runtime_monitor.Verifier.State.{ThreadState, HeldMutex, zero_held, max_held_mutexes, uint32_max}
use runtime_monitor.Verifier.Held.{
  held_at, find_held_mutex, deepen, append_held, shallower, remove_held,
}
use runtime_monitor.Verifier.Held.Search.{address_at, HeldOk, Found, held_from-Found}

abbrev pub ThreadHeldOk : ThreadState → Type 0
ThreadHeldOk t = HeldOk t.held_mutexes t.held_count

module _ {hs : List HeldMutex} {n : ℕ} (v : HeldOk hs n) where
  -- An entry replaced by one with its address and a depth in range.
  pub set-HeldOk :
      (h : ℕ) (x : HeldMutex)
      → h < n
      → x.address ≡ address_at hs h
      → (1 ≤ x.depth) × (x.depth ≤ uint32_max)
      → HeldOk (set hs h x) n
  set-HeldOk h x p e r = record {
    storage = length-set hs h x ∙ v.storage;
    bound = v.bound;
    distinct = λ i j pi pj q. ground (
      arith,
      v.bound,
      v.storage,
      get_or-set hs h i x zero_held,
      get_or-set hs h j x zero_held,
      v.distinct i j,
    );
    counted =
        λ i pi. ground (arith, v.bound, v.storage, get_or-set hs h i x zero_held, v.counted i);
  }

  pub append-HeldOk :
      (x : HeldMutex)
      → n < max_held_mutexes
      → ((d : ℕ) → d < n → address_at hs d ≢ x.address)
      → (1 ≤ x.depth) × (x.depth ≤ uint32_max)
      → HeldOk (set hs n x) (suc n)
  append-HeldOk x p fresh r = record {
    storage = length-set hs n x ∙ v.storage;
    bound = p;
    distinct = λ i j pi pj q. ground (
      arith,
      v.storage,
      get_or-set hs n i x zero_held,
      get_or-set hs n j x zero_held,
      v.distinct i j,
      fresh i,
      fresh j,
    );
    counted = λ i pi. ground (arith, v.storage, get_or-set hs n i x zero_held, v.counted i);
  }

  -- Below the last entry, a removal puts the last entry in the place of entry `h`.
  pub held_at-remove :
      (h j : ℕ)
      → h < n
      → j < n - 1
      → held_at (set (set hs h (held_at hs (n - 1))) (n - 1) zero_held) j
        ≡ (if h == j then held_at hs (n - 1) else held_at hs j)
  held_at-remove h j p q = ground (
    arith,
    v.bound,
    v.storage,
    length-set hs h (held_at hs (n - 1)),
    get_or-set (set hs h (held_at hs (n - 1))) (n - 1) j zero_held zero_held,
    get_or-set hs h j (held_at hs (n - 1)) zero_held,
  )

  pub remove-HeldOk :
      (h : ℕ) → h < n → HeldOk (set (set hs h (held_at hs (n - 1))) (n - 1) zero_held) (n - 1)
  remove-HeldOk h p = record {
    storage =
        length-set (set hs h (held_at hs (n - 1))) (n - 1) zero_held
        ∙ length-set hs h (held_at hs (n - 1))
        ∙ v.storage;
    bound = omega (arith, v.bound);
    distinct = λ i j pi pj q. ground (
      arith,
      held_at-remove h i p pi,
      held_at-remove h j p pj,
      v.distinct i j,
      v.distinct (n - 1) j,
      v.distinct i (n - 1),
    );
    counted = λ i pi. ground (arith, held_at-remove h i p pi, v.counted i, v.counted (n - 1));
  }

-- `held->depth` goes up, to `UINT32_MAX` at most.
pub deepen-HeldOk :
    (t : ThreadState) (h : ℕ) → ThreadHeldOk t → h < t.held_count → ThreadHeldOk (deepen t h)
deepen-HeldOk t h v p = set-HeldOk v h _ p refl (ground (arith, v.counted h p))

pub shallower-HeldOk :
    (t : ThreadState) (h : ℕ)
    → ThreadHeldOk t
    → h < t.held_count
    → 1 < (held_at t.held_mutexes h).depth
    → ThreadHeldOk (shallower t h)
shallower-HeldOk t h v p d = set-HeldOk v h _ p refl (omega (arith, v.counted h p))

pub append_held-HeldOk :
    (t : ThreadState) (a now : ℕ)
    → ThreadHeldOk t
    → t.held_count < max_held_mutexes
    → find_held_mutex t a ≡ none
    → ThreadHeldOk (append_held t a now)
unfolding find_held_mutex
append_held-HeldOk t a now v p e =
    let next : u32 (t.held_count + 1) ≡ suc t.held_count = omega arith in
    rw next (
      append-HeldOk v _ p (fresh _ e (held_from-Found t.held_mutexes a t.held_count)) (omega arith))
  where
    fresh :
        (o : Option ℕ)
        → o ≡ none
        → Found t.held_mutexes a t.held_count o
        → (d : ℕ) → d < t.held_count
        → address_at t.held_mutexes d ≢ a
    fresh none q f = f
    fresh (some h) q f = absurd (cc)

pub remove_held-HeldOk :
    (t : ThreadState) (h : ℕ) → ThreadHeldOk t → h < t.held_count → ThreadHeldOk (remove_held t h)
remove_held-HeldOk t h v p =
    let last : u32 (t.held_count + 2 ^ 32 - 1) ≡ t.held_count - 1 = omega (arith, v.bound) in
    rw last (remove-HeldOk v h p)

-- Cleared by `memset`, as a gap or a fresh slot leaves it.
pub cleared-HeldOk : HeldOk (replicate max_held_mutexes zero_held) 0
cleared-HeldOk = record {
  storage = length-replicate max_held_mutexes zero_held;
  bound = omega arith;
  distinct = λ i j p q e. absurd (omega arith);
  counted = λ i p. absurd (omega arith);
}
