-- ===== src/Verifier/Held/Entries.antt =====
-- The array of held mutexes as a finite map from addresses to entries: what adding, deepening and
-- removing do to each address, whatever order the swap on removal leaves behind.
use mathlib.Core.Option
use runtime_monitor.Base.{
  ℕ, suc, ◌-◌, ◌≤◌, ◌<◌, ◌≡◌, ◌≢◌, ◌⊎◌, inl, inr, refl, sym, ◌∙◌, arith, Option, none, some, List,
  ◌==◌, if◌then◌else◌, set, get_or-set, Bool-cases,
}
use runtime_monitor.Verifier.State.{ThreadState, HeldMutex, zero_held, max_held_mutexes, uint32_max}
use runtime_monitor.Verifier.Held.{held_at, held_from}
use runtime_monitor.Verifier.Held.Search.{
  address_at, HeldOk, Found, held_from-Found, held_from_eq, held_from-none,
}
use runtime_monitor.Verifier.Held.Bounds.{set-HeldOk, append-HeldOk, held_at-remove, remove-HeldOk}

-- The entry for an address among the first `n`.
unfoldable pub entry_in : List HeldMutex → ℕ → ℕ → Option HeldMutex
entry_in hs n b = Option.map (held_at hs) (held_from hs b n 0)

unfoldable pub entry : ThreadState → ℕ → Option HeldMutex
entry t b = entry_in t.held_mutexes t.held_count b

-- There is an index with the address, or there is none.
found_cases :
    (hs : List HeldMutex) (n b : ℕ)
    → ((i : ℕ) × (held_from hs b n 0 ≡ some i) × (i < n) × (address_at hs i ≡ b))
      ⊎ ((held_from hs b n 0 ≡ none) × ((d : ℕ) → d < n → address_at hs d ≢ b))
found_cases hs n b = go _ refl (held_from-Found hs b n)
  where
    go :
        (o : Option ℕ)
        → held_from hs b n 0 ≡ o
        → Found hs b n o
        → ((i : ℕ) × (held_from hs b n 0 ≡ some i) × (i < n) × (address_at hs i ≡ b))
          ⊎ ((held_from hs b n 0 ≡ none) × ((d : ℕ) → d < n → address_at hs d ≢ b))
    go (some i) e f = inl (i, e, f.0, f.1)
    go none e f = inr (e, f)

module _ {hs : List HeldMutex} {n : ℕ} (v : HeldOk hs n) where
  entry_in-some : (i b : ℕ) → i < n → address_at hs i ≡ b → entry_in hs n b ≡ some (held_at hs i)
  unfolding entry_in
  entry_in-some i b p e = rw (held_from_eq hs b n i v.distinct p e)

entry_in-none :
    (hs : List HeldMutex) (n b : ℕ)
    → ((d : ℕ) → d < n → address_at hs d ≢ b)
    → entry_in hs n b ≡ none
unfolding entry_in
entry_in-none hs n b f = rw (held_from-none hs b n f)

module _ {hs : List HeldMutex} {n : ℕ} (v : HeldOk hs n) where
  pub entry_in-set :
      (h : ℕ) (x : HeldMutex) (b : ℕ)
      → h < n
      → x.address ≡ address_at hs h
      → (1 ≤ x.depth) × (x.depth ≤ uint32_max)
      → entry_in (set hs h x) n b ≡ (if x.address == b then some x else entry_in hs n b)
  entry_in-set h x b p e r = elim (found_cases hs n b) [
    | inl (i, f, q, a) ↦ ground (
      arith,
      v.bound,
      v.storage,
      entry_in-some v i b q a,
      entry_in-some (set-HeldOk v h x p e r) i b q,
      get_or-set hs h i x zero_held,
      v.distinct h i,
    )
    | inr (f, no_entry) ↦ ground (
      arith,
      no_entry h p,
      entry_in-none hs n b no_entry,
      entry_in-none (set hs h x) n b (λ d q a.
          ground
            (arith, v.bound, v.storage, get_or-set hs h d x zero_held, no_entry d q, no_entry h p)),
    )
  ]

  pub entry_in-append :
      (x : HeldMutex) (b : ℕ)
      → n < max_held_mutexes
      → ((d : ℕ) → d < n → address_at hs d ≢ x.address)
      → (1 ≤ x.depth) × (x.depth ≤ uint32_max)
      → entry_in (set hs n x) (suc n) b ≡ (if x.address == b then some x else entry_in hs n b)
  entry_in-append x b p fresh r = elim (found_cases hs n b) [
    | inl (i, f, q, a) ↦ ground (
      arith,
      v.storage,
      fresh i q,
      entry_in-some v i b q a,
      entry_in-some (append-HeldOk v x p fresh r) i b,
      get_or-set hs n i x zero_held,
    )
    | inr (f, no_entry) ↦ elim (Bool-cases (x.address == b)) [
      | inl same ↦ ground (
        arith,
        v.storage,
        entry_in-some (append-HeldOk v x p fresh r) n b,
        get_or-set hs n n x zero_held,
      )
      | inr other ↦ rw other (
          entry_in-none (set hs n x) (suc n) b
            (λ d q a. ground (arith, v.storage, get_or-set hs n d x zero_held, no_entry d))
          ∙ sym (entry_in-none hs n b no_entry))
    ]
  ]

  abbrev removed : ℕ → List HeldMutex
  removed h = set (set hs h (held_at hs (n - 1))) (n - 1) zero_held

  removed-none :
      (h b : ℕ) (p : h < n)
      → ((d : ℕ) → d < n → d ≢ h → address_at hs d ≢ b)
      → entry_in (removed h) (n - 1) b ≡ none
  removed-none h b p others =
      entry_in-none (removed h) (n - 1) b
        λ d q a. ground (arith, held_at-remove v h d p q, others d, others (n - 1))

  pub entry_in-remove :
      (h b : ℕ)
      → h < n
      → entry_in (removed h) (n - 1) b ≡ (if address_at hs h == b then none else entry_in hs n b)
  entry_in-remove h b p = elim (found_cases hs n b) [
    | inl (i, f, q, a) ↦ elim (Bool-cases (h == i)) [
      | inl same ↦
          ground (arith, removed-none h b p (λ d pd ne e. ground (arith, v.distinct d i pd q)))
      | inr other ↦ elim (Bool-cases (i == (n - 1))) [
        | inl last ↦ ground (
          arith,
          entry_in-some v i b q a,
          v.distinct h i,
          held_at-remove v h h p,
          entry_in-some (remove-HeldOk v h p) h b,
        )
        | inr kept ↦ ground (
          arith,
          entry_in-some v i b q a,
          v.distinct h i,
          held_at-remove v h i p,
          entry_in-some (remove-HeldOk v h p) i b,
        )
      ]
    ]
    | inr (f, no_entry) ↦ ground (
      arith,
      no_entry h p,
      entry_in-none hs n b no_entry,
      removed-none h b p (λ d pd ne e. no_entry d pd e),
    )
  ]
