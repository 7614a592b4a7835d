-- ===== src/Verifier/Slots/Laws.antt =====
-- What a search of a table finds.
use runtime_monitor.Base.{
  ℕ, zero, suc, ◌+◌, ◌<◌, ◌≡◌, ◌≢◌, ◌⊎◌, inl, inr, refl, arith, Bool, true, false, Option, none,
  some, List, [], ◌∷◌, ◌&&◌, ◌==◌, if◌then◌else◌, length, get_or, Bool-cases, Option-cases,
}
use runtime_monitor.Verifier.Slots.{Slot, found, missing, first_of_two, scan}

module _ {A : Type 0} (used : A → Bool) (key : A → ℕ) (z : A) where
  -- No slot in use has the key.
  abbrev pub Absent : ℕ → List A → Type 0
  Absent k xs = (d : ℕ) → d < length xs → used (get_or xs d z) ≡ true → key (get_or xs d z) ≢ k

  abbrev IsFree : List A → ℕ → ℕ → Type 0
  IsFree xs i f = (d : ℕ) × (f ≡ i + d) × (d < length xs) × (used (get_or xs d z) ≡ false)

  -- Where a search from index `i` on may have stopped, when `free` was the first free slot so far.
  abbrev Outcome : ℕ → List A → ℕ → Option ℕ → Slot → Type 0
  Outcome k xs i free (found j) =
      (d : ℕ) × (j ≡ i + d)
      × (d < length xs)
      × (used (get_or xs d z) ≡ true)
      × (key (get_or xs d z) ≡ k)
  Outcome k xs i free (missing none) =
      (free ≡ none) × ((d : ℕ) → d < length xs → used (get_or xs d z) ≡ true) × Absent k xs
  Outcome k xs i free (missing (some f)) = ((free ≡ some f) ⊎ IsFree xs i f) × Absent k xs

  Absent-cons :
      (k : ℕ) (x : A) (xs : List A)
      → (used x && (key x == k)) ≡ false
      → Absent k xs
      → Absent k (x ∷ xs)
  Absent-cons k x xs other a zero h u e = ground arith
  Absent-cons k x xs other a (suc d) h u e = a d (omega arith) u e

  all_used-cons :
      (x : A) (xs : List A)
      → used x ≡ true
      → ((d : ℕ) → d < length xs → used (get_or xs d z) ≡ true)
      → (d : ℕ) → d < length (x ∷ xs)
      → used (get_or (x ∷ xs) d z) ≡ true
  all_used-cons x xs u all zero h = u
  all_used-cons x xs u all (suc d) h = all d (omega arith)

  -- The first free slot so far is the one from before, or this one.
  first-IsFree :
      (x : A) (xs : List A) (i : ℕ) (free : Option ℕ) (f : ℕ)
      → (if used x then free else first_of_two free i) ≡ some f
      → (free ≡ some f) ⊎ IsFree (x ∷ xs) i f
  first-IsFree x xs i free f e = elim (Bool-cases (used x)) [
    | inl u ↦ inl (ground arith)
    | inr u ↦ elim (Option-cases free) [
      | inl n ↦ inr (0, ground arith, omega arith, u)
      | inr (g, s) ↦ inl (ground arith)
    ]
  ]

  none_free :
      (x : A) (i : ℕ) (free : Option ℕ)
      → (if used x then free else first_of_two free i) ≡ none
      → (used x ≡ true) × (free ≡ none)
  none_free x i none e = ground arith
  none_free x i (some f) e = ground arith

  Outcome-cons :
      (k : ℕ) (x : A) (xs : List A) (i : ℕ) (free : Option ℕ) (s : Slot)
      → (used x && (key x == k)) ≡ false
      → Outcome k xs (i + 1) (if used x then free else first_of_two free i) s
      → Outcome k (x ∷ xs) i free s
  Outcome-cons k x xs i free (found j) other o =
      (suc (o.0), omega (arith, o.1), omega (arith, o.2), o.3, o.4)
  Outcome-cons k x xs i free (missing none) other o =
      let (u, n) = none_free x i free o.0 in
      (n, all_used-cons x xs u o.1, Absent-cons k x xs other o.2)
  Outcome-cons k x xs i free (missing (some f)) other (inl e, absent) =
      (first-IsFree x xs i free f e, Absent-cons k x xs other absent)
  Outcome-cons k x xs i free (missing (some f)) other (inr (d, e, h, u), absent) =
      (inr (suc d, omega arith, omega arith, u), Absent-cons k x xs other absent)

  scan-Outcome :
      (k : ℕ) (xs : List A) (i : ℕ) (free : Option ℕ)
      → Outcome k xs i free (scan used key k xs i free)
  unfolding scan
  scan-Outcome k [] i none = (refl, λ d h. absurd (omega arith), λ d h. absurd (omega arith))
  scan-Outcome k [] i (some f) = (inl refl, λ d h. absurd (omega arith))
  scan-Outcome k (x ∷ xs) i free = elim (Bool-cases (used x && (key x == k))) [
    | inl here ↦ rw here (0, omega arith, omega arith, ground arith, ground arith)
    | inr other ↦ rw other (Outcome-cons k x xs i free _ other (scan-Outcome k xs (i + 1) _))
  ]

  -- A search of a whole table: the slot found is in use and has the key; failing that no slot in
  -- use has it, and the free slot given is free, or there is none.
  abbrev pub Searched : ℕ → List A → Slot → Type 0
  Searched k xs (found j) =
      (j < length xs) × (used (get_or xs j z) ≡ true) × (key (get_or xs j z) ≡ k)
  Searched k xs (missing none) =
      ((d : ℕ) → d < length xs → used (get_or xs d z) ≡ true) × Absent k xs
  Searched k xs (missing (some f)) = (f < length xs) × (used (get_or xs f z) ≡ false) × Absent k xs

  Searched-of_Outcome : (k : ℕ) (xs : List A) (s : Slot) → Outcome k xs 0 none s → Searched k xs s
  Searched-of_Outcome k xs (found j) (d, e, h, u, q) =
      let same : j ≡ d = omega arith in rw same (h, u, q)
  Searched-of_Outcome k xs (missing none) o = (o.1, o.2)
  Searched-of_Outcome k xs (missing (some f)) (inl e, absent) = cc
  Searched-of_Outcome k xs (missing (some f)) (inr (d, e, h, u), absent) =
      let same : f ≡ d = omega arith in rw same (h, u, absent)

  pub scan-Searched : (k : ℕ) (xs : List A) → Searched k xs (scan used key k xs 0 none)
  scan-Searched k xs = Searched-of_Outcome k xs _ (scan-Outcome k xs 0 none)
