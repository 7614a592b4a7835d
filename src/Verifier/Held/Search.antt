-- ===== src/Verifier/Held/Search.antt =====
-- The array of held mutexes: its representation invariant, and the search of it.
use runtime_monitor.Base.{
  ℕ, zero, suc, ◌+◌, ◌≤◌, ◌<◌, ◌≡◌, ◌≢◌, refl, sym, ◌∙◌, ap, arith, Option, none, some, List, ◌==◌,
  length, Bool-cases, inl, inr, ==_iff,
}
use runtime_monitor.Verifier.State.{HeldMutex, max_held_mutexes, uint32_max}
use runtime_monitor.Verifier.Held.{held_at, held_from}

abbrev pub address_at : List HeldMutex → ℕ → ℕ
address_at hs i = (held_at hs i).address

-- The first `n` entries have different addresses.
abbrev pub Distinct : List HeldMutex → ℕ → Type 0
Distinct hs n = (i j : ℕ) → i < n → j < n → address_at hs i ≡ address_at hs j → i ≡ j

pub record HeldOk (hs : List HeldMutex) (n : ℕ) : Type 0 where
  pub storage : length hs ≡ max_held_mutexes
  pub bound : n ≤ max_held_mutexes
  pub distinct : Distinct hs n
  pub counted : (i : ℕ) → i < n → (1 ≤ (held_at hs i).depth) × ((held_at hs i).depth ≤ uint32_max)

abbrev FoundFrom : List HeldMutex → ℕ → ℕ → ℕ → Option ℕ → Type 0
FoundFrom hs a n i (some h) = (i ≤ h) × (h < i + n) × (address_at hs h ≡ a)
FoundFrom hs a n i none = (d : ℕ) → i ≤ d → d < i + n → address_at hs d ≢ a

FoundFrom-suc :
    (hs : List HeldMutex) (a n i : ℕ) (o : Option ℕ)
    → address_at hs i ≢ a
    → FoundFrom hs a n (i + 1) o
    → FoundFrom hs a (suc n) i o
FoundFrom-suc hs a n i (some h) ne f = omega arith
FoundFrom-suc hs a n i none ne f = λ d p q e. elim (Bool-cases (i == d)) [
  | inl same ↦ ne (let s : i ≡ d = (==_iff i d).0 same in rw s e)
  | inr other ↦ f d (ground arith) (omega arith) e
]

held_from-FoundFrom : (hs : List HeldMutex) (a n i : ℕ) → FoundFrom hs a n i (held_from hs a n i)
unfolding held_from
held_from-FoundFrom hs a zero i = λ d p q e. absurd (omega arith)
held_from-FoundFrom hs a (suc n) i = elim (Bool-cases (address_at hs i == a)) [
  | inl here ↦ rw here (omega arith, omega arith, (==_iff _ a).0 here)
  | inr other ↦
      rw other (FoundFrom-suc hs a n i _ (λ e. ground arith) (held_from-FoundFrom hs a n (i + 1)))
]

-- The entry found has the address, among the first `n`; none found means that none has it.
abbrev pub Found : List HeldMutex → ℕ → ℕ → Option ℕ → Type 0
Found hs a n (some h) = (h < n) × (address_at hs h ≡ a)
Found hs a n none = (d : ℕ) → d < n → address_at hs d ≢ a

Found-of_from :
    (hs : List HeldMutex) (a n : ℕ) (o : Option ℕ) → FoundFrom hs a n 0 o → Found hs a n o
Found-of_from hs a n (some h) f = omega arith
Found-of_from hs a n none f = λ d h e. f d (omega arith) (omega arith) e

pub held_from-Found : (hs : List HeldMutex) (a n : ℕ) → Found hs a n (held_from hs a n 0)
held_from-Found hs a n = Found-of_from hs a n _ (held_from-FoundFrom hs a n 0)

-- With different addresses the search finds the one entry that there is.
Found-eq :
    (hs : List HeldMutex) (a n h : ℕ) (o : Option ℕ)
    → Distinct hs n
    → h < n
    → address_at hs h ≡ a
    → Found hs a n o
    → o ≡ some h
Found-eq hs a n h (some i) dist p e (q, e') = ap some (dist i h q p (e' ∙ sym e))
Found-eq hs a n h none dist p e f = absurd (f h p e)

Found-none :
    (hs : List HeldMutex) (a n : ℕ) (o : Option ℕ)
    → ((d : ℕ) → d < n → address_at hs d ≢ a)
    → Found hs a n o
    → o ≡ none
Found-none hs a n (some i) no_entry (q, e) = absurd (no_entry i q e)
Found-none hs a n none no_entry f = refl

pub held_from_eq :
    (hs : List HeldMutex) (a n h : ℕ)
    → Distinct hs n
    → h < n
    → address_at hs h ≡ a
    → held_from hs a n 0 ≡ some h
held_from_eq hs a n h dist p e = Found-eq hs a n h _ dist p e (held_from-Found hs a n)

pub held_from-none :
    (hs : List HeldMutex) (a n : ℕ)
    → ((d : ℕ) → d < n → address_at hs d ≢ a)
    → held_from hs a n 0 ≡ none
held_from-none hs a n no_entry = Found-none hs a n _ no_entry (held_from-Found hs a n)
