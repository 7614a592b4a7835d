-- ===== src/Base/Pigeons.antt =====
-- The pigeonhole principle for lists of numbers.
use Prim.Native.Nat.{ℕ, zero, suc, ◌≤◌, ◌<◌}
use mathlib.Core.Path.{subst}
use mathlib.Core.Logic.{◌≢◌, inl, inr}
use mathlib.Core.List.{List, [], ◌∷◌}
use native.Mathlib.Omega.{arith}
use runtime_monitor.Base.Tests.{if◌then◌else◌, ◌==◌, Bool-cases, ==_iff}
use runtime_monitor.Base.Lists.{length}

abbrev pub NotIn : ℕ → List ℕ → Type 0
NotIn a [] = Unit
NotIn a (x ∷ xs) = (x ≢ a) × NotIn a xs

abbrev pub Distinct : List ℕ → Type 0
Distinct [] = Unit
Distinct (x ∷ xs) = NotIn x xs × Distinct xs

abbrev pub AllBelow : ℕ → List ℕ → Type 0
AllBelow n [] = Unit
AllBelow n (x ∷ xs) = (x < n) × AllBelow n xs

abbrev remove : ℕ → List ℕ → List ℕ
remove k [] = []
remove k (x ∷ xs) = let rest = remove k xs in if x == k then xs else x ∷ rest

length-remove : (k : ℕ) (xs : List ℕ) → length xs ≤ suc (length (remove k xs))
length-remove k [] = omega arith
length-remove k (x ∷ xs) = ground (arith, length-remove k xs)

NotIn-remove : (a k : ℕ) (xs : List ℕ) → NotIn a xs → NotIn a (remove k xs)
NotIn-remove a k [] h = tt
NotIn-remove a k (x ∷ xs) h = elim (Bool-cases (x == k)) [
  | inl e ↦ rw e h.1
  | inr e ↦ rw e (h.0, NotIn-remove a k xs h.1)
]

Distinct-remove : (k : ℕ) (xs : List ℕ) → Distinct xs → Distinct (remove k xs)
Distinct-remove k [] d = tt
Distinct-remove k (x ∷ xs) d = elim (Bool-cases (x == k)) [
  | inl e ↦ rw e d.1
  | inr e ↦ rw e (NotIn-remove x k xs d.0, Distinct-remove k xs d.1)
]

-- Without the greatest number, the rest are below it.
AllBelow-of_NotIn : (n : ℕ) (xs : List ℕ) → NotIn n xs → AllBelow (suc n) xs → AllBelow n xs
AllBelow-of_NotIn n [] h b = tt
AllBelow-of_NotIn n (x ∷ xs) h b = (omega (arith, h.0, b.0), AllBelow-of_NotIn n xs h.1 b.1)

AllBelow-remove :
    (n : ℕ) (xs : List ℕ) → Distinct xs → AllBelow (suc n) xs → AllBelow n (remove n xs)
AllBelow-remove n [] d b = tt
AllBelow-remove n (x ∷ xs) d b = elim (Bool-cases (x == n)) [
  | inl e ↦ rw e (AllBelow-of_NotIn n xs (subst (λ y. NotIn y xs) ((==_iff x n).0 e) d.0) b.1)
  | inr e ↦ rw e (ground arith, AllBelow-remove n xs d.1 b.1)
]

pub length-le_of_Distinct : (n : ℕ) (xs : List ℕ) → Distinct xs → AllBelow n xs → length xs ≤ n
length-le_of_Distinct zero [] d b = omega arith
length-le_of_Distinct zero (x ∷ xs) d b = absurd (omega (arith, b.0))
length-le_of_Distinct (suc n) xs d b = omega (
  arith,
  length-remove n xs,
  length-le_of_Distinct n (remove n xs) (Distinct-remove n xs d) (AllBelow-remove n xs d b),
)
