-- ===== src/Base/Bits.antt =====
-- The bitwise or of unsigned numbers.
use Prim.Native.Nat.{ℕ, zero, suc, ◌*◌, ◌/◌, ◌^◌, ◌≤◌, ◌<◌, max, digits, bit_or, bit_or-bitwise}
use mathlib.Core.Path.{◌≡◌, subst, sym}
use native.Mathlib.Nat.{pow-suc}
use native.Mathlib.Omega.{arith}

digits-max_ge :
    (n a b : ℕ) → a ≤ n → (a ≤ digits (λ y. y) max n a b) × (b ≤ digits (λ y. y) max n a b)
digits-max_ge zero zero b h = omega arith
digits-max_ge zero (suc a) b h = absurd (omega arith)
digits-max_ge (suc n) zero b h = omega arith
digits-max_ge (suc n) (suc a) b h = omega (arith, digits-max_ge n (suc a / 2) (b / 2) (omega arith))

pub bit_or_ge : (a b : ℕ) → (a ≤ bit_or a b) × (b ≤ bit_or a b)
bit_or_ge a b =
    subst (λ x. (a ≤ x) × (b ≤ x)) (sym (bit_or-bitwise a b)) (digits-max_ge a a b (omega arith))

pub pow_two_pos : (n : ℕ) → 0 < 2 ^ n
pow_two_pos zero = omega arith
pow_two_pos (suc n) = let e : 2 ^ suc n ≡ 2 ^ n * 2 = pow-suc 2 n in omega (arith, e, pow_two_pos n)
