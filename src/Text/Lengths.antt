-- ===== src/Text/Lengths.antt =====
-- How long the texts of numbers and pointers are.
use runtime_monitor.Base.{ℕ, zero, suc, ◌+◌, ◌≤◌, arith, ◌==◌, [], ◌∷◌, length, if_all, ◌/◌, ◌%◌}
use runtime_monitor.Text.{Text, decimal_from, decimal, hex_digit, hex_from, pointer}

decimal_from_bounds :
    (fuel n : ℕ) (rest : Text)
    → (length rest ≤ length (decimal_from fuel n rest))
      × (length (decimal_from fuel n rest) ≤ fuel + length rest)
unfolding decimal_from
decimal_from_bounds zero n rest = omega arith
decimal_from_bounds (suc fuel) n rest =
    if_all (λ (t : Text). (length rest ≤ length t) × (length t ≤ suc fuel + length rest))
      (n / 10 == 0) _ _ (omega arith)
      (omega (arith, decimal_from_bounds fuel (n / 10) ((48 + n % 10) ∷ rest)))

hex_from_bounds :
    (fuel n : ℕ) (rest : Text)
    → (length rest ≤ length (hex_from fuel n rest))
      × (length (hex_from fuel n rest) ≤ fuel + length rest)
unfolding hex_from
hex_from_bounds zero n rest = omega arith
hex_from_bounds (suc fuel) n rest =
    if_all (λ (t : Text). (length rest ≤ length t) × (length t ≤ suc fuel + length rest))
      (n / 16 == 0) _ _ (omega arith)
      (omega (arith, hex_from_bounds fuel (n / 16) (hex_digit (n % 16) ∷ rest)))

pub length-decimal-le : (n : ℕ) → length (decimal n) ≤ 20
length-decimal-le n = omega (arith, decimal_from_bounds 20 n [])

pub length-pointer-le : (a : ℕ) → length (pointer a) ≤ 18
length-pointer-le a =
    if_all (λ (t : Text). length t ≤ 18) (a == 0) _ _ (omega arith)
      (omega (arith, hex_from_bounds 16 a []))
