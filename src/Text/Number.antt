-- ===== src/Text/Number.antt =====
-- What the program uses of `strtoull` with base 10: white space, a sign, digits, and how far it read.
use runtime_monitor.Base.{
  ℕ, zero, suc, ◌+◌, ◌-◌, ◌*◌, ◌/◌, ◌%◌, ◌^◌, ◌<◌, ◌≡◌, ◌∙◌, ap, arith, Bool, true, false, ◌&&◌,
  ◌||◌, leb, ltb, ◌==◌, if◌then◌else◌, not, subst, if_cases, [], ◌∷◌, length, if_all, if_true, u64,
}
use native.Mathlib.Nat.{pow-succ'}
use runtime_monitor.Text.{Text, decimal_from}

-- The value, whether `errno` was set, and how many bytes were read.
pub record Parsed : Type 0 where
  pub value : ℕ
  pub failed : Bool
  pub consumed : ℕ

abbrev pub is_space : ℕ → Bool
is_space c = c == 32 || (leb 9 c && leb c 13)

abbrev pub is_digit : ℕ → Bool
is_digit c = leb 48 c && leb c 57

-- White space in front.
unfoldable pub skip_spaces : Text → Text
skip_spaces [] = []
skip_spaces (c ∷ s) = let rest = skip_spaces s in if is_space c then rest else c ∷ s

abbrev pub is_minus : Text → Bool
is_minus [] = false
is_minus (c ∷ s) = c == 45

abbrev pub skip_sign : Text → Text
skip_sign [] = []
skip_sign (c ∷ s) = if c == 43 || c == 45 then s else c ∷ s

-- The number that the digits in front make, after `n`, and what follows them.
unfoldable pub digits : ℕ → Text → ℕ × Text
digits n [] = (n, [])
digits n (c ∷ s) =
    let rest = digits (n * 10 + (c - 48)) s in if is_digit c then rest else (n, c ∷ s)

abbrev pub starts_with_digit : Text → Bool
starts_with_digit [] = false
starts_with_digit (c ∷ s) = is_digit c

-- A minus sign negates modulo 2^64.
abbrev pub signed_value : Bool → ℕ → ℕ
signed_value negative n = if negative then u64 (2 ^ 64 - n) else n

-- A number above `ULLONG_MAX` yields it, with ERANGE.
abbrev pub parsed : Text → Bool → ℕ × Text → Parsed
parsed s negative (n, rest) =
    if ltb n (2 ^ 64)
    then record {
      value = signed_value negative n;
      failed = false;
      consumed = length s - length rest;
    }
    else record { value = 2 ^ 64 - 1; failed = true; consumed = length s - length rest }

-- Without a digit nothing is read.
abbrev pub strtoull : Text → Parsed
strtoull s =
    let signed = skip_spaces s in
    let body = skip_sign signed in
    if starts_with_digit body
    then parsed s (is_minus signed) (digits 0 body)
    else record { value = 0; failed = false; consumed = 0 }

-- The test of the program's two readers: `errno`, nothing read, or text left over.
abbrev pub refused : Text → Parsed → Bool
refused s p = p.failed || (p.consumed == 0 || not (p.consumed == length s))

is_digit-digit : (d : ℕ) → d < 10 → is_digit (48 + d) ≡ true
is_digit-digit d h = ground arith

-- One digit read.
digits-digit :
    (n d : ℕ) (rest : Text) → d < 10 → digits n ((48 + d) ∷ rest) ≡ digits (n * 10 + d) rest
unfolding digits
digits-digit n d rest h =
    if_true (is_digit (48 + d)) _ _ (is_digit-digit d h) ∙ ap (λ m. digits m rest) (omega arith)

/10-zero : (n : ℕ) → n / 10 == 0 ≡ true → 0 * 10 + n % 10 ≡ n
/10-zero n e = ground arith

<_10-/10 : (n m : ℕ) → n < 10 * m → n / 10 < m
<_10-/10 n m h = omega arith

digits-last_digit : (n : ℕ) (rest : Text) → digits (n / 10) ((48 + n % 10) ∷ rest) ≡ digits n rest
digits-last_digit n rest =
    digits-digit (n / 10) (n % 10) rest (omega arith) ∙ ap (λ m. digits m rest) (omega arith)

-- Reading on over the digits of `n`, printed in front of a text.
pub digits-decimal_from :
    (fuel n : ℕ) (rest : Text)
    → n < 10 ^ suc fuel
    → digits 0 (decimal_from (suc fuel) n rest) ≡ digits n rest
unfolding decimal_from
digits-decimal_from zero n rest h =
    if_all (λ t. digits 0 t ≡ digits n rest) (n / 10 == 0) _ _ only only
  where
    only : digits 0 ((48 + n % 10) ∷ rest) ≡ digits n rest
    only = digits-digit 0 (n % 10) rest (omega arith) ∙ ap (λ m. digits m rest) (omega (arith, h))
digits-decimal_from (suc fuel) n rest h =
    if_cases (λ t. digits 0 t ≡ digits n rest) (n / 10 == 0) _ _
      (λ small.
        digits-digit 0 (n % 10) rest (omega arith) ∙ ap (λ m. digits m rest) (/10-zero n small))
      (λ large.
        digits-decimal_from fuel (n / 10) _
          (<_10-/10 n _ (subst (λ m. n < m) (pow-succ' 10 (suc fuel)) h))
        ∙ digits-last_digit n rest)
