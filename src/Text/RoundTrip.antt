-- ===== src/Text/RoundTrip.antt =====
-- A printed number, read by `strtoull`.
use runtime_monitor.Base.{
  ℕ, zero, suc, ◌+◌, ◌-◌, ◌/◌, ◌%◌, ◌^◌, ◌≤◌, ◌<◌, ◌≡◌, refl, sym, ◌∙◌, ap, arith, Bool, true,
  false, ltb, ◌==◌, if◌then◌else◌, subst, [], ◌∷◌, ◌++◌, length, ◌||◌, not, length-append, if_all,
  if_true, if_false, append-nil,
}
use runtime_monitor.Text.{Text, decimal_from, decimal}
use runtime_monitor.Text.Number.{
  parsed, is_space, is_digit, is_minus, skip_spaces, skip_sign, digits, starts_with_digit, strtoull,
  refused, digits-decimal_from,
}

decimal_from-append :
    (fuel n : ℕ) (rest more : Text)
    → decimal_from fuel n (rest ++ more) ≡ decimal_from fuel n rest ++ more
unfolding decimal_from
decimal_from-append zero n rest more = refl
decimal_from-append (suc fuel) n rest more =
    both_branches (n / 10 == 0) _ _ _
      (decimal_from-append fuel (n / 10) ((48 + n % 10) ∷ rest) more)
  where
    both_branches :
        (b : Bool) (x y z : Text)
        → z ≡ y ++ more
        → (if b then x ++ more else z) ≡ (if b then x else y) ++ more
    both_branches true x y z e = refl
    both_branches false x y z e = e

decimal_from-starts :
    (fuel n : ℕ) (rest : Text) → starts_with_digit (decimal_from (suc fuel) n rest) ≡ true
unfolding decimal_from
decimal_from-starts zero n rest =
    if_all (λ t. starts_with_digit t ≡ true) (n / 10 == 0) _ _ (ground arith) (ground arith)
decimal_from-starts (suc fuel) n rest =
    if_all (λ t. starts_with_digit t ≡ true) (n / 10 == 0) _ _ (ground arith)
      (decimal_from-starts fuel (n / 10) _)

digits_stop : (n : ℕ) (s : Text) → starts_with_digit s ≡ false → digits n s ≡ (n, s)
unfolding digits
digits_stop n [] h = refl
digits_stop n (c ∷ s) h = if_false (is_digit c) _ _ h

skip_spaces-digit : (s : Text) → starts_with_digit s ≡ true → skip_spaces s ≡ s
unfolding skip_spaces
skip_spaces-digit [] h = refl
skip_spaces-digit (c ∷ s) h = if_false (is_space c) _ _ (ground arith)

skip_sign-digit : (s : Text) → starts_with_digit s ≡ true → skip_sign s ≡ s
skip_sign-digit [] h = refl
skip_sign-digit (c ∷ s) h = if_false (c == 43 || c == 45) _ _ (ground arith)

is_minus-digit : (s : Text) → starts_with_digit s ≡ true → is_minus s ≡ false
is_minus-digit [] h = refl
is_minus-digit (c ∷ s) h = ground arith

-- A text that starts with a digit is read from there.
strtoull-digit : (s : Text) → starts_with_digit s ≡ true → strtoull s ≡ parsed s false (digits 0 s)
strtoull-digit s h = rw (skip_spaces-digit s h, skip_sign-digit s h, h, is_minus-digit s h) refl

pub strtoull-decimal :
    (n : ℕ) (rest : Text)
    → n < 10 ^ 20
    → starts_with_digit rest ≡ false
    → strtoull (decimal n ++ rest) ≡ parsed (decimal n ++ rest) false (n, rest)
strtoull-decimal n rest bound stop =
    strtoull-digit _ (ap starts_with_digit (sym whole) ∙ decimal_from-starts 19 n rest)
    ∙ ap (parsed (decimal n ++ rest) false)
        (ap (digits 0) (sym whole) ∙ digits-decimal_from 19 n rest bound ∙ digits_stop n rest stop)
  where
    whole : decimal_from 20 n rest ≡ decimal n ++ rest
    whole = decimal_from-append 20 n [] rest

parsed_in_range :
    (s rest : Text) (n : ℕ)
    → n < 2 ^ 64
    → parsed s false (n, rest)
      ≡ record { value = n; failed = false; consumed = length s - length rest }
parsed_in_range s rest n h = if_true (ltb n (2 ^ 64)) _ _ (ground arith)

strtoull-decimal_whole :
    (n : ℕ) → n < 10 ^ 20 → strtoull (decimal n) ≡ parsed (decimal n) false (n, [])
strtoull-decimal_whole n h =
    ap strtoull (sym (append-nil (decimal n)))
    ∙ strtoull-decimal n [] h refl
    ∙ ap (λ s. parsed s false (n, [])) (append-nil (decimal n))

pub decimal-nonempty : (n : ℕ) → 0 < length (decimal n)
decimal-nonempty n = some_digit (decimal n) (decimal_from-starts 19 n [])
  where
    some_digit : (s : Text) → starts_with_digit s ≡ true → 0 < length s
    some_digit [] h = absurd (cc)
    some_digit (c ∷ s) h = omega arith

-- The whole text of a 64-bit word is read as that word.
pub decimal-read :
    (n : ℕ)
    → n < 2 ^ 64
    → (refused (decimal n) (strtoull (decimal n)) ≡ false) × ((strtoull (decimal n)).value ≡ n)
decimal-read n h =
    subst (λ p. (refused (decimal n) p ≡ false) × (p.value ≡ n)) (sym read)
      (full (length (decimal n)) (decimal-nonempty n), refl)
  where
    read :
        strtoull (decimal n)
        ≡ record { value = n; failed = false; consumed = length (decimal n) - 0 }
    read = strtoull-decimal_whole n (omega (arith, h)) ∙ parsed_in_range (decimal n) [] n h

    full : (m : ℕ) → 0 < m → (m - 0 == 0 || not (m - 0 == m)) ≡ false
    full m p = ground arith

-- A byte that is no digit after the digits makes a text refused.
pub decimal-refused :
    (n c : ℕ) (rest : Text)
    → n < 10 ^ 20
    → is_digit c ≡ false
    → refused (decimal n ++ c ∷ rest) (strtoull (decimal n ++ c ∷ rest)) ≡ true
decimal-refused n c rest h stop =
    ap (refused text) (strtoull-decimal n (c ∷ rest) h stop)
    ∙ if_all (λ p. refused text p ≡ true) (ltb n (2 ^ 64)) _ _
        (left_over (length text) (length rest)
          (omega (arith, length-append (decimal n) (c ∷ rest))))
        refl
  where
    text : Text
    text = decimal n ++ c ∷ rest

    left_over : (m k : ℕ) → k < m → (m - suc k == 0 || not (m - suc k == m)) ≡ true
    left_over m k p = ground arith

-- So does a value that 64 bits cannot hold.
pub decimal-too_large :
    (n : ℕ) → 2 ^ 64 ≤ n → n < 10 ^ 20 → refused (decimal n) (strtoull (decimal n)) ≡ true
decimal-too_large n low h =
    ap (refused (decimal n))
      (strtoull-decimal_whole n h ∙ if_false (ltb n (2 ^ 64)) _ _ (ground arith))
