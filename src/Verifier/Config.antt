-- ===== src/Verifier/Config.antt =====
-- src/monitor_verifier.c, `load_configuration`: the hold-time threshold from the environment.
use runtime_monitor.Base.{
  ℕ, ◌^◌, ◌≤◌, ◌<◌, ◌≡◌, refl, ◌∙◌, ap, arith, true, false, Option, none, some, [], ◌∷◌, ◌++◌,
  if◌then◌else◌, length, u64, if_true, if_false,
}
use runtime_monitor.Text.{Text, decimal}
use runtime_monitor.Text.Number.{
  is_digit, skip_spaces, skip_sign, starts_with_digit, refused, strtoull,
}
use runtime_monitor.Text.RoundTrip.{
  decimal-read, decimal-nonempty, decimal-refused, decimal-too_large,
}
use runtime_monitor.Verifier.State.{default_max_hold_ns}

abbrev pub accept : Text → ℕ
accept s = if refused s (strtoull s) then default_max_hold_ns else u64 (strtoull s).value

-- The argument is the value of MONITOR_MAX_HOLD_NS, if it is set.
abbrev pub load_configuration : Option Text → ℕ
load_configuration none = default_max_hold_ns
load_configuration (some []) = default_max_hold_ns
load_configuration (some (c ∷ s)) = accept (c ∷ s)

load_configuration-text : (s : Text) → 0 < length s → load_configuration (some s) ≡ accept s
load_configuration-text [] h = absurd (omega arith)
load_configuration-text (c ∷ s) h = refl

load_configuration-refused :
    (s : Text) → refused s (strtoull s) ≡ true → load_configuration (some s) ≡ default_max_hold_ns
load_configuration-refused [] h = refl
load_configuration-refused (c ∷ s) h = if_true (refused (c ∷ s) (strtoull (c ∷ s))) _ _ h

-- The texts that hold no 64-bit number: digits followed by something else, a number that is too large,
-- and no digit after the white space and the sign.
pub data Unreadable : Text → Type 0 where
  followed :
      (n c : ℕ) (rest : Text)
      → n < 10 ^ 20
      → is_digit c ≡ false
      → Unreadable (decimal n ++ c ∷ rest)
  too_large : (n : ℕ) → 2 ^ 64 ≤ n → n < 10 ^ 20 → Unreadable (decimal n)
  no_digit : (s : Text) → starts_with_digit (skip_sign (skip_spaces s)) ≡ false → Unreadable s

refused-Unreadable : (s : Text) → Unreadable s → refused s (strtoull s) ≡ true
refused-Unreadable _ (followed n c rest h stop) = decimal-refused n c rest h stop
refused-Unreadable _ (too_large n low h) = decimal-too_large n low h
refused-Unreadable _ (no_digit s h) = ap (refused s) (if_false _ _ _ h)

-- For every 64-bit number, the environment value that prints it in decimal sets the hold-time
-- threshold to that number.
pub threshold_round_trip : (n : ℕ) → n < 2 ^ 64 → load_configuration (some (decimal n)) ≡ n
threshold_round_trip n h =
    load_configuration-text (decimal n) (decimal-nonempty n)
    ∙ if_false (refused (decimal n) (strtoull (decimal n))) _ _ (decimal-read n h).0
    ∙ ap u64 (decimal-read n h).1
    ∙ omega (arith, h)

-- An environment value that starts with a decimal number of at most 20 digits and goes on with a byte
-- that is no digit, that is a number of at most 20 digits above the 64-bit range, or that has no digit
-- after its white space and sign, leaves the threshold at the default.
pub threshold_rejected :
    (s : Text) → Unreadable s → load_configuration (some s) ≡ default_max_hold_ns
threshold_rejected s u = load_configuration-refused s (refused-Unreadable s u)
