-- ===== src/Text.antt =====
-- Texts as lists of bytes, and what the program uses of `printf`: the conversions %lu, %u, %d and %p.

pub mod Buffer
pub mod Lengths
pub mod Number
pub mod RoundTrip
use Prim.Native.Char.{code}
use Prim.Native.String.{String}
use runtime_monitor.Base.{
  ℕ, zero, suc, ◌+◌, ◌-◌, ◌/◌, ◌%◌, ◌^◌, ltb, ◌==◌, ◌&&◌, Bool, true, false, if◌then◌else◌, List,
  [], ◌∷◌, ◌++◌,
}

abbrev pub Text : Type 0
Text = List ℕ

-- The bytes of a literal.
abbrev pub bytes : String → Text
bytes String.[] = []
bytes (String.◌∷◌ c s) = code c ∷ bytes s

-- The digits of `n` in front of `rest`; `fuel` bounds their number.
unfoldable pub decimal_from : ℕ → ℕ → Text → Text
decimal_from zero n rest = rest
decimal_from (suc fuel) n rest =
    let here = (48 + n % 10) ∷ rest in
    let more = decimal_from fuel (n / 10) here in if n / 10 == 0 then here else more

-- `%lu` and `%u`: a 64-bit word has at most 20 digits.
abbrev pub decimal : ℕ → Text
decimal n = decimal_from 20 n []

-- `%d`, of the bit pattern of an `int32_t`
abbrev pub signed_decimal : ℕ → Text
signed_decimal w = if ltb w (2 ^ 31) then decimal w else 45 ∷ decimal (2 ^ 32 - w)

abbrev pub hex_digit : ℕ → ℕ
hex_digit d = if ltb d 10 then 48 + d else 87 + d

unfoldable pub hex_from : ℕ → ℕ → Text → Text
hex_from zero n rest = rest
hex_from (suc fuel) n rest =
    let here = hex_digit (n % 16) ∷ rest in
    let more = hex_from fuel (n / 16) here in if n / 16 == 0 then here else more

-- `%p`: a NULL pointer has a text of its own.
abbrev pub pointer : ℕ → Text
pointer a = if a == 0 then bytes "(nil)" else bytes "0x" ++ hex_from 16 a []

-- `strcmp` against zero
abbrev pub same : Text → Text → Bool
same [] [] = true
same [] (d ∷ t) = false
same (c ∷ s) [] = false
same (c ∷ s) (d ∷ t) = c == d && same s t
