-- ===== src/Text/Buffer.antt =====
-- What the program uses of `snprintf`: texts put into a buffer one after another, as the reports and the
-- summaries of src/monitor_verifier.c and src/monitor_runtime.c are. `snprintf` yields the length of
-- the whole text, and stores as much of it as fits in front of the closing zero; a conversion that
-- fails does not occur with the program's formats.
use runtime_monitor.Base.{
  ℕ, zero, suc, ◌-◌, ◌≤◌, ◌<◌, ◌≡◌, refl, sym, ◌∙◌, ap, arith, Bool, true, false, leb, ltb, ◌==◌,
  if◌then◌else◌, List, [], ◌∷◌, ◌++◌, length, take, length-append, append_assoc, append-nil,
  if_true, if_false, dec_lt,
}
use runtime_monitor.Text.{Text}

-- One text, written to an array of `size` bytes and from there to standard error.
unfoldable pub printed : ℕ → Text → Text
printed size t = if length t == 0 then [] else if leb size (length t) then take (size - 1) t else t

-- A text at the position that `b` fills up to; `false` where the loop breaks.
unfoldable pub append : ℕ → Text → Text → Text × Bool
append size b t =
    if length t == 0
    then (b, false)
    else if leb (size - length b) (length t)
    then (b ++ take (size - length b - 1) t, false)
    else (b ++ t, true)

-- The loop over the lines.
unfoldable pub append_lines : ℕ → Text → List Text → Text
append_lines size b [] = b
append_lines size b (t ∷ ts) =
    let (b', more) = append size b t in
    let rest = append_lines size b' ts in
    if leb (size - 1) (length b) then b else if more then rest else b'

abbrev pub append_last : ℕ → Text → Text → Text
append_last size b t = if ltb (length b) (size - 1) then (append size b t).0 else b

-- A head, a line for each entry, and a last line.
unfoldable pub composed : ℕ → Text → List Text → Text → Text
composed size head lines last =
    if length head == 0
    then []
    else append_last size (append_lines size (printed size head) lines) last

-- The text that is meant.
abbrev pub concat : List Text → Text
concat [] = []
concat (t ∷ ts) = t ++ concat ts

abbrev pub AllFilled : List Text → Type 0
AllFilled [] = Unit
AllFilled (t ∷ ts) = (0 < length t) × AllFilled ts

take_long : (n : ℕ) (xs ys : Text) → n ≤ length xs → take n (xs ++ ys) ≡ take n xs
take_long zero xs ys h = refl
take_long (suc n) [] ys h = absurd (omega arith)
take_long (suc n) (x ∷ xs) ys h = ap (λ t. x ∷ t) (take_long n xs ys (omega arith))

take_past :
    (n : ℕ) (xs ys : Text) → length xs ≤ n → take n (xs ++ ys) ≡ xs ++ take (n - length xs) ys
take_past n [] ys h = ap (λ (k : ℕ). take k ys) (omega arith)
take_past zero (x ∷ xs) ys h = absurd (omega arith)
take_past (suc n) (x ∷ xs) ys h =
    let e : suc n - suc (length xs) ≡ n - length xs = omega arith in
    rw e (ap (λ t. x ∷ t) (take_past n xs ys (omega arith)))

pub take_all : (n : ℕ) (xs : Text) → length xs ≤ n → take n xs ≡ xs
take_all zero [] h = refl
take_all zero (x ∷ xs) h = absurd (omega arith)
take_all (suc n) [] h = refl
take_all (suc n) (x ∷ xs) h = ap (λ t. x ∷ t) (take_all n xs (omega arith))

pub length-take : (n : ℕ) (xs : Text) → length (take n xs) ≤ n
length-take zero xs = omega arith
length-take (suc n) [] = omega arith
length-take (suc n) (x ∷ xs) = omega (arith, length-take n xs)

take-take : (n : ℕ) (xs ys : Text) → take n (take n xs ++ ys) ≡ take n (xs ++ ys)
take-take zero xs ys = refl
take-take (suc n) [] ys = refl
take-take (suc n) (x ∷ xs) ys = ap (λ t. x ∷ t) (take-take n xs ys)

take_empty : (n : ℕ) (t : Text) → length t ≡ 0 → take n t ≡ []
take_empty n (c ∷ t) h = absurd (omega arith)
take_empty zero [] h = refl
take_empty (suc n) [] h = refl

pub printed_lem : (size : ℕ) (t : Text) → 0 < size → printed size t ≡ take (size - 1) t
unfolding printed
printed_lem size t h = ground (arith, take_all (size - 1) t, take_empty (size - 1) t)

-- One step of the loop, on a buffer with room.
append_stops :
    (size : ℕ) (b t rest : Text)
    → 0 < length t
    → length b < size - 1
    → size - length b ≤ length t
    → b ++ take (size - length b - 1) t ≡ take (size - 1) (b ++ (t ++ rest))
append_stops size b t rest p room long =
    let e : size - length b - 1 ≡ size - 1 - length b = omega arith in
    rw e (
      sym (
        take_past (size - 1) b (t ++ rest) (omega arith)
        ∙ ap (λ x. b ++ x) (take_long (size - 1 - length b) t rest (omega arith))))

append_short :
    (size : ℕ) (b t : Text)
    → 0 < length t
    → length t < size - length b
    → append size b t ≡ (b ++ t, true)
unfolding append
append_short size b t p h = ground arith

append_long :
    (size : ℕ) (b t : Text)
    → 0 < length t
    → size - length b ≤ length t
    → append size b t ≡ (b ++ take (size - length b - 1) t, false)
unfolding append
append_long size b t p h = ground arith

append_end :
    (size : ℕ) (b t : Text)
    → 0 < length t
    → length b < size - 1
    → (append size b t).0 ≡ take (size - 1) (b ++ t)
append_end size b t p room = elim (dec_lt (length t) (size - length b)) [
  | yes short ↦
      ap (λ (x : Text × Bool). x.0) (append_short size b t p short)
      ∙ sym (take_all (size - 1) (b ++ t) (omega (arith, length-append b t)))
  | no long ↦
      ap (λ (x : Text × Bool). x.0) (append_long size b t p (omega arith))
      ∙ append_stops size b t [] p room (omega arith)
      ∙ ap (λ x. take (size - 1) (b ++ x)) (append-nil t)
]

append_lines_cons :
    (size : ℕ) (b b' t : Text) (ts : List Text) (more : Bool)
    → length b < size - 1
    → append size b t ≡ (b', more)
    → append_lines size b (t ∷ ts) ≡ (if more then append_lines size b' ts else b')
unfolding append_lines
append_lines_cons size b b' t ts more h e =
    if_false (leb (size - 1) (length b)) b _ (ground arith)
    ∙ ap (λ (x : Text × Bool). if x.1 then append_lines size x.0 ts else x.0) e

append_lines_lem :
    (size : ℕ) (b : Text) (ts : List Text)
    → length b ≤ size - 1
    → AllFilled ts
    → append_lines size b ts ≡ take (size - 1) (b ++ concat ts)
unfolding append_lines
append_lines_lem size b [] h a =
    sym (take_all (size - 1) (b ++ []) (omega (arith, length-append b [])) ∙ append-nil b)
append_lines_lem size b (t ∷ ts) h (p, a) = elim (dec_lt (length b) (size - 1)) [
  | no full ↦
      if_true (leb (size - 1) (length b)) b _ (ground arith)
      ∙ sym (take_long (size - 1) b (t ++ concat ts) (omega arith) ∙ take_all (size - 1) b h)
  | yes room ↦ elim (dec_lt (length t) (size - length b)) [
    | yes short ↦
        append_lines_cons size b (b ++ t) t ts true room (append_short size b t p short)
        ∙ append_lines_lem size (b ++ t) ts (omega (arith, length-append b t)) a
        ∙ ap (take (size - 1)) (append_assoc b t (concat ts))
    | no long ↦
        append_lines_cons size b _ t ts false room (append_long size b t p (omega arith))
        ∙ append_stops size b t (concat ts) p room (omega arith)
  ]
]

-- The text composed in a buffer of `size` bytes is the text that is meant, cut after `size - 1` bytes.
pub composed_lem :
    (size : ℕ) (head last : Text) (lines : List Text)
    → 0 < size
    → 0 < length head
    → 0 < length last
    → AllFilled lines
    → composed size head lines last ≡ take (size - 1) (head ++ (concat lines ++ last))
unfolding composed
composed_lem size head last lines h hp hl a =
    if_false (length head == 0) _ _ (ground arith)
    ∙ ap (λ b. append_last size (append_lines size b lines) last) (printed_lem size head h)
    ∙ ap (λ b. append_last size b last)
        (append_lines_lem size (take (size - 1) head) lines (length-take (size - 1) head) a
          ∙ take-take (size - 1) head (concat lines))
    ∙ last_lem (head ++ concat lines)
    ∙ ap (take (size - 1)) (append_assoc head (concat lines) last)
  where
    last_lem : (b : Text) → append_last size (take (size - 1) b) last ≡ take (size - 1) (b ++ last)
    last_lem b = elim (dec_lt (length (take (size - 1) b)) (size - 1)) [
      | yes room ↦
          if_true (ltb (length (take (size - 1) b)) (size - 1)) _ _ (ground arith)
          ∙ append_end size (take (size - 1) b) last hl room
          ∙ take-take (size - 1) b last
      | no full ↦
          if_false (ltb (length (take (size - 1) b)) (size - 1)) _ _ (ground arith)
          ∙ sym (take_all (size - 1) (take (size - 1) b) (length-take (size - 1) b))
          ∙ sym (take_long (size - 1) (take (size - 1) b) last (omega arith))
          ∙ take-take (size - 1) b last
    ]
