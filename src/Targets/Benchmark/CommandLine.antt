-- ===== src/Targets/Benchmark/CommandLine.antt =====
-- targets/benchmark_mutex/benchmark_mutex.c: what `main` accepts as its arguments.
use runtime_monitor.Base.{
  ℕ, ◌-◌, ◌*◌, ◌/◌, ◌^◌, ◌≤◌, ◌<◌, ◌≡◌, ap, ◌∙◌, arith, ltb, ◌==◌, ◌||◌, if_all, if_cases, if_false,
  Option, none, some, List, [], ◌∷◌, u64, subst,
}
use native.Mathlib.Nat.{le-div_iff_mul-le}
use runtime_monitor.Text.{Text, bytes, decimal, same}
use runtime_monitor.Text.Number.{strtoull, refused}
use runtime_monitor.Text.RoundTrip.{decimal-read}
use runtime_monitor.Targets.Benchmark.{
  Options, default_options, Outcome, runs, exits, parse_u64, set_threads, set_iterations, set_work,
  without_value, is_help, go_on, arguments, check_total, command_line, expected, max_threads,
}

-- Options in range.
abbrev pub OptionsOk : Options → Type 0
OptionsOk o =
    (0 < o.threads)
    × (o.threads ≤ 64)
    × (0 < o.iterations)
    × (o.iterations < 2 ^ 64)
    × (o.work < 2 ^ 32)

abbrev OutcomeOk : Outcome → Type 0
OutcomeOk (runs o) = OptionsOk o
OutcomeOk (exits status) = status ≤ 1

abbrev SettingOk : Option Options → Type 0
SettingOk none = Unit
SettingOk (some o) = OptionsOk o

abbrev WordOk : Option ℕ → Type 0
WordOk none = Unit
WordOk (some n) = n < 2 ^ 64

parse_u64-WordOk : (s : Text) → WordOk (parse_u64 s)
parse_u64-WordOk s = if_all WordOk (refused s (strtoull s)) _ _ tt (omega arith)

set_threads-Ok : (o : Options) (v : Option ℕ) → OptionsOk o → WordOk v → SettingOk (set_threads o v)
set_threads-Ok o none ok w = tt
set_threads-Ok o (some v) ok w =
    if_cases SettingOk (v == 0 || ltb max_threads v) _ _ (λ bad. tt)
      (λ good. (ground arith, ground arith, ok.2, ok.3, ok.4))

set_iterations-Ok :
    (o : Options) (v : Option ℕ) → OptionsOk o → WordOk v → SettingOk (set_iterations o v)
set_iterations-Ok o none ok w = tt
set_iterations-Ok o (some v) ok w =
    if_cases SettingOk (v == 0) _ _ (λ bad. tt) (λ good. (ok.0, ok.1, ground arith, w, ok.4))

set_work-Ok : (o : Options) (v : Option ℕ) → OptionsOk o → WordOk v → SettingOk (set_work o v)
set_work-Ok o none ok w = tt
set_work-Ok o (some v) ok w =
    if_cases SettingOk (ltb (2 ^ 32 - 1) v) _ _ (λ bad. tt)
      (λ good. (ok.0, ok.1, ok.2, ok.3, ground arith))

without_value-Ok : (a : Text) → OutcomeOk (without_value a)
without_value-Ok a = if_all OutcomeOk (is_help a) _ _ (omega arith) (omega arith)

go_on-Ok :
    (next : Options → Outcome) (s : Option Options)
    → ((o : Options) → OptionsOk o → OutcomeOk (next o))
    → SettingOk s
    → OutcomeOk (go_on next s)
go_on-Ok next none h ok = omega arith
go_on-Ok next (some o) h ok = h o ok

arguments-Ok : (argv : List Text) (o : Options) → OptionsOk o → OutcomeOk (arguments argv o)
unfolding arguments
arguments-Ok [] o ok = ok
arguments-Ok (a ∷ []) o ok = without_value-Ok a
arguments-Ok (a ∷ v ∷ rest) o ok =
    if_all OutcomeOk (same a (bytes "--threads")) _ _
      (go_on-Ok (arguments rest) _ (arguments-Ok rest) (set_threads-Ok o _ ok (parse_u64-WordOk v)))
      (if_all OutcomeOk (same a (bytes "--iterations")) _ _
        (go_on-Ok (arguments rest) _ (arguments-Ok rest)
          (set_iterations-Ok o _ ok (parse_u64-WordOk v)))
        (if_all OutcomeOk (same a (bytes "--work")) _ _
          (go_on-Ok (arguments rest) _ (arguments-Ok rest)
            (set_work-Ok o _ ok (parse_u64-WordOk v)))
          (without_value-Ok a)))

abbrev CheckedOk : Outcome → Type 0
CheckedOk (runs o) = OptionsOk o × (o.iterations * o.threads < 2 ^ 64)
CheckedOk (exits status) = status ≤ 1

product_in_range : (n t : ℕ) → 0 < t → n ≤ (2 ^ 64 - 1) / t → n * t < 2 ^ 64
product_in_range n t pos h =
    omega (arith, (le-div_iff_mul-le {k = t} {x = n} {y = 2 ^ 64 - 1} pos).0 h)

check_total-Ok : (r : Outcome) → OutcomeOk r → CheckedOk (check_total r)
check_total-Ok (exits status) ok = ok
check_total-Ok (runs o) ok =
    if_cases CheckedOk (ltb ((2 ^ 64 - 1) / o.threads) o.iterations) _ _ (λ large. omega arith)
      (λ small. (ok, product_in_range o.iterations o.threads ok.0 (ground arith)))

command_line-Ok : (argv : List Text) → CheckedOk (command_line argv)
command_line-Ok argv = check_total-Ok (arguments argv default_options) (
    arguments-Ok argv default_options
      (omega arith, omega arith, omega arith, omega arith, omega arith))

-- For every list of command-line arguments that `main` accepts, the options it goes on with are in
-- range: between 1 and 64 threads, between 1 and 2^64 - 1 iterations and less than 2^32 rounds of
-- work. The product of threads and iterations fits into 64 bits, so the expected count is that product
-- without wrap-around.
pub accepted_in_range :
    (argv : List Text) (o : Options)
    → command_line argv ≡ runs o
    → OptionsOk o × (o.iterations * o.threads < 2 ^ 64) × (expected o ≡ o.iterations * o.threads)
accepted_in_range argv o e = (ok.0, ok.1, omega (arith, ok.1))
  where
    ok : CheckedOk (runs o)
    ok = subst CheckedOk e (command_line-Ok argv)

parse_u64-decimal : (n : ℕ) → n < 2 ^ 64 → parse_u64 (decimal n) ≡ some n
parse_u64-decimal n h =
    if_false (refused (decimal n) (strtoull (decimal n))) _ _ (decimal-read n h).0
    ∙ ap some (ap u64 (decimal-read n h).1 ∙ omega (arith, h))

arguments-threads :
    (o : Options) (t : ℕ) (rest : List Text)
    → 0 < t
    → t ≤ 64
    → arguments (bytes "--threads" ∷ decimal t ∷ rest) o ≡ arguments rest (record o { threads = t })
unfolding arguments
arguments-threads o t rest low high =
    ap (λ v. go_on (arguments rest) (set_threads o v)) (parse_u64-decimal t (omega (arith, high)))
    ∙ ap (go_on (arguments rest)) (if_false (t == 0 || ltb max_threads t) _ _ (ground arith))

arguments-iterations :
    (o : Options) (n : ℕ) (rest : List Text)
    → 0 < n
    → n < 2 ^ 64
    → arguments (bytes "--iterations" ∷ decimal n ∷ rest) o
      ≡ arguments rest (record o { iterations = n })
unfolding arguments
arguments-iterations o n rest low high =
    ap (λ v. go_on (arguments rest) (set_iterations o v)) (parse_u64-decimal n high)
    ∙ ap (go_on (arguments rest)) (if_false (n == 0) _ _ (ground arith))

arguments-work :
    (o : Options) (w : ℕ) (rest : List Text)
    → w < 2 ^ 32
    → arguments (bytes "--work" ∷ decimal w ∷ rest) o ≡ arguments rest (record o { work = w })
unfolding arguments
arguments-work o w rest high =
    ap (λ v. go_on (arguments rest) (set_work o v)) (parse_u64-decimal w (omega (arith, high)))
    ∙ ap (go_on (arguments rest)) (if_false (ltb (2 ^ 32 - 1) w) _ _ (ground arith))

-- The command line with these three options.
abbrev pub options_line : Options → List Text
options_line o =
    bytes "--threads"
    ∷ decimal o.threads
    ∷ bytes "--iterations"
    ∷ decimal o.iterations
    ∷ bytes "--work"
    ∷ decimal o.work
    ∷ []

arguments-options_line : (o d : Options) → OptionsOk o → arguments (options_line o) d ≡ runs o
unfolding arguments
arguments-options_line o d ok =
    arguments-threads d o.threads
      (bytes "--iterations" ∷ decimal o.iterations ∷ bytes "--work" ∷ decimal o.work ∷ []) ok.0 ok.1
    ∙ arguments-iterations (record d { threads = o.threads }) o.iterations
        (bytes "--work" ∷ decimal o.work ∷ []) ok.2 ok.3
    ∙ arguments-work (record d { threads = o.threads; iterations = o.iterations }) o.work [] ok.4

-- A command line that names threads, iterations and work, each in range and with a product in range,
-- is accepted with exactly these options: what is printed in decimal is read again as it was.
pub printed_options :
    (o : Options)
    → OptionsOk o
    → o.iterations * o.threads < 2 ^ 64
    → command_line (options_line o) ≡ runs o
printed_options o ok small =
    ap check_total (arguments-options_line o default_options ok)
    ∙ if_false (ltb ((2 ^ 64 - 1) / o.threads) o.iterations) _ _ (ground (arith, le_quotient))
  where
    le_quotient : o.iterations ≤ (2 ^ 64 - 1) / o.threads
    le_quotient =
        (le-div_iff_mul-le {k = o.threads} {x = o.iterations} {y = 2 ^ 64 - 1} ok.0).1
          (omega (arith, small))
