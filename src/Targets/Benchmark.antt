-- ===== src/Targets/Benchmark.antt =====
-- targets/benchmark_mutex/benchmark_mutex.c: the command line, the verdict and the report of `main`.
-- The workers between them are the program of Targets/Workers.
pub mod CommandLine
pub mod Verdict
use runtime_monitor.Base.{
  ℕ, zero, suc, ◌+◌, ◌-◌, ◌*◌, ◌/◌, ◌^◌, ◌≤◌, ◌<◌, ◌≡◌, Bool, true, false, not, ◌&&◌, ◌||◌, ltb,
  leb, ◌==◌, if◌then◌else◌, Option, none, some, List, [], ◌∷◌, ◌++◌, u64,
}
use runtime_monitor.Text.{Text, bytes, decimal, same}
use runtime_monitor.Text.Number.{strtoull, refused}
use runtime_monitor.Targets.Workers.{Program}

-- `PTHREAD_BARRIER_SERIAL_THREAD`, as the bit pattern of an `int`
abbrev pub serial_thread : ℕ
serial_thread = 2 ^ 32 - 1

abbrev pub max_threads : ℕ
max_threads = 64

pub record Options : Type 0 where
  pub threads : ℕ
  pub iterations : ℕ
  pub work : ℕ

abbrev pub default_options : Options
default_options = record { threads = 4; iterations = 250000; work = 0 }

abbrev pub parse_u64 : Text → Option ℕ
parse_u64 text = if refused text (strtoull text) then none else some (u64 (strtoull text).value)

-- What the parsed value of an option makes of the options so far; none is the usage text.
abbrev pub set_threads : Options → Option ℕ → Option Options
set_threads o none = none
set_threads o (some value) =
    if value == 0 || ltb max_threads value then none else some (record o { threads = value })

abbrev pub set_iterations : Options → Option ℕ → Option Options
set_iterations o none = none
set_iterations o (some value) = if value == 0 then none else some (record o { iterations = value })

abbrev pub set_work : Options → Option ℕ → Option Options
set_work o none = none
set_work o (some value) = if ltb (2 ^ 32 - 1) value then none else some (record o { work = value })

-- How `main` goes on from its arguments: with options, or at once with an exit status.
pub data Outcome : Type 0 where
  runs : Options → Outcome
  exits : ℕ → Outcome

abbrev pub is_help : Text → Bool
is_help a = same a (bytes "--help") || same a (bytes "-h")

abbrev pub without_value : Text → Outcome
without_value a = if is_help a then exits 0 else exits 1

abbrev pub go_on : (Options → Outcome) → Option Options → Outcome
go_on next none = exits 1
go_on next (some o) = next o

-- The loop over `argv`, from its second element. An option with a value is known by its name only if a
-- value follows.
unfoldable pub arguments : List Text → Options → Outcome
arguments [] o = runs o
arguments (a ∷ []) o = without_value a
arguments (a ∷ value ∷ rest) o =
    if same a (bytes "--threads")
    then go_on (arguments rest) (set_threads o (parse_u64 value))
    else (if same a (bytes "--iterations")
        then go_on (arguments rest) (set_iterations o (parse_u64 value))
        else (if same a (bytes "--work")
            then go_on (arguments rest) (set_work o (parse_u64 value))
            else without_value a))

-- The check that the number of operations does not overflow.
abbrev pub check_total : Outcome → Outcome
check_total (exits status) = exits status
check_total (runs o) = if ltb ((2 ^ 64 - 1) / o.threads) o.iterations then exits 1 else runs o

abbrev pub command_line : List Text → Outcome
command_line argv = check_total (arguments argv default_options)

abbrev pub expected : Options → ℕ
expected o = u64 (o.iterations * o.threads)

-- The workers that `main` creates.
abbrev pub program : Options → Program
program o = record {
  iterations = o.iterations;
  works = true;
  work = o.work;
  parties = o.threads + 1;
  has_barrier = true;
  lock_code = 2;
  unlock_code = 3;
}

-- The joins: what each call returned, and the result of its thread.
abbrev pub worker_failed : List (ℕ × ℕ) → Bool
worker_failed [] = false
worker_failed ((rc, result) ∷ joins) = (not (rc == 0) || not (result == 0)) || worker_failed joins

abbrev pub elapsed : ℕ → ℕ → ℕ
elapsed start_ns end_ns = if leb start_ns end_ns then end_ns - start_ns else 0

abbrev pub status_ok : Options → ℕ → List (ℕ × ℕ) → Bool
status_ok o counter joins = counter == expected o && not (worker_failed joins)

abbrev pub exit_status : Options → ℕ → List (ℕ × ℕ) → ℕ
exit_status o counter joins = if status_ok o counter joins then 0 else 1

-- How many threads are created: the loop stops at the first failure.
abbrev pub created : List ℕ → ℕ
created [] = 0
created (rc ∷ rcs) = let rest = created rcs in if rc == 0 then suc rest else 0

-- The steps before the joins: the barrier, the array, the threads and the wait of `main`, by the results
-- of their calls.
abbrev pub launched :
    Options → (barrier_rc : ℕ) (allocated : Bool) (create_rcs : List ℕ) (wait_rc : ℕ) → Bool
launched o barrier_rc allocated create_rcs wait_rc =
    barrier_rc == 0
    && (allocated
        && (created create_rcs == o.threads && (wait_rc == 0 || wait_rc == serial_thread)))

-- What `main` returns after its arguments were accepted.
abbrev pub main_status :
    Options
    → (barrier_rc : ℕ) (allocated : Bool) (create_rcs : List ℕ) (wait_rc counter : ℕ) → List (ℕ × ℕ)
    → ℕ
main_status o barrier_rc allocated create_rcs wait_rc counter joins =
    if launched o barrier_rc allocated create_rcs wait_rc then exit_status o counter joins else 1

abbrev pub verdict : Bool → Text
verdict ok = if ok then bytes "PASS" else bytes "FAIL"

-- What `main` prints at the end.
abbrev pub report : Options → (start_ns end_ns counter : ℕ) → List (ℕ × ℕ) → Text
report o start_ns end_ns counter joins =
    bytes "=== Mutex benchmark ===\n"
    ++ bytes "Threads             : "
    ++ decimal o.threads
    ++ bytes "\n"
    ++ bytes "Iterations/thread   : "
    ++ decimal o.iterations
    ++ bytes "\n"
    ++ bytes "Total critical ops  : "
    ++ decimal (expected o)
    ++ bytes "\n"
    ++ bytes "Work/critical op    : "
    ++ decimal o.work
    ++ bytes "\n"
    ++ bytes "Elapsed             : "
    ++ decimal (elapsed start_ns end_ns)
    ++ bytes " ns\n"
    ++ bytes "Expected counter    : "
    ++ decimal (expected o)
    ++ bytes "\n"
    ++ bytes "Actual counter      : "
    ++ decimal counter
    ++ bytes "\n"
    ++ bytes "["
    ++ verdict (status_ok o counter joins)
    ++ bytes "] Benchmark correctness\n"
    ++ bytes "BENCH_RESULT threads="
    ++ decimal o.threads
    ++ bytes " iterations="
    ++ decimal o.iterations
    ++ bytes " total_ops="
    ++ decimal (expected o)
    ++ bytes " work="
    ++ decimal o.work
    ++ bytes " elapsed_ns="
    ++ decimal (elapsed start_ns end_ns)
    ++ bytes " counter="
    ++ decimal counter
    ++ bytes " expected="
    ++ decimal (expected o)
    ++ bytes " status="
    ++ verdict (status_ok o counter joins)
    ++ bytes "\n"
