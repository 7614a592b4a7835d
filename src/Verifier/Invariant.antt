-- ===== src/Verifier/Invariant.antt =====
-- The invariant of the verifier's tables and of the two counters that count threads.
use runtime_monitor.Base.{
  ℕ, ◌+◌, ◌-◌, ◌%◌, ◌^◌, ◌≤◌, ◌<◌, ◌≡◌, ◌≢◌, refl, sym, ◌∙◌, ap, arith, Bool, true, false, not,
  List, ◌==◌, if◌then◌else◌, bit, length, get_or, set, count, length-set, get_or-set,
  get_or-set_all, get_or_of_le, count-set, count-le, dec_lt,
}
use runtime_monitor.Verifier.State.{
  Verifier, ThreadState, MutexState, zero_thread, zero_mutex, max_threads, max_mutexes, thread_at,
}
use runtime_monitor.Verifier.Held.Bounds.{ThreadHeldOk, cleared-HeldOk}
pub mod Threads
pub mod Gaps
pub mod Lookups
pub mod Handlers
pub mod Run

abbrev pub is_waiting : ThreadState → Bool
is_waiting t = not (t.waiting_mutex == 0)

abbrev pub is_tainted : ThreadState → Bool
is_tainted t = t.trace_tainted

-- One slot of the thread table.
pub record ThreadOk (t : ThreadState) : Type 0 where
  pub held : ThreadHeldOk t
  pub free_idle : t.used ≡ false → t.waiting_mutex ≡ 0
  pub free_whole : t.used ≡ false → t.trace_tainted ≡ false

pub zero_thread-ThreadOk : ThreadOk zero_thread
zero_thread-ThreadOk = record {
  held = cleared-HeldOk;
  free_idle = λ e. refl;
  free_whole = λ e. refl;
}

abbrev pub slot_of : List ThreadState → ℕ → ThreadState
slot_of ts i = get_or ts i zero_thread

-- No two slots in use have the same thread, or the same mutex; the counters count the threads that
-- wait and those whose stream has a gap.
pub record Tables (ts : List ThreadState) (ms : List MutexState) (waiting tainted : ℕ)
    : Type 0 where
  pub threads : length ts ≡ max_threads
  pub mutexes : length ms ≡ max_mutexes
  pub each : (i : ℕ) → ThreadOk (slot_of ts i)
  pub thread_unique :
      (i j : ℕ)
      → (slot_of ts i).used ≡ true
      → (slot_of ts j).used ≡ true
      → (slot_of ts i).thread_id ≡ (slot_of ts j).thread_id
      → i ≡ j
  pub mutex_unique :
      (i j : ℕ)
      → (get_or ms i zero_mutex).used ≡ true
      → (get_or ms j zero_mutex).used ≡ true
      → (get_or ms i zero_mutex).address ≡ (get_or ms j zero_mutex).address
      → i ≡ j
  pub waiting_counted : waiting ≡ count is_waiting ts
  pub tainted_counted : tainted ≡ count is_tainted ts

abbrev pub IsValid : Verifier → Type 0
IsValid v = Tables v.threads v.mutexes v.waiting_thread_count v.stats.tainted_thread_streams

-- A slot in use lies in the table.
pub lt_of_used : (ts : List ThreadState) (i : ℕ) → (slot_of ts i).used ≡ true → i < length ts
lt_of_used ts i u = elim (dec_lt i (length ts)) [
  | yes p ↦ p
  | no p ↦ absurd (ground (arith, get_or_of_le ts i zero_thread))
]

module _ {ts : List ThreadState} {ms : List MutexState} {w n : ℕ} (v : Tables ts ms w n) where
  -- Slot `i` changes to a thread `t` that no other slot is in use for; the counters follow.
  pub replace-Tables :
      (i : ℕ) (t : ThreadState) (w' n' : ℕ)
      → i < length ts
      → ((j : ℕ) → (slot_of ts j).used ≡ true → (slot_of ts j).thread_id ≡ t.thread_id → j ≡ i)
      → ThreadOk t
      → w' + bit (is_waiting (slot_of ts i)) ≡ w + bit (is_waiting t)
      → n' + bit (is_tainted (slot_of ts i)) ≡ n + bit (is_tainted t)
      → Tables (set ts i t) ms w' n'
  replace-Tables i t w' n' p only ok we ne = record {
    threads = length-set ts i t ∙ v.threads;
    mutexes = v.mutexes;
    each = get_or-set_all ThreadOk ts i t zero_thread ok v.each;
    thread_unique = λ a b ua ub e. ground (
      arith,
      get_or-set ts i a t zero_thread p,
      get_or-set ts i b t zero_thread p,
      v.thread_unique a b,
      only a,
      only b,
    );
    mutex_unique = v.mutex_unique;
    waiting_counted = omega (arith, v.waiting_counted, count-set is_waiting ts i t zero_thread p);
    tainted_counted = omega (arith, v.tainted_counted, count-set is_tainted ts i t zero_thread p);
  }

  -- Slot `i`, in use, changes to a thread of the same identity.
  pub set-Tables :
      (i : ℕ) (t : ThreadState) (w' n' : ℕ)
      → (slot_of ts i).used ≡ true
      → t.thread_id ≡ (slot_of ts i).thread_id
      → ThreadOk t
      → w' + bit (is_waiting (slot_of ts i)) ≡ w + bit (is_waiting t)
      → n' + bit (is_tainted (slot_of ts i)) ≡ n + bit (is_tainted t)
      → Tables (set ts i t) ms w' n'
  set-Tables i t w' n' u same ok we ne =
      replace-Tables i t w' n' (lt_of_used ts i u) (λ j uj e. v.thread_unique j i uj u (e ∙ same))
        ok we ne

  -- The other table changes, with the same keys in use.
  pub mutexes-Tables :
      (ms' : List MutexState)
      → length ms' ≡ length ms
      → ((i j : ℕ)
          → (get_or ms' i zero_mutex).used ≡ true
          → (get_or ms' j zero_mutex).used ≡ true
          → (get_or ms' i zero_mutex).address ≡ (get_or ms' j zero_mutex).address
          → i ≡ j)
      → Tables ts ms' w n
  mutexes-Tables ms' same unique = record {
    threads = v.threads;
    mutexes = same ∙ v.mutexes;
    each = v.each;
    thread_unique = v.thread_unique;
    mutex_unique = unique;
    waiting_counted = v.waiting_counted;
    tainted_counted = v.tainted_counted;
  }

  pub waiting-le : w ≤ max_threads
  waiting-le = omega (arith, v.waiting_counted, v.threads, count-le is_waiting ts)

  pub tainted-le : n ≤ max_threads
  tainted-le = omega (arith, v.tainted_counted, v.threads, count-le is_tainted ts)
