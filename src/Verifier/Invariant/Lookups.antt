-- ===== src/Verifier/Invariant/Lookups.antt =====
-- src/monitor_verifier.c, `find_thread` and `find_mutex`: the slots that they return.
use runtime_monitor.Base.{
  ℕ, ◌<◌, ◌≡◌, refl, sym, ◌∙◌, ap, arith, Bool, true, false, Option, none, some, length, get_or,
  set, length-set, get_or-set, get_or-set_self, get_or_of_le, dec_lt,
}
use runtime_monitor.Verifier.State.{
  Verifier, ThreadState, MutexState, zero_thread, zero_mutex, thread_at, mutex_at, set_thread,
  set_mutex,
}
use runtime_monitor.Verifier.Slots.{Slot, found, missing}
use runtime_monitor.Verifier.Slots.Laws.{Searched, scan-Searched}
use runtime_monitor.Verifier.Lookup.{
  fresh_thread, fresh_mutex, claim_thread, claim_mutex, find_thread, find_mutex,
}
use runtime_monitor.Verifier.Held.Bounds.{cleared-HeldOk}
use runtime_monitor.Verifier.Invariant.{
  ThreadOk, IsValid, lt_of_used, replace-Tables, mutexes-Tables,
}
use runtime_monitor.Verifier.Invariant.Threads.{Live}

abbrev pub thread_used : ThreadState → Bool
thread_used t = t.used

abbrev pub thread_key : ThreadState → ℕ
thread_key t = t.thread_id

abbrev pub mutex_used : MutexState → Bool
mutex_used m = m.used

abbrev pub mutex_key : MutexState → ℕ
mutex_key m = m.address

-- What a lookup of a thread leaves: a valid state, and the thread's slot where there is one.
abbrev pub ThreadFound : ℕ → Option ℕ × Verifier → Type 0
ThreadFound id (none, v) = IsValid v
ThreadFound id (some i, v) = Live v i × ((thread_at v i).thread_id ≡ id)

fresh_thread-ThreadOk : (id : ℕ) → ThreadOk (fresh_thread id)
fresh_thread-ThreadOk id = record {
  held = cleared-HeldOk;
  free_idle = λ e. refl;
  free_whole = λ e. refl;
}

claim_thread-ThreadFound :
    (v : Verifier) (id : ℕ) (create : Bool) (s : Slot)
    → IsValid v
    → Searched thread_used thread_key zero_thread id v.threads s
    → ThreadFound id (claim_thread v id create s)
claim_thread-ThreadFound v id create (found i) ok h = (record { valid = ok; used = h.1 }, h.2)
claim_thread-ThreadFound v id false (missing none) ok h = ok
claim_thread-ThreadFound v id false (missing (some i)) ok h = ok
claim_thread-ThreadFound v id true (missing none) ok h = ok
claim_thread-ThreadFound v id true (missing (some i)) ok (p, free, absent) =
    let here : thread_at (set_thread v i (fresh_thread id)) i ≡ fresh_thread id =
      get_or-set_self v.threads i (fresh_thread id) zero_thread p in
    (
      record {
        valid =
            replace-Tables ok i (fresh_thread id) _ _ p
              (λ j u e. absurd (absent j (lt_of_used v.threads j u) u e)) (fresh_thread-ThreadOk id)
              (ground (arith, (ok.each i).free_idle free))
              (ground (arith, (ok.each i).free_whole free));
        used = ap thread_used here;
      },
      ap thread_key here,
    )

pub find_thread-ThreadFound :
    (v : Verifier) (id : ℕ) (create : Bool) → IsValid v → ThreadFound id (find_thread v id create)
unfolding find_thread
find_thread-ThreadFound v id create ok =
    claim_thread-ThreadFound v id create _ ok
      (scan-Searched thread_used thread_key zero_thread id v.threads)

-- A lookup of a mutex leaves the threads alone, and a slot in use for its address.
abbrev pub MutexFound : Verifier → ℕ → Option ℕ × Verifier → Type 0
MutexFound v a (none, v') = IsValid v' × (v'.threads ≡ v.threads)
MutexFound v a (some j, v') =
    IsValid v'
    × (v'.threads ≡ v.threads)
    × ((mutex_at v' j).used ≡ true)
    × ((mutex_at v' j).address ≡ a)
    × (j < length v'.mutexes)

-- Whoever uses a slot uses a slot of the table.
pub lt_of_mutex_used : (v : Verifier) (j : ℕ) → (mutex_at v j).used ≡ true → j < length v.mutexes
lt_of_mutex_used v j u = elim (dec_lt j (length v.mutexes)) [
  | yes p ↦ p
  | no p ↦ absurd (ground (arith, get_or_of_le v.mutexes j zero_mutex))
]

claim_mutex-MutexFound :
    (v : Verifier) (a : ℕ) (create : Bool) (s : Slot)
    → IsValid v
    → Searched mutex_used mutex_key zero_mutex a v.mutexes s
    → MutexFound v a (claim_mutex v a create s)
claim_mutex-MutexFound v a create (found j) ok h = (ok, refl, h.1, h.2, h.0)
claim_mutex-MutexFound v a false (missing none) ok h = (ok, refl)
claim_mutex-MutexFound v a false (missing (some j)) ok h = (ok, refl)
claim_mutex-MutexFound v a true (missing none) ok h = (ok, refl)
claim_mutex-MutexFound v a true (missing (some j)) ok (p, free, absent) =
    let here : mutex_at (set_mutex v j (fresh_mutex a)) j ≡ fresh_mutex a =
      get_or-set_self v.mutexes j (fresh_mutex a) zero_mutex p in
    let size : length (set v.mutexes j (fresh_mutex a)) ≡ length v.mutexes =
      length-set v.mutexes j (fresh_mutex a) in
    (mutexes-Tables ok _ size unique, refl, ap mutex_used here, ap mutex_key here, rw size p)
  where
    unique :
        (x y : ℕ)
        → (get_or (set v.mutexes j (fresh_mutex a)) x zero_mutex).used ≡ true
        → (get_or (set v.mutexes j (fresh_mutex a)) y zero_mutex).used ≡ true
        → (get_or (set v.mutexes j (fresh_mutex a)) x zero_mutex).address
          ≡ (get_or (set v.mutexes j (fresh_mutex a)) y zero_mutex).address
        → x ≡ y
    unique x y ux uy e = ground (
      arith,
      get_or-set v.mutexes j x (fresh_mutex a) zero_mutex p,
      get_or-set v.mutexes j y (fresh_mutex a) zero_mutex p,
      ok.mutex_unique x y,
      absent x,
      absent y,
      lt_of_mutex_used v x,
      lt_of_mutex_used v y,
    )

pub find_mutex-MutexFound :
    (v : Verifier) (a : ℕ) (create : Bool) → IsValid v → MutexFound v a (find_mutex v a create)
unfolding find_mutex
find_mutex-MutexFound v a create ok =
    claim_mutex-MutexFound v a create _ ok
      (scan-Searched mutex_used mutex_key zero_mutex a v.mutexes)

-- A known thread is found in its slot, and nothing changes.
pub find_thread-Live :
    (v : Verifier) (id i : ℕ) (create : Bool)
    → Live v i
    → (thread_at v i).thread_id ≡ id
    → find_thread v id create ≡ (some i, v)
unfolding find_thread
find_thread-Live v id i create l same =
    go _ (scan-Searched thread_used thread_key zero_thread id v.threads)
  where
    go :
        (s : Slot)
        → Searched thread_used thread_key zero_thread id v.threads s
        → claim_thread v id create s ≡ (some i, v)
    go (found j) (p, u, k) =
        ap (λ (n : ℕ). (some n, v)) (l.valid.thread_unique j i u l.used (k ∙ sym same))
    go (missing none) (_, absent) = absurd (absent i (lt_of_used v.threads i l.used) l.used same)
    go (missing (some f)) (_, _, absent) =
        absurd (absent i (lt_of_used v.threads i l.used) l.used same)
