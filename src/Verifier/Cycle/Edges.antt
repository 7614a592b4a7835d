-- ===== src/Verifier/Cycle/Edges.antt =====
-- src/monitor_verifier.c, `find_cycle_from`: the reads of the loop's body and the edges of the graph.
use runtime_monitor.Base.{
  ℕ, ◌≡◌, ◌≢◌, refl, sym, ◌∙◌, ap, subst, arith, Bool, true, false, not, Option, none, some, ◌==◌,
  if◌then◌else◌,
}
use runtime_monitor.Verifier.State.{Verifier, zero_thread, zero_mutex, thread_at, mutex_at}
use runtime_monitor.Verifier.Slots.{Slot, found, missing}
use runtime_monitor.Verifier.Slots.Laws.{Searched, scan-Searched}
use runtime_monitor.Verifier.Lookup.{claim_thread, claim_mutex, find_thread, find_mutex}
use runtime_monitor.Verifier.Invariant.{IsValid, lt_of_used}
use runtime_monitor.Verifier.Invariant.Lookups.{
  thread_used, thread_key, mutex_used, mutex_key, lt_of_mutex_used,
}
use runtime_monitor.Verifier.Cycle.{
  usable, ownerless, edge_at, edge_to, edge_owned, edge_through, edge_of, wait_edge,
}
use runtime_monitor.Verifier.Cycle.Spec.{Active, Owned, WaitsFor}

-- A lookup that does not create, and the slot of its key.
ThreadAt : Verifier → ℕ → Option ℕ → Type 0
ThreadAt v id none = (i : ℕ) → (thread_at v i).used ≡ true → (thread_at v i).thread_id ≢ id
ThreadAt v id (some i) = ((thread_at v i).used ≡ true) × ((thread_at v i).thread_id ≡ id)

MutexAt : Verifier → ℕ → Option ℕ → Type 0
MutexAt v a none = (j : ℕ) → (mutex_at v j).used ≡ true → (mutex_at v j).address ≢ a
MutexAt v a (some j) = ((mutex_at v j).used ≡ true) × ((mutex_at v j).address ≡ a)

claim-ThreadAt :
    (v : Verifier) (id : ℕ) (s : Slot)
    → Searched thread_used thread_key zero_thread id v.threads s
    → ThreadAt v id (claim_thread v id false s).0
unfolding ThreadAt
claim-ThreadAt v id (found i) h = (h.1, h.2)
claim-ThreadAt v id (missing none) h = λ i u. h.1 i (lt_of_used v.threads i u) u
claim-ThreadAt v id (missing (some f)) h = λ i u. h.2 i (lt_of_used v.threads i u) u

find-ThreadAt : (v : Verifier) (id : ℕ) → ThreadAt v id (find_thread v id false).0
unfolding find_thread
find-ThreadAt v id =
    claim-ThreadAt v id _ (scan-Searched thread_used thread_key zero_thread id v.threads)

claim-MutexAt :
    (v : Verifier) (a : ℕ) (s : Slot)
    → Searched mutex_used mutex_key zero_mutex a v.mutexes s
    → MutexAt v a (claim_mutex v a false s).0
unfolding MutexAt
claim-MutexAt v a (found j) h = (h.1, h.2)
claim-MutexAt v a (missing none) h = λ j u. h.1 j (lt_of_mutex_used v j u) u
claim-MutexAt v a (missing (some f)) h = λ j u. h.2 j (lt_of_mutex_used v j u) u

find-MutexAt : (v : Verifier) (a : ℕ) → MutexAt v a (find_mutex v a false).0
unfolding find_mutex
find-MutexAt v a = claim-MutexAt v a _ (scan-Searched mutex_used mutex_key zero_mutex a v.mutexes)

-- In a valid state the slot of a key is the one that the lookup finds.
pub thread_found :
    (v : Verifier) (id i : ℕ)
    → IsValid v
    → (thread_at v i).used ≡ true
    → (thread_at v i).thread_id ≡ id
    → (find_thread v id false).0 ≡ some i
unfolding ThreadAt
thread_found v id i ok u e = go _ (find-ThreadAt v id)
  where
    go : (o : Option ℕ) → ThreadAt v id o → o ≡ some i
    go none f = absurd (f i u e)
    go (some k) (uk, ek) = ap some (ok.thread_unique k i uk u (ek ∙ sym e))

pub mutex_found :
    (v : Verifier) (a j : ℕ)
    → IsValid v
    → (mutex_at v j).used ≡ true
    → (mutex_at v j).address ≡ a
    → (find_mutex v a false).0 ≡ some j
unfolding MutexAt
mutex_found v a j ok u e = go _ (find-MutexAt v a)
  where
    go : (o : Option ℕ) → MutexAt v a o → o ≡ some j
    go none f = absurd (f j u e)
    go (some k) (uk, ek) = ap some (ok.mutex_unique k j uk u (ek ∙ sym e))

-- An edge of the graph is read.
pub wait_edge_of_waits :
    (v : Verifier) (t a o : ℕ) → IsValid v → WaitsFor v t a o → wait_edge v t ≡ some (a, o)
unfolding wait_edge
wait_edge_of_waits v t a o ok w = ground (
  arith,
  thread_found v t w.i ok w.waiter.used w.waiter.is_thread,
  mutex_found v a w.j ok w.owned.used w.owned.is_mutex,
  thread_found v o w.k ok w.owner.used w.owner.is_thread,
)

-- What the code does with the slot of a lookup, where it ends in a value.
some_of {ℓ κ} :
    {A : Type ℓ} {B : Type κ} (o : Option A) (f : A → Option B) (b : B)
    → (elim o as (λ _. Option B) [ none ↦ none | some i ↦ f i ]) ≡ some b
    → (i : A) × (o ≡ some i) × (f i ≡ some b)
some_of none f b e = cc
some_of (some i) f b e = (i, refl, e)

ThreadAt_some :
    (v : Verifier) (id i : ℕ)
    → (find_thread v id false).0 ≡ some i
    → ((thread_at v i).used ≡ true) × ((thread_at v i).thread_id ≡ id)
unfolding ThreadAt
ThreadAt_some v id i e = subst (ThreadAt v id) e (find-ThreadAt v id)

MutexAt_some :
    (v : Verifier) (a j : ℕ)
    → (find_mutex v a false).0 ≡ some j
    → ((mutex_at v j).used ≡ true) × ((mutex_at v j).address ≡ a)
unfolding MutexAt
MutexAt_some v a j e = subst (MutexAt v a) e (find-MutexAt v a)

-- A branch that returns early, or goes on.
passed {ℓ} :
    {A : Type ℓ} (b : Bool) (x : Option A) (r : A)
    → (if b then none else x) ≡ some r
    → (b ≡ false) × (x ≡ some r)
passed true x r e = cc
passed false x r e = (refl, e)

edge_at-Active :
    (v : Verifier) (a o k : ℕ) (r : ℕ × ℕ)
    → ((thread_at v k).used ≡ true) × ((thread_at v k).thread_id ≡ o)
    → edge_at v a o k ≡ some r
    → Active v o k × (r ≡ (a, o))
edge_at-Active v a o k r (u, same) e = (
  record { used = u; is_thread = same; whole = ground arith; alive = ground arith },
  ground arith,
)

edge_to-Active :
    (v : Verifier) (a o : ℕ) (r : ℕ × ℕ)
    → edge_to v a o ≡ some r
    → (k : ℕ) × Active v o k × (r ≡ (a, o))
edge_to-Active v a o r e =
    let (k, f, g) = some_of (find_thread v o false).0 (edge_at v a o) r e in
    let (active, q) = edge_at-Active v a o k r (ThreadAt_some v o k f) g in (k, active, q)

edge_owned-Owned :
    (v : Verifier) (a j : ℕ) (r : ℕ × ℕ)
    → ((mutex_at v j).used ≡ true) × ((mutex_at v j).address ≡ a)
    → edge_owned v a j ≡ some r
    → (k : ℕ) × Owned v a (r.1) j × Active v (r.1) k × (r.0 ≡ a)
edge_owned-Owned v a j r (u, same) e =
    let (free, h) =
      passed (ownerless (mutex_at v j)) (edge_to v a (mutex_at v j).owner_thread_id) r e in
    let (k, active, q) = edge_to-Active v a (mutex_at v j).owner_thread_id r h in
    let to : (mutex_at v j).owner_thread_id ≡ r.1 = sym (ap (λ (x : ℕ × ℕ). x.1) q) in
    (
      k,
      record {
        used = u;
        is_mutex = same;
        known = ground arith;
        owner = to;
        someone = λ z. ground arith;
      },
      subst (λ x. Active v x k) to active,
      ap (λ (x : ℕ × ℕ). x.0) q,
    )

edge_through-Owned :
    (v : Verifier) (a : ℕ) (r : ℕ × ℕ)
    → edge_through v a ≡ some r
    → (j : ℕ) × (k : ℕ) × Owned v a (r.1) j × Active v (r.1) k × (r.0 ≡ a)
edge_through-Owned v a r e =
    let (j, f, g) = some_of (find_mutex v a false).0 (edge_owned v a) r e in
    let (k, owned, active, q) = edge_owned-Owned v a j r (MutexAt_some v a j f) g in
    (j, k, owned, active, q)

-- What is read is an edge of the graph.
pub waits_of_wait_edge : (v : Verifier) (t a o : ℕ) → wait_edge v t ≡ some (a, o) → WaitsFor v t a o
unfolding wait_edge
waits_of_wait_edge v t a o e =
    let (i, f, g) = some_of (find_thread v t false).0 (edge_of v) (a, o) e in
    let (u, same) = ThreadAt_some v t i f in
    let (active, g1) =
      passed (not (usable (thread_at v i)))
        (if (thread_at v i).waiting_mutex == 0
          then none
          else edge_through v (thread_at v i).waiting_mutex)
        (a, o) g in
    let (waiting, g2) =
      passed ((thread_at v i).waiting_mutex == 0) (edge_through v (thread_at v i).waiting_mutex)
        (a, o) g1 in
    let (j, k, owned, owner, q) = edge_through-Owned v (thread_at v i).waiting_mutex (a, o) g2 in
    record {
      i = i;
      waiter = record { used = u; is_thread = same; whole = ground arith; alive = ground arith };
      waits = sym q;
      for_one = λ z. ground arith;
      j = j;
      owned = subst (λ x. Owned v x o j) (sym q) owned;
      k = k;
      owner = owner;
    }
