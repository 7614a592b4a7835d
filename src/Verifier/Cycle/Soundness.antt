-- ===== src/Verifier/Cycle/Soundness.antt =====
-- src/monitor_verifier.c, `find_cycle_from`: the walk as a path in the wait-for graph.
use mathlib.Core.Option.{some-injective}
use runtime_monitor.Base.{
  ℕ, zero, suc, ◌≡◌, ◌≢◌, refl, sym, subst, arith, false, some, List, [], ◌∷◌, ◌++◌, ◌==◌, ltb,
  Bool-cases, Option-cases, inl, inr, length, NotIn, Distinct, ==_iff,
}
use runtime_monitor.Verifier.State.{Verifier, max_threads}
use runtime_monitor.Verifier.Cycle.{
  Cycle, wait_edge, visited_before, mask_of, close_cycle, walk, find_cycle_from,
}
use runtime_monitor.Verifier.Cycle.Spec.{WaitsFor, Chain, IsCycle}
use runtime_monitor.Verifier.Cycle.Edges.{waits_of_wait_edge}

-- A walk goes one edge further.
Chain-append :
    (v : Verifier) (s : ℕ) (ts ms : List ℕ) (e a o : ℕ)
    → Chain v s ts ms e
    → WaitsFor v e a o
    → Chain v s (ts ++ e ∷ []) (ms ++ a ∷ []) o
Chain-append v s [] [] e a o c w = (sym c, o, rw c w, refl)
Chain-append v s [] (m ∷ ms) e a o c w = absurd c
Chain-append v s (t ∷ ts) [] e a o c w = absurd c
Chain-append v s (t ∷ ts) (m ∷ ms) e a o (q, o', w', c) w =
    (q, o', w', Chain-append v o' ts ms e a o c w)

NotIn-append : (a : ℕ) (xs : List ℕ) (x : ℕ) → NotIn a xs → x ≢ a → NotIn a (xs ++ x ∷ [])
NotIn-append a [] x h ne = (ne, tt)
NotIn-append a (y ∷ ys) x h ne = (h.0, NotIn-append a ys x h.1 ne)

pub Distinct-append : (xs : List ℕ) (x : ℕ) → Distinct xs → NotIn x xs → Distinct (xs ++ x ∷ [])
Distinct-append [] x d h = (tt, tt)
Distinct-append (y ∷ ys) x d h =
    (NotIn-append y ys x d.0 (λ e. h.0 (sym e)), Distinct-append ys x d.1 h.1)

visited_before-NotIn : (a : ℕ) (xs : List ℕ) → visited_before a xs ≡ false → NotIn a xs
unfolding visited_before
visited_before-NotIn a [] e = tt
visited_before-NotIn a (x ∷ xs) e = (λ q. ground arith, visited_before-NotIn a xs (ground arith))

-- The walk's progress: it has come from `start`, by different threads, to a thread not yet visited.
record Walked (v : Verifier) (start current : ℕ) (ids ms : List ℕ) : Type 0 where
  chain : Chain v start ids ms current
  distinct : Distinct ids
  fresh : NotIn current ids

close_cycle-IsCycle :
    (v : Verifier) (start : ℕ) (ids ms : List ℕ) (c : Cycle)
    → Chain v start ids ms start
    → Distinct ids
    → close_cycle v ids ms ≡ some c
    → IsCycle v start c.threads c.mutexes × (c.mask ≡ mask_of v 0 c.threads)
close_cycle-IsCycle v start ids ms c chain distinct e = elim (Bool-cases (ltb (length ids) 2)) [
  | inl short ↦ absurd (ground arith)
  | inr long ↦
      let q : record { threads = ids; mutexes = ms; mask = mask_of v 0 ids } ≡ c =
        some-injective _ c (rw long at e) in
      subst (λ (d : Cycle). IsCycle v start d.threads d.mutexes × (d.mask ≡ mask_of v 0 d.threads))
        q (record { closed = chain; distinct = distinct; long = ground arith }, refl)
]

walk-IsCycle :
    (v : Verifier) (start fuel current : ℕ) (ids ms : List ℕ) (c : Cycle)
    → Walked v start current ids ms
    → walk v start fuel current ids ms ≡ some c
    → IsCycle v start c.threads c.mutexes × (c.mask ≡ mask_of v 0 c.threads)
unfolding walk
walk-IsCycle v start zero current ids ms c w e = cc
walk-IsCycle v start (suc fuel) current ids ms c w e = elim (Option-cases (wait_edge v current)) [
  | inl stuck ↦ absurd (ground arith)
  | inr ((a, owner), f) ↦
      let chain =
        Chain-append v start ids ms current a owner w.chain
          (waits_of_wait_edge v current a owner f) in
      let distinct = Distinct-append ids current w.distinct w.fresh in
      elim (Bool-cases (owner == start)) [
        | inl back ↦
            close_cycle-IsCycle v start (ids ++ current ∷ []) (ms ++ a ∷ []) c
              (subst (λ x. Chain v start (ids ++ current ∷ []) (ms ++ a ∷ []) x)
                ((==_iff owner start).0 back) chain)
              distinct (rw (f, back, walk) at e)
        | inr on ↦ elim (Bool-cases (visited_before owner (ids ++ current ∷ []))) [
          | inl seen ↦ absurd (ground arith)
          | inr new ↦
              walk-IsCycle v start fuel owner (ids ++ current ∷ []) (ms ++ a ∷ []) c
                (record {
                  chain = chain;
                  distinct = distinct;
                  fresh = visited_before-NotIn owner (ids ++ current ∷ []) new;
                })
                (rw (f, on, new, walk) at e)
        ]
      ]
]

-- What the search from a thread returns is a cycle through that thread: at least two different
-- threads, each active and waiting for a mutex whose known owner is the next, the last for the first;
-- and the mask is that of these threads.
pub find_cycle_from-IsCycle :
    (v : Verifier) (start : ℕ) (c : Cycle)
    → find_cycle_from v start ≡ some c
    → IsCycle v start c.threads c.mutexes × (c.mask ≡ mask_of v 0 c.threads)
unfolding find_cycle_from
find_cycle_from-IsCycle v start c e =
    walk-IsCycle v start max_threads start [] [] c
      (record { chain = refl; distinct = tt; fresh = tt }) e
