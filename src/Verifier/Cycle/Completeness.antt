-- ===== src/Verifier/Cycle/Completeness.antt =====
-- src/monitor_verifier.c, `find_cycle_from` and `find_any_cycle`: the search in a state with a cycle.
use mathlib.Core.List.{append_assoc}
use runtime_monitor.Base.{
  ℕ, zero, suc, ◌<◌, ◌≤◌, ◌≡◌, ◌≢◌, refl, sym, ◌∙◌, ap, subst, arith, true, false, none, some, List,
  [], ◌∷◌, ◌++◌, ◌==◌, ltb, Bool-cases, Option-cases, inl, inr, length, get_or, NotIn, Distinct,
  AllBelow, length-le_of_Distinct, ==_iff,
}
use runtime_monitor.Verifier.State.{Verifier, ThreadState, zero_thread, max_threads, thread_at}
use runtime_monitor.Verifier.Invariant.{IsValid, lt_of_used}
use runtime_monitor.Verifier.Cycle.{
  Cycle, visited_before, mask_of, close_cycle, walk, find_cycle_from, may_start, any_cycle_from,
  find_any_cycle,
}
use runtime_monitor.Verifier.Cycle.Spec.{Chain, IsCycle}
use runtime_monitor.Verifier.Cycle.Edges.{wait_edge_of_waits}
use runtime_monitor.Verifier.Cycle.Soundness.{find_cycle_from-IsCycle}

-- The slots of the threads of a walk.
slots : (v : Verifier) (s : ℕ) (ts ms : List ℕ) (e : ℕ) → Chain v s ts ms e → List ℕ
slots v s [] [] e c = []
slots v s [] (m ∷ ms) e c = []
slots v s (t ∷ ts) [] e c = []
slots v s (t ∷ ts) (m ∷ ms) e (q, o, w, c) = w.i ∷ slots v o ts ms e c

length-slots :
    (v : Verifier) (s : ℕ) (ts ms : List ℕ) (e : ℕ) (c : Chain v s ts ms e)
    → length (slots v s ts ms e c) ≡ length ts
unfolding slots
length-slots v s [] [] e c = refl
length-slots v s [] (m ∷ ms) e c = absurd c
length-slots v s (t ∷ ts) [] e c = absurd c
length-slots v s (t ∷ ts) (m ∷ ms) e (q, o, w, c) = ap suc (length-slots v o ts ms e c)

slots-AllBelow :
    (v : Verifier) (s : ℕ) (ts ms : List ℕ) (e : ℕ) (c : Chain v s ts ms e)
    → AllBelow (length v.threads) (slots v s ts ms e c)
unfolding slots
slots-AllBelow v s [] [] e c = tt
slots-AllBelow v s [] (m ∷ ms) e c = absurd c
slots-AllBelow v s (t ∷ ts) [] e c = absurd c
slots-AllBelow v s (t ∷ ts) (m ∷ ms) e (q, o, w, c) =
    (lt_of_used v.threads w.i w.waiter.used, slots-AllBelow v o ts ms e c)

-- A thread that is not on the walk has another slot.
slots-NotIn :
    (v : Verifier) (t i s : ℕ) (ts ms : List ℕ) (e : ℕ) (c : Chain v s ts ms e)
    → (thread_at v i).thread_id ≡ t
    → NotIn t ts
    → NotIn i (slots v s ts ms e c)
unfolding slots
slots-NotIn v t i s [] [] e c same h = tt
slots-NotIn v t i s [] (m ∷ ms) e c same h = absurd c
slots-NotIn v t i s (t' ∷ ts) [] e c same h = absurd c
slots-NotIn v t i s (t' ∷ ts) (m ∷ ms) e (q, o, w, c) same (ne, h) = (
  λ k. ne (q ∙ sym w.waiter.is_thread ∙ ap (λ x. (thread_at v x).thread_id) k ∙ same),
  slots-NotIn v t i o ts ms e c same h,
)

slots-Distinct :
    (v : Verifier) (s : ℕ) (ts ms : List ℕ) (e : ℕ) (c : Chain v s ts ms e)
    → Distinct ts
    → Distinct (slots v s ts ms e c)
unfolding slots
slots-Distinct v s [] [] e c d = tt
slots-Distinct v s [] (m ∷ ms) e c d = absurd c
slots-Distinct v s (t ∷ ts) [] e c d = absurd c
slots-Distinct v s (t ∷ ts) (m ∷ ms) e (q, o, w, c) d = (
  slots-NotIn v t w.i o ts ms e c (w.waiter.is_thread ∙ sym q) d.0,
  slots-Distinct v o ts ms e c d.1,
)

-- A walk by different threads has no more of them than the table has slots.
Chain-short :
    (v : Verifier) (s : ℕ) (ts ms : List ℕ) (e : ℕ)
    → IsValid v
    → Chain v s ts ms e
    → Distinct ts
    → length ts ≤ max_threads
Chain-short v s ts ms e ok c d = omega (
  arith,
  ok.threads,
  length-slots v s ts ms e c,
  length-le_of_Distinct (length v.threads) (slots v s ts ms e c) (slots-Distinct v s ts ms e c d)
      (slots-AllBelow v s ts ms e c),
)

-- `start` stands at the front.
abbrev Front : ℕ → List ℕ → Type 0
Front s [] = ⊥
Front s (x ∷ xs) = x ≡ s

Front-append : (s x : ℕ) (xs ys : List ℕ) → Front s (xs ++ x ∷ []) → Front s ((xs ++ x ∷ []) ++ ys)
Front-append s x [] ys f = f
Front-append s x (y ∷ xs) ys f = f

Front-NotIn-ne : (s a : ℕ) (xs : List ℕ) → Front s xs → NotIn a xs → a ≢ s
Front-NotIn-ne s a [] f h = absurd f
Front-NotIn-ne s a (x ∷ xs) f h = λ e. h.0 (f ∙ sym e)

-- An element of a list of different numbers is not among those before it.
NotIn_of_distinct : (y : ℕ) (xs ys : List ℕ) → Distinct (xs ++ y ∷ ys) → NotIn y xs
NotIn_of_distinct y [] ys d = tt
NotIn_of_distinct y (x ∷ xs) ys d = (apart xs d.0, NotIn_of_distinct y xs ys d.1)
  where
    apart : (zs : List ℕ) → NotIn x (zs ++ y ∷ ys) → x ≢ y
    apart [] h = λ e. h.0 (sym e)
    apart (z ∷ zs) h = apart zs h.1

visited_before_of_NotIn : (a : ℕ) (xs : List ℕ) → NotIn a xs → visited_before a xs ≡ false
unfolding visited_before
visited_before_of_NotIn a [] h = refl
visited_before_of_NotIn a (x ∷ xs) h = ground (arith, visited_before_of_NotIn a xs h.1)

abbrev cycle_of : Verifier → List ℕ → List ℕ → Cycle
cycle_of v ts ms = record { threads = ts; mutexes = ms; mask = mask_of v 0 ts }

close_cycle-long :
    (v : Verifier) (ts ms : List ℕ) → 2 ≤ length ts → close_cycle v ts ms ≡ some (cycle_of v ts ms)
close_cycle-long v ts ms h = elim (Bool-cases (ltb (length ts) 2)) [
  | inl short ↦ absurd (ground arith)
  | inr long ↦ rw long
]

-- The walk goes the rest `ts` of a cycle `all` to its end.
walk_follows :
    (v : Verifier) (start fuel current : ℕ) (ids ms ts ns all_ts all_ms : List ℕ)
    → IsValid v
    → Chain v current ts ns start
    → 0 < length ts
    → length ts ≤ fuel
    → ids ++ ts ≡ all_ts
    → ms ++ ns ≡ all_ms
    → Distinct all_ts
    → 2 ≤ length all_ts
    → Front start (ids ++ current ∷ [])
    → walk v start fuel current ids ms ≡ some (cycle_of v all_ts all_ms)
unfolding walk
walk_follows v start zero current ids ms ts ns all_ts all_ms ok c pos enough et en d long front =
    absurd (omega arith)
walk_follows v start (suc fuel) current ids ms [] ns all_ts all_ms ok c pos enough et en d long
      front =
    absurd (omega arith)
walk_follows v start (suc fuel) current ids ms (t ∷ ts) [] all_ts all_ms ok c pos enough et en d
      long front =
    absurd c
walk_follows v start (suc fuel) current ids ms (t ∷ []) (n ∷ []) all_ts all_ms ok (q, o, w, back)
      pos enough et en d long front =
    let here : ids ++ current ∷ [] ≡ all_ts = subst (λ x. ids ++ x ∷ [] ≡ all_ts) q et in
    rw (wait_edge_of_waits v current n o ok w, (==_iff o start).1 back, here, en, walk)
      (close_cycle-long v all_ts all_ms long)
walk_follows v start (suc fuel) current ids ms (t ∷ []) (n ∷ n2 ∷ ns) all_ts all_ms ok (q, o, w, c)
      pos enough et en d long front =
    absurd c
walk_follows v start (suc fuel) current ids ms (t ∷ t2 ∷ ts) (n ∷ []) all_ts all_ms ok (q, o, w, c)
      pos enough et en d long front =
    absurd c
walk_follows v start (suc fuel) current ids ms (t ∷ t2 ∷ ts) (n ∷ n2 ∷ ns) all_ts all_ms ok
      (q, o, w, c) pos enough et en d long front =
    let here : (ids ++ current ∷ []) ++ t2 ∷ ts ≡ all_ts =
      append_assoc ids (current ∷ []) (t2 ∷ ts) ∙ subst (λ x. ids ++ x ∷ t2 ∷ ts ≡ all_ts) q et in
    let there : (ms ++ n ∷ []) ++ n2 ∷ ns ≡ all_ms = append_assoc ms (n ∷ []) (n2 ∷ ns) ∙ en in
    let new : NotIn o (ids ++ current ∷ []) =
      subst (λ x. NotIn x (ids ++ current ∷ [])) (c.0)
        (NotIn_of_distinct t2 (ids ++ current ∷ []) ts (subst Distinct (sym here) d)) in
    let other : (o == start) ≡ false =
      ground (arith, Front-NotIn-ne start o (ids ++ current ∷ []) front new) in
    rw
      (
        wait_edge_of_waits v current n o ok w,
        other,
        visited_before_of_NotIn o (ids ++ current ∷ []) new,
        walk,
      )
      (walk_follows v start fuel o (ids ++ current ∷ []) (ms ++ n ∷ []) (t2 ∷ ts) (n2 ∷ ns) all_ts
        all_ms ok c (omega arith) (omega arith) here there d long
        (Front-append start current ids (o ∷ []) front))

-- In a valid state, the walk from a thread that lies on a cycle of the wait-for graph returns that very
-- cycle, from this thread on, with the mask of its threads.
pub find_cycle_from_complete :
    (v : Verifier) (start : ℕ) (ts ms : List ℕ)
    → IsValid v
    → IsCycle v start ts ms
    → find_cycle_from v start ≡ some (record { threads = ts; mutexes = ms; mask = mask_of v 0 ts })
unfolding find_cycle_from
find_cycle_from_complete v start ts ms ok cycle =
    walk_follows v start max_threads start [] [] ts ms ts ms ok cycle.closed
      (omega (arith, cycle.long)) (Chain-short v start ts ms start ok cycle.closed cycle.distinct)
      refl refl cycle.distinct cycle.long refl

any_none :
    (v : Verifier) (ts : List ThreadState) (i : ℕ)
    → any_cycle_from v ts ≡ none
    → may_start (get_or ts i zero_thread) ≡ true
    → find_cycle_from v (get_or ts i zero_thread).thread_id ≡ none
unfolding any_cycle_from
any_none v [] i e s = ground arith
any_none v (t ∷ ts) zero e s = ground arith
any_none v (t ∷ ts) (suc i) e s = ground (arith, any_none v ts i)

-- A cycle that the loop returns was found from some thread.
found_from :
    (v : Verifier) (ts : List ThreadState) (c : Cycle)
    → any_cycle_from v ts ≡ some c
    → (start : ℕ) × (find_cycle_from v start ≡ some c)
unfolding any_cycle_from
found_from v [] c e = absurd (cc)
found_from v (t ∷ ts) c e = elim (Bool-cases (may_start t)) [
  | inl starts ↦ elim (Option-cases (find_cycle_from v t.thread_id)) [
    | inl n ↦ found_from v ts c (ground arith)
    | inr (d, f) ↦ (t.thread_id, ground arith)
  ]
  | inr passes ↦ found_from v ts c (ground arith)
]

-- A cycle starts at a thread of the table that the loop tries.
cycle_start :
    (v : Verifier) (start : ℕ) (ts ms : List ℕ)
    → IsCycle v start ts ms
    → (i : ℕ) × (may_start (thread_at v i) ≡ true) × ((thread_at v i).thread_id ≡ start)
cycle_start v start ts ms c = go ts ms c.closed c.long
  where
    go :
        (xs ys : List ℕ)
        → Chain v start xs ys start
        → 2 ≤ length xs
        → (i : ℕ) × (may_start (thread_at v i) ≡ true) × ((thread_at v i).thread_id ≡ start)
    go [] ys c h = absurd (omega arith)
    go (x ∷ xs) [] c h = absurd c
    go (x ∷ xs) (y ∷ ys) (q, o, w, c) h =
        (w.i, ground (arith, w.waiter.used, w.waiter.whole, w.waits, w.for_one), w.waiter.is_thread)

-- What the search of the wait-for graph returns, in any state, is a cycle of at least two different
-- threads, each with a complete stream and not exited, each waiting for a mutex known to be owned by
-- the next; and its mask is that of its threads.
pub find_any_cycle-IsCycle :
    (v : Verifier) (c : Cycle)
    → find_any_cycle v ≡ some c
    → (start : ℕ) × IsCycle v start c.threads c.mutexes × (c.mask ≡ mask_of v 0 c.threads)
unfolding find_any_cycle
find_any_cycle-IsCycle v c e =
    let (start, f) = found_from v v.threads c e in
    let (cycle, mask) = find_cycle_from-IsCycle v start c f in (start, cycle, mask)

-- If the wait-for graph of a valid state has a cycle, the search returns one: the limit on its steps
-- and its array of visited threads never make it miss a deadlock.
pub find_any_cycle_complete :
    (v : Verifier) (start : ℕ) (ts ms : List ℕ)
    → IsValid v
    → IsCycle v start ts ms
    → (c : Cycle) × (find_any_cycle v ≡ some c)
unfolding find_any_cycle
find_any_cycle_complete v start ts ms ok c = elim (Option-cases (any_cycle_from v v.threads)) [
  | inr found ↦ found
  | inl e ↦
      let (i, starts, same) = cycle_start v start ts ms c in
      let nothing : find_cycle_from v start ≡ none =
        subst (λ x. find_cycle_from v x ≡ none) same (any_none v v.threads i e starts) in
      let something = find_cycle_from_complete v start ts ms ok c in absurd (cc)
]
