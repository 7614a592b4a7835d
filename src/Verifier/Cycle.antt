-- ===== src/Verifier/Cycle.antt =====
-- src/monitor_verifier.c, `find_cycle_from` and `find_any_cycle`: the search of the wait-for graph.
-- Each thread waits for at most one mutex and each mutex has at most one owner, so the search is a
-- walk. An attempt that fails leaves entries in the output arrays that the next one overwrites; the
-- model returns the arrays, cut to their length, only where the attempt succeeds.
use Prim.Native.Nat.{bit_or}
use runtime_monitor.Base.{
  ℕ, zero, suc, ◌+◌, ◌^◌, Bool, true, false, not, ◌&&◌, ◌||◌, Option, none, some, List, [], ◌∷◌,
  ◌++◌, ltb, ◌==◌, if◌then◌else◌, length,
}
use runtime_monitor.Verifier.State.{
  Verifier, ThreadState, MutexState, max_threads, thread_at, mutex_at,
}
use runtime_monitor.Verifier.Lookup.{find_thread, find_mutex, thread_index}
pub mod Spec
pub mod Edges
pub mod Soundness
pub mod Completeness
pub mod Frame
pub mod Mask

-- A cycle that was found: `cycle_threads`, `cycle_mutexes` and `*cycle_mask`.
pub record Cycle : Type 0 where
  pub threads : List ℕ
  pub mutexes : List ℕ
  pub mask : ℕ

-- A thread that the search may use: its stream is complete and it has not exited.
abbrev pub usable : ThreadState → Bool
usable t = not (t.trace_tainted || t.exited)

-- A mutex with no owner to follow.
abbrev pub ownerless : MutexState → Bool
ownerless m = not m.owner_known || (m.owner_thread_id == 0)

-- The owner `o` of mutex `a`, in slot `k` of the threads.
abbrev pub edge_at : Verifier → ℕ → ℕ → ℕ → Option (ℕ × ℕ)
edge_at v a o k = if not (usable (thread_at v k)) then none else some (a, o)

abbrev pub edge_to : Verifier → ℕ → ℕ → Option (ℕ × ℕ)
edge_to v a o = elim ((find_thread v o false).0) [ none ↦ none | some k ↦ edge_at v a o k ]

-- Mutex `a`, in slot `j`.
abbrev pub edge_owned : Verifier → ℕ → ℕ → Option (ℕ × ℕ)
edge_owned v a j =
    if ownerless (mutex_at v j) then none else edge_to v a (mutex_at v j).owner_thread_id

abbrev pub edge_through : Verifier → ℕ → Option (ℕ × ℕ)
edge_through v a = elim ((find_mutex v a false).0) [ none ↦ none | some j ↦ edge_owned v a j ]

-- The waiting thread, in slot `i`.
abbrev pub edge_of : Verifier → ℕ → Option (ℕ × ℕ)
edge_of v i =
    if not (usable (thread_at v i))
    then none
    else if (thread_at v i).waiting_mutex == 0
    then none
    else edge_through v (thread_at v i).waiting_mutex

-- The first half of the loop's body, up to the reads of the owner: the mutex that a thread waits
-- for and that mutex's owner, `none` for each early `return false`.
pub wait_edge : Verifier → ℕ → Option (ℕ × ℕ)
wait_edge v id = elim ((find_thread v id false).0) [ none ↦ none | some i ↦ edge_of v i ]

-- The loop over `visited`.
pub visited_before : ℕ → List ℕ → Bool
visited_before a [] = false
visited_before a (x ∷ xs) = x == a || visited_before a xs

-- `mask |= 1u << index`, for each thread of the cycle
abbrev pub mask_bit : Verifier → ℕ → ℕ → ℕ
mask_bit v mask id = elim (thread_index v id) [
  | none ↦ mask
  | some i ↦ if ltb i 32 then bit_or mask (2 ^ i) else mask
]

unfoldable pub mask_of : Verifier → ℕ → List ℕ → ℕ
mask_of v mask [] = mask
mask_of v mask (id ∷ ids) = mask_of v (mask_bit v mask id) ids

-- The branch where the walk is back at its start.
abbrev pub close_cycle : Verifier → List ℕ → List ℕ → Option Cycle
close_cycle v ids ms =
    if ltb (length ids) 2
    then none
    else some (record { threads = ids; mutexes = ms; mask = mask_of v 0 ids })

-- The loop with `fuel` steps left; `ids` is both `visited` and the filled part of `cycle_threads`.
pub walk : Verifier → ℕ → ℕ → ℕ → List ℕ → List ℕ → Option Cycle
walk v start zero current ids ms = none
walk v start (suc fuel) current ids ms = elim (wait_edge v current) [
  | none ↦ none
  | some (a, owner) ↦ elim (owner == start) [
    | true ↦ close_cycle v (ids ++ current ∷ []) (ms ++ a ∷ [])
    | false ↦ elim (visited_before owner (ids ++ current ∷ [])) [
      | true ↦ none
      | false ↦ walk v start fuel owner (ids ++ current ∷ []) (ms ++ a ∷ [])
    ]
  ]
]

unfoldable pub find_cycle_from : Verifier → ℕ → Option Cycle
unfolding walk wait_edge visited_before
find_cycle_from v start = walk v start max_threads start [] []

-- The loop over the threads from which a cycle may start.
abbrev pub may_start : ThreadState → Bool
may_start t = not (not t.used || t.trace_tainted || (t.waiting_mutex == 0))

unfoldable pub any_cycle_from : Verifier → List ThreadState → Option Cycle
any_cycle_from v [] = none
any_cycle_from v (t ∷ ts) = elim (may_start t) [
  | false ↦ any_cycle_from v ts
  | true ↦ elim (find_cycle_from v t.thread_id) [ some c ↦ some c | none ↦ any_cycle_from v ts ]
]

unfoldable pub find_any_cycle : Verifier → Option Cycle
find_any_cycle v = any_cycle_from v v.threads
