-- ===== src/Verifier/Lookup.antt =====
-- src/monitor_verifier.c, `find_thread`, `find_mutex` and `thread_index`. The pointer that a
-- lookup returns is the index of its slot, `none` for NULL.
use runtime_monitor.Base.{
  ℕ, ◌+◌, ◌&&◌, Bool, true, false, Option, none, some, List, [], ◌∷◌, ◌==◌, if◌then◌else◌,
}
use runtime_monitor.Verifier.State.{
  Verifier, ThreadState, MutexState, zero_thread, zero_mutex, set_thread, set_mutex, overflowed,
}
use runtime_monitor.Verifier.Slots.{Slot, found, missing, scan}

-- The searches of the two tables.
abbrev pub thread_slot : Verifier → ℕ → Slot
thread_slot v id = scan (λ (t : ThreadState). t.used) (λ t. t.thread_id) id v.threads 0 none

abbrev pub mutex_slot : Verifier → ℕ → Slot
mutex_slot v a = scan (λ (m : MutexState). m.used) (λ m. m.address) a v.mutexes 0 none

abbrev pub fresh_thread : ℕ → ThreadState
fresh_thread id = record zero_thread { used = true; thread_id = id }

abbrev pub fresh_mutex : ℕ → MutexState
fresh_mutex a = record zero_mutex { used = true; owner_known = false; address = a }

-- What follows the search: the slot found, or a fresh one where the caller wants it.
abbrev pub claim_thread : Verifier → ℕ → Bool → Slot → Option ℕ × Verifier
claim_thread v id create (found i) = (some i, v)
claim_thread v id false (missing free) = (none, v)
claim_thread v id true (missing none) = (none, overflowed v)
claim_thread v id true (missing (some i)) = (some i, set_thread v i (fresh_thread id))

abbrev pub claim_mutex : Verifier → ℕ → Bool → Slot → Option ℕ × Verifier
claim_mutex v a create (found j) = (some j, v)
claim_mutex v a false (missing free) = (none, v)
claim_mutex v a true (missing none) = (none, overflowed v)
claim_mutex v a true (missing (some j)) = (some j, set_mutex v j (fresh_mutex a))

unfoldable pub find_thread : Verifier → ℕ → Bool → Option ℕ × Verifier
find_thread v id create = claim_thread v id create (thread_slot v id)

unfoldable pub find_mutex : Verifier → ℕ → Bool → Option ℕ × Verifier
find_mutex v a create = claim_mutex v a create (mutex_slot v a)

-- The loop of `thread_index` from index `i` on; `none` is -1.
unfoldable pub index_from : ℕ → List ThreadState → ℕ → Option ℕ
index_from id [] i = none
index_from id (t ∷ ts) i =
    let rest = index_from id ts (i + 1) in if t.used && (t.thread_id == id) then some i else rest

unfoldable pub thread_index : Verifier → ℕ → Option ℕ
unfolding index_from
thread_index v id = index_from id v.threads 0
