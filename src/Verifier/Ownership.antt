-- ===== src/Verifier/Ownership.antt =====
-- src/monitor_verifier.c, `handle_lock_acquired` and `handle_unlocked`: the owner of a mutex after changes
-- that arrive in any order.
use runtime_monitor.Base.{ℕ, ◌<◌, ◌≤◌, ◌≡◌, refl, arith, true, List, [], ◌∷◌, ◌++◌}
use runtime_monitor.Verifier.State.{MutexState}
use runtime_monitor.Verifier.Handlers.{new_owner}

-- Changes of ownership, each with its sequence number and the new owner, in the order of processing.
pub new_owners : List (ℕ × ℕ) → MutexState → MutexState
new_owners [] m = m
new_owners ((s, o) ∷ cs) m = new_owners cs (new_owner s o m)

abbrev pub AllOlder : ℕ → List (ℕ × ℕ) → Type 0
AllOlder s [] = Unit
AllOlder s ((t, o) ∷ cs) = (t < s) × AllOlder s cs

older_before :
    (s : ℕ) (cs : List (ℕ × ℕ)) (m : MutexState)
    → AllOlder s cs
    → m.last_state_sequence ≤ s
    → let m' = new_owners cs m in
      (m'.last_state_sequence ≤ s) × (m'.used ≡ m.used) × (m'.address ≡ m.address)
unfolding new_owners new_owner
older_before s [] m a h = (h, refl, refl)
older_before s ((t, o) ∷ cs) m a h = ground (arith, older_before s cs (new_owner t o m) a.1)

older_after :
    (s : ℕ) (cs : List (ℕ × ℕ)) (m : MutexState)
    → AllOlder s cs
    → m.last_state_sequence ≡ s
    → new_owners cs m ≡ m
unfolding new_owners new_owner
older_after s [] m a h = refl
older_after s ((t, o) ∷ cs) m a h = ground (arith, older_after s cs m a.1)

new_owners-append :
    (cs ds : List (ℕ × ℕ)) (m : MutexState)
    → new_owners (cs ++ ds) m ≡ new_owners ds (new_owners cs m)
unfolding new_owners
new_owners-append [] ds m = refl
new_owners-append ((t, o) ∷ cs) ds m = new_owners-append cs ds (new_owner t o m)

-- The change with the greatest sequence number decides, wherever it stands among the others: if
-- every other change and the mutex's last one are older, the mutex ends with its owner, known.
pub newest_owner_wins :
    (s o : ℕ) (before after : List (ℕ × ℕ)) (m : MutexState)
    → AllOlder s before
    → AllOlder s after
    → m.last_state_sequence ≤ s
    → new_owners (before ++ (s, o) ∷ after) m
      ≡ record m { owner_known = true; owner_thread_id = o; last_state_sequence = s }
unfolding new_owners new_owner
newest_owner_wins s o before after m a b h = ground (
  arith,
  new_owners-append before ((s, o) ∷ after) m,
  older_before s before m a h,
  older_after s after (new_owner s o (new_owners before m)) b,
)
