-- ===== src/Verifier/Cycle/Frame.antt =====
-- src/monitor_verifier.c, `find_any_cycle`: the search and the variables that it does not read.
use runtime_monitor.Base.{
  ℕ, zero, suc, ◌≡◌, refl, ap, arith, false, Option, none, List, [], ◌∷◌, ◌++◌, ◌==◌, Bool-cases,
  Option-cases, inl, inr, not, if◌then◌else◌,
}
use runtime_monitor.Verifier.State.{
  Verifier, ThreadState, Stats, DeadlockState, Report, max_threads, thread_at, mutex_at,
}
use runtime_monitor.Verifier.Lookup.{
  thread_slot, mutex_slot, claim_thread, claim_mutex, find_thread, find_mutex, thread_index,
}
use runtime_monitor.Verifier.Slots.{Slot, found, missing}
use runtime_monitor.Verifier.Reports.{printed_owner}
use runtime_monitor.Verifier.Cycle.{
  usable, ownerless, edge_to, edge_through, edge_of, wait_edge, visited_before, mask_bit, mask_of,
  close_cycle, walk, find_cycle_from, any_cycle_from, find_any_cycle,
}

module _ (v : Verifier) (s : Stats) (d : DeadlockState) (out : List Report) where
  -- The same tables, with other counters, deadlock state and output.
  abbrev pub with_rest : Verifier
  with_rest = record v { stats = s; deadlock = d; output = out }

  claim_thread_frame :
      (id : ℕ) (x : Slot) → (claim_thread with_rest id false x).0 ≡ (claim_thread v id false x).0
  claim_thread_frame id (found i) = refl
  claim_thread_frame id (missing f) = refl

  find_thread_frame : (id : ℕ) → (find_thread with_rest id false).0 ≡ (find_thread v id false).0
  unfolding find_thread
  find_thread_frame id = claim_thread_frame id (thread_slot v id)

  claim_mutex_frame :
      (a : ℕ) (x : Slot) → (claim_mutex with_rest a false x).0 ≡ (claim_mutex v a false x).0
  claim_mutex_frame a (found j) = refl
  claim_mutex_frame a (missing f) = refl

  find_mutex_frame : (a : ℕ) → (find_mutex with_rest a false).0 ≡ (find_mutex v a false).0
  unfolding find_mutex
  find_mutex_frame a = claim_mutex_frame a (mutex_slot v a)

  edge_to_frame : (a o : ℕ) → edge_to with_rest a o ≡ edge_to v a o
  edge_to_frame a o = rw (find_thread_frame o, edge_to)

  edge_through_frame : (a : ℕ) → edge_through with_rest a ≡ edge_through v a
  edge_through_frame a = elim (Option-cases (find_mutex v a false).0) [
    | inl e ↦ rw (find_mutex_frame a, e, edge_through)
    | inr (j, e) ↦
        rw (find_mutex_frame a, e, edge_through)
          (ap (λ (x : Option (ℕ × ℕ)). if ownerless (mutex_at v j) then none else x)
            (edge_to_frame a (mutex_at v j).owner_thread_id))
  ]

  edge_of_frame : (i : ℕ) → edge_of with_rest i ≡ edge_of v i
  edge_of_frame i =
      ap
        (λ (x : Option (ℕ × ℕ)).
          if not (usable (thread_at v i))
          then none
          else if (thread_at v i).waiting_mutex == 0
          then none
          else x)
        (edge_through_frame (thread_at v i).waiting_mutex)

  wait_edge_frame : (t : ℕ) → wait_edge with_rest t ≡ wait_edge v t
  unfolding wait_edge
  wait_edge_frame t = elim (Option-cases (find_thread v t false).0) [
    | inl e ↦ rw (find_thread_frame t, e, wait_edge)
    | inr (i, e) ↦ rw (find_thread_frame t, e, wait_edge) (edge_of_frame i)
  ]

  mask_of_frame : (m : ℕ) (ids : List ℕ) → mask_of with_rest m ids ≡ mask_of v m ids
  unfolding mask_of thread_index
  mask_of_frame m [] = refl
  mask_of_frame m (id ∷ ids) = mask_of_frame (mask_bit v m id) ids

  close_cycle_frame : (ts ms : List ℕ) → close_cycle with_rest ts ms ≡ close_cycle v ts ms
  close_cycle_frame ts ms = rw (mask_of_frame 0 ts)

  walk_frame :
      (start fuel current : ℕ) (ids ms : List ℕ)
      → walk with_rest start fuel current ids ms ≡ walk v start fuel current ids ms
  unfolding walk
  walk_frame start zero current ids ms = refl
  walk_frame start (suc fuel) current ids ms = elim (Option-cases (wait_edge v current)) [
    | inl e ↦ rw (wait_edge_frame current, e, walk)
    | inr ((a, o), e) ↦
        rw (wait_edge_frame current, e, walk)
          (elim (Bool-cases (o == start)) [
            | inl back ↦ rw back (close_cycle_frame (ids ++ current ∷ []) (ms ++ a ∷ []))
            | inr on ↦ elim (Bool-cases (visited_before o (ids ++ current ∷ []))) [
              | inl seen ↦ rw (on, seen)
              | inr new ↦
                  rw (on, new) (walk_frame start fuel o (ids ++ current ∷ []) (ms ++ a ∷ []))
            ]
          ])
  ]

  any_cycle_frame : (ts : List ThreadState) → any_cycle_from with_rest ts ≡ any_cycle_from v ts
  unfolding any_cycle_from find_cycle_from
  any_cycle_frame [] = refl
  any_cycle_frame (t ∷ ts) =
      ground (arith, walk_frame t.thread_id max_threads t.thread_id [] [], any_cycle_frame ts)

  pub find_any_cycle_frame : find_any_cycle with_rest ≡ find_any_cycle v
  unfolding find_any_cycle
  find_any_cycle_frame = any_cycle_frame v.threads

  pub printed_owner_frame : (a : ℕ) → printed_owner with_rest a ≡ printed_owner v a
  unfolding printed_owner
  printed_owner_frame a = rw (find_mutex_frame a, printed_owner)
