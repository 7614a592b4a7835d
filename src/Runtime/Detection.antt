-- ===== src/Runtime/Detection.antt =====
-- src/monitor_runtime.c, `monitor_consumer_main`: the rounds of the consumer in which no thread has
-- anything to say, and the deadlock checks that they make.
use runtime_monitor.Base.{
  ℕ, zero, suc, ◌<◌, ◌≡◌, refl, sym, ap, ap₂, ◌∙◌, arith, Bool, true, false, [], ◌∷◌, List, map,
  length, if_true,
}
use runtime_monitor.Verifier.State.{Verifier, deadlock_cycle, mutex_at}
use runtime_monitor.Verifier.Reports.{printed_owner}
use runtime_monitor.Verifier.Cycle.Edges.{mutex_found}
use runtime_monitor.Verifier.Invariant as Valid
use runtime_monitor.Verifier.Cycle.Spec.{IsCycle, Chain, Owned}
use runtime_monitor.Verifier.Cycle.Mask.{mask_pos}
use runtime_monitor.Verifier.Cycle.Completeness.{find_any_cycle_complete, find_any_cycle-IsCycle}
use runtime_monitor.Verifier.Deadlock.{check_deadlocks}
use runtime_monitor.Verifier.Deadlock.Confirm.{checks, deadlock_reported_once}
use runtime_monitor.Runtime.State.{Runtime}
use runtime_monitor.Runtime.Consumer.{drain_all, check_if_quiet, consumer_round}
use runtime_monitor.Runtime.Conservation.{IsValid, frame-IsValid}
use runtime_monitor.Runtime.Draining.{queued, Progress}
use runtime_monitor.Runtime.Shutdown.{drain_all-Progress}

-- So many rounds of the consumer.
abbrev pub rounds : ℕ → Runtime → Runtime
rounds zero r = r
rounds (suc n) r = rounds n (consumer_round r).1

abbrev with_verifier : Runtime → Verifier → Runtime
with_verifier r v = record r { verifier = v }

nothing_drained :
    (r : Runtime)
    → IsValid r
    → queued r ≡ 0
    → drain_all r.next_thread_slot 0 (false, r) ≡ (false, r)
nothing_drained r ok empty =
    unchanged _ (drain_all-Progress r.next_thread_slot 0 false r ok (omega (arith, ok.slots))).0
  where
    unchanged : (x : Bool × Runtime) → Progress false r x.0 x.1 → x ≡ (false, r)
    unchanged (true, r') p = absurd (omega (arith, p.fewer, empty))
    unchanged (false, r') p = ap (λ s. (false, s)) (p.quiet refl).1

-- A round with empty queues is one deadlock check.
idle_round :
    (r : Runtime)
    → IsValid r
    → queued r ≡ 0
    → (consumer_round r).1 ≡ with_verifier r (check_deadlocks r.verifier)
unfolding consumer_round
idle_round r ok empty = ap (λ x. (check_if_quiet x).1) (nothing_drained r ok empty)

idle_rounds :
    (n : ℕ) (r : Runtime)
    → IsValid r
    → queued r ≡ 0
    → rounds n r ≡ with_verifier r (checks n r.verifier)
idle_rounds zero r ok empty = refl
idle_rounds (suc n) r ok empty =
    ap (rounds n) (idle_round r ok empty)
    ∙ idle_rounds n (with_verifier r (check_deadlocks r.verifier)) (frame-IsValid r _ refl refl ok)
        empty

-- The thread after each thread of a cycle, where `e` is after the last one.
abbrev pub following : List ℕ → ℕ → List ℕ
following [] e = []
following (t ∷ []) e = e ∷ []
following (t ∷ u ∷ ts) e = u ∷ following (u ∷ ts) e

-- The report prints the owner that the graph knows.
printed_owner-Owned :
    (v : Verifier) (a o j : ℕ) → Valid.IsValid v → Owned v a o j → printed_owner v a ≡ o
unfolding printed_owner
printed_owner-Owned v a o j valid owned =
    rw (printed_owner, mutex_found v a j valid owned.used owned.is_mutex)
      (if_true (mutex_at v j).owner_known _ _ owned.known ∙ owned.owner)

-- Along a walk, each mutex is owned by the next thread.
printed_owner-Chain :
    (v : Verifier) (s : ℕ) (ts ms : List ℕ) (e : ℕ)
    → Valid.IsValid v
    → Chain v s ts ms e
    → map (printed_owner v) ms ≡ following ts e
printed_owner-Chain v s [] [] e valid c = refl
printed_owner-Chain v s [] (a ∷ ms) e valid c = absurd c
printed_owner-Chain v s (t ∷ ts) [] e valid c = absurd c
printed_owner-Chain v s (t ∷ []) (a ∷ []) e valid (_, o, w, last) =
    ap (λ x. x ∷ []) (printed_owner-Owned v a o w.j valid w.owned ∙ last)
printed_owner-Chain v s (t ∷ []) (a ∷ b ∷ ms) e valid (_, o, w, last) = absurd last
printed_owner-Chain v s (t ∷ u ∷ ts) (a ∷ []) e valid (_, o, w, last) = absurd last
printed_owner-Chain v s (t ∷ u ∷ ts) (a ∷ b ∷ ms) e valid (_, o, w, rest) =
    ap₂ (λ x xs. x ∷ xs) (printed_owner-Owned v a o w.j valid w.owned ∙ sym rest.0)
      (printed_owner-Chain v o (u ∷ ts) (b ∷ ms) e valid rest)

-- From any valid state in which the queues are empty, the wait-for graph of the verifier has a cycle,
-- there is no candidate and no cycle has been reported yet, every two or more rounds of the consumer
-- write exactly one report. It has the threads of a cycle of that graph in order, for each the mutex it
-- waits for, and as the owner of that mutex the next thread of the cycle, the first one after the
-- last.
pub deadlock_found :
    (r : Runtime) (start : ℕ) (ts ms : List ℕ) (n : ℕ)
    → IsValid r
    → Valid.IsValid r.verifier
    → queued r ≡ 0
    → IsCycle r.verifier start ts ms
    → r.verifier.deadlock.candidate_cycle_mask ≡ 0
    → r.verifier.deadlock.reported_cycle_mask ≡ 0
    → (first : ℕ) × (threads : List ℕ) × (mutexes : List ℕ) × IsCycle r.verifier first threads
        mutexes
      × ((rounds (suc (suc n)) r).verifier.output
          ≡ deadlock_cycle r.verifier.last_processed_sequence
              (length threads)
              threads
              mutexes
              (following threads first)
            ∷ r.verifier.output)
deadlock_found r start ts ms n ok valid empty cycle fresh unreported =
    let (c, found) = find_any_cycle_complete r.verifier start ts ms valid cycle in
    let (first, real, mask) = find_any_cycle-IsCycle r.verifier c found in
    let positive : 0 < c.mask =
      omega (arith, mask, mask_pos r.verifier first c.threads c.mutexes valid real) in
    (
      first,
      c.threads,
      c.mutexes,
      real,
      ap (λ (x : Runtime). x.verifier.output) (idle_rounds (suc (suc n)) r ok empty)
          ∙ (deadlock_reported_once r.verifier c n valid found
              (λ e. absurd (omega (arith, e, fresh, positive)))
              (λ e. absurd (omega (arith, e, unreported, positive)))).1
          ∙ ap
              (λ owners.
                deadlock_cycle r.verifier.last_processed_sequence (length c.threads) c.threads
                  c.mutexes owners
                ∷ r.verifier.output)
              (printed_owner-Chain r.verifier first c.threads c.mutexes first valid real.closed),
    )
