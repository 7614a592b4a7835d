-- ===== src/Verifier/Deadlock/Confirm.antt =====
-- src/monitor_verifier.c, `monitor_verifier_check_deadlocks`: sequences of checks and what they report.
use mathlib.Core.Path.{fun_ext}
use runtime_monitor.Base.{
  ℕ, zero, suc, ◌+◌, ◌≤◌, ◌≡◌, ◌≢◌, ◌⊎◌, inl, inr, refl, sym, ◌∙◌, ap, subst, arith, true, false,
  some, List, [], ◌∷◌, map, ◌==◌, if◌then◌else◌, ltb, u64, Bool-cases, Option-cases, length,
  two-le-count, Distinct,
}
use runtime_monitor.Verifier.State.{
  Verifier, Stats, DeadlockState, Report, deadlock_cycle, zero_thread, thread_at, uint32_max,
  confirmations_required,
}
use runtime_monitor.Verifier.Reports.{printed_owner, report_deadlock_cycle}
use runtime_monitor.Verifier.Invariant.{IsValid, is_waiting, lt_of_used}
use runtime_monitor.Verifier.Cycle.{Cycle, mask_of, find_any_cycle}
use runtime_monitor.Verifier.Cycle.Spec.{Chain, IsCycle}
use runtime_monitor.Verifier.Cycle.Completeness.{find_any_cycle-IsCycle}
use runtime_monitor.Verifier.Cycle.Frame.{with_rest, find_any_cycle_frame, printed_owner_frame}
use runtime_monitor.Verifier.Deadlock.{confirm, cycle_seen, check_deadlocks}

-- A cycle has two waiting threads, so the test on their number lets it pass.
pub two-le-waiting :
    (v : Verifier) (start : ℕ) (ts ms : List ℕ)
    → IsValid v
    → IsCycle v start ts ms
    → 2 ≤ v.waiting_thread_count
two-le-waiting v start ts ms ok c = go ts ms c.closed c.distinct c.long
  where
    go :
        (xs ys : List ℕ)
        → Chain v start xs ys start
        → Distinct xs
        → 2 ≤ length xs
        → 2 ≤ v.waiting_thread_count
    go [] ys c d h = absurd (omega arith)
    go (x ∷ []) ys c d h = absurd (omega arith)
    go (x ∷ x2 ∷ xs) [] c d h = absurd c
    go (x ∷ x2 ∷ xs) (y ∷ []) (q, o, w, c) d h = absurd c
    go (x ∷ x2 ∷ xs) (y ∷ y2 ∷ ys) (q, o, w, (q2, o2, w2, c)) d h = omega (
      arith,
      ok.waiting_counted,
      two-le-count is_waiting v.threads w.i w2.i zero_thread
          (lt_of_used v.threads w.i w.waiter.used) (lt_of_used v.threads w2.i w2.waiter.used)
          (λ e. d.0.0 (
            q2
            ∙ sym w2.waiter.is_thread
            ∙ ap (λ k. (thread_at v k).thread_id) (sym e)
            ∙ w.waiter.is_thread
            ∙ sym q))
          (ground (arith, w.waits, w.for_one)) (ground (arith, w2.waits, w2.for_one)),
    )

-- The text of the report on a cycle.
abbrev pub report_of : Verifier → Cycle → Report
report_of v c =
    deadlock_cycle v.last_processed_sequence (length c.threads) c.threads c.mutexes
      (map (printed_owner v) c.mutexes)

-- The report is written with other counters and another deadlock state.
report_of_frame :
    (v : Verifier) (c : Cycle) (s : Stats) (d : DeadlockState) (out : List Report)
    → report_of (with_rest v s d out) c ≡ report_of v c
report_of_frame v c s d out =
    ap
      (λ (owners : ℕ → ℕ).
        deadlock_cycle v.last_processed_sequence (length c.threads) c.threads c.mutexes
          (map owners c.mutexes))
      (fun_ext (printed_owner_frame v s d out))

cycle_seen_reports :
    (v : Verifier) (c : Cycle)
    → ((cycle_seen v c).output ≡ v.output)
      ⊎ ((v.deadlock.candidate_cycle_mask ≡ c.mask)
          × (v.deadlock.reported_cycle_mask ≢ c.mask)
          × (1 ≤ v.deadlock.candidate_cycle_confirmations)
          × ((cycle_seen v c).output ≡ report_of v c ∷ v.output))
unfolding cycle_seen report_deadlock_cycle
cycle_seen_reports v c = elim (Bool-cases (v.deadlock.candidate_cycle_mask == c.mask)) [
  | inr new ↦ inl (rw new)
  | inl same ↦
      elim (Bool-cases
        (ltb (confirm v).deadlock.candidate_cycle_confirmations confirmations_required)) [
          | inl few ↦ inl (rw (same, few))
          | inr enough ↦ elim (Bool-cases (v.deadlock.reported_cycle_mask == c.mask)) [
            | inl old ↦ inl (rw (same, enough, old))
            | inr fresh ↦ inr (
              ground arith,
              λ e. ground arith,
              ground arith,
              rw (same, enough, fresh)
                  (ap (λ r. r ∷ v.output) (report_of_frame v c v.stats _ v.output)),
            )
          ]
        ]
]

-- In any state at all, a deadlock check writes nothing, or one report on a cycle of the wait-for
-- graph. In that case the mask of the cycle is that of its threads, it is the candidate with at least
-- one confirmation before this check, and it is not the mask reported last.
pub check_deadlocks_reports :
    (v : Verifier)
    → ((check_deadlocks v).output ≡ v.output)
      ⊎ ((c : Cycle) × (start : ℕ) × IsCycle v start c.threads c.mutexes
          × (c.mask ≡ mask_of v 0 c.threads)
          × (v.deadlock.candidate_cycle_mask ≡ c.mask)
          × (v.deadlock.reported_cycle_mask ≢ c.mask)
          × (1 ≤ v.deadlock.candidate_cycle_confirmations)
          × ((check_deadlocks v).output ≡ report_of v c ∷ v.output))
unfolding check_deadlocks
check_deadlocks_reports v = elim (Bool-cases (ltb v.waiting_thread_count 2)) [
  | inl few ↦ inl (rw few)
  | inr more ↦ elim (Option-cases (find_any_cycle v)) [
    | inl e ↦ inl (rw (more, e))
    | inr (c, e) ↦ elim (cycle_seen_reports v c) [
      | inl same ↦ inl (rw (more, e) same)
      | inr (cand, rep, conf, out) ↦
          let (start, cycle, mask) = find_any_cycle-IsCycle v c e in
          inr (c, start, cycle, mask, cand, rep, conf, rw (more, e) out)
    ]
  ]
]

-- Checks with no event between them.
abbrev pub checks : ℕ → Verifier → Verifier
checks zero v = v
checks (suc n) v = checks n (check_deadlocks v)

abbrev pub noted : (mask confirmations reported : ℕ) → DeadlockState
noted mask confirmations reported = record {
  candidate_cycle_mask = mask;
  candidate_cycle_confirmations = confirmations;
  reported_cycle_mask = reported;
}

-- One more deadlock counted.
abbrev pub counted : Stats → Stats
counted s = record s { deadlock_cycle_violations = u64 (s.deadlock_cycle_violations + 1) }

module _ (v : Verifier) (c : Cycle) (found : find_any_cycle v ≡ some c)
    (two : 2 ≤ v.waiting_thread_count) where
  check_at :
      (s : Stats) (d : DeadlockState) (out : List Report)
      → check_deadlocks (with_rest v s d out) ≡ cycle_seen (with_rest v s d out) c
  unfolding check_deadlocks
  check_at s d out =
      let many : ltb v.waiting_thread_count 2 ≡ false = ground arith in
      rw (many, find_any_cycle_frame v s d out ∙ found, check_deadlocks)

  abbrev next : ℕ → ℕ
  next conf = if ltb conf uint32_max then conf + 1 else conf

  settled_check :
      (s : Stats) (conf : ℕ) (out : List Report)
      → 1 ≤ conf
      → check_deadlocks (with_rest v s (noted c.mask conf c.mask) out)
        ≡ with_rest v s (noted c.mask (next conf) c.mask) out
  unfolding cycle_seen
  settled_check s conf out h =
      let same : (c.mask == c.mask) ≡ true = ground arith in
      let enough : ltb (next conf) confirmations_required ≡ false = ground arith in
      check_at s (noted c.mask conf c.mask) out ∙ (rw (cycle_seen, same, enough))

  -- Once reported, the cycle is seen again and again without a word.
  checks_settled :
      (n : ℕ) (s : Stats) (conf : ℕ) (out : List Report)
      → 1 ≤ conf
      → let w = checks n (with_rest v s (noted c.mask conf c.mask) out) in
        (w.output ≡ out) × (w.stats ≡ s)
  checks_settled zero s conf out h = (refl, refl)
  checks_settled (suc n) s conf out h =
      subst (λ (w : Verifier). ((checks n w).output ≡ out) × ((checks n w).stats ≡ s))
        (sym (settled_check s conf out h)) (checks_settled n s (next conf) out (ground arith))

  first_check :
      v.deadlock.candidate_cycle_mask ≢ c.mask
      → check_deadlocks v
        ≡ with_rest v v.stats (noted c.mask 1 v.deadlock.reported_cycle_mask) v.output
  unfolding cycle_seen
  first_check new =
      let other : (v.deadlock.candidate_cycle_mask == c.mask) ≡ false = ground arith in
      check_at v.stats v.deadlock v.output ∙ (rw (cycle_seen, other))

  second_check :
      (s : Stats) (r : ℕ) (out : List Report)
      → r ≢ c.mask
      → check_deadlocks (with_rest v s (noted c.mask 1 r) out)
        ≡ with_rest v (counted s) (noted c.mask 2 c.mask) (report_of v c ∷ out)
  unfolding cycle_seen report_deadlock_cycle
  second_check s r out fresh =
      let same : (c.mask == c.mask) ≡ true = ground arith in
      let other : (r == c.mask) ≡ false = ground arith in
      check_at s (noted c.mask 1 r) out
      ∙ (rw (cycle_seen, same, other)
          (ap (λ t. with_rest v (counted s) (noted c.mask 2 c.mask) (t ∷ out))
            (report_of_frame v c s (noted c.mask 2 c.mask) out)))

  -- The first two checks, and the others.
  checks_report :
      (n : ℕ)
      → v.deadlock.candidate_cycle_mask ≢ c.mask
      → v.deadlock.reported_cycle_mask ≢ c.mask
      → ((check_deadlocks v).output ≡ v.output)
        × ((checks (suc (suc n)) v).output ≡ report_of v c ∷ v.output)
        × ((checks (suc (suc n)) v).stats ≡ counted v.stats)
  checks_report n new fresh =
      let two_checks =
        ap check_deadlocks (first_check new)
        ∙ second_check v.stats v.deadlock.reported_cycle_mask v.output fresh in
      let settled = checks_settled n (counted v.stats) 2 (report_of v c ∷ v.output) (omega arith) in
      (
        ap (λ (w : Verifier). w.output) (first_check new),
        ap (λ (w : Verifier). (checks n w).output) two_checks ∙ settled.0,
        ap (λ (w : Verifier). (checks n w).stats) two_checks ∙ settled.1,
      )

-- Let the search of a valid state find cycle `c`, whose mask is neither the candidate nor the last one
-- reported. Then the first check writes nothing, and two or more checks in a row, with no event
-- between, write one report on `c` and count one violation.
pub deadlock_reported_once :
    (v : Verifier) (c : Cycle) (n : ℕ)
    → IsValid v
    → find_any_cycle v ≡ some c
    → v.deadlock.candidate_cycle_mask ≢ c.mask
    → v.deadlock.reported_cycle_mask ≢ c.mask
    → ((check_deadlocks v).output ≡ v.output)
      × ((checks (suc (suc n)) v).output ≡ report_of v c ∷ v.output)
      × ((checks (suc (suc n)) v).stats ≡ counted v.stats)
deadlock_reported_once v c n ok found new fresh =
    let (start, cycle, mask) = find_any_cycle-IsCycle v c found in
    checks_report v c found (two-le-waiting v start c.threads c.mutexes ok cycle) n new fresh
