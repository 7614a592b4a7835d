-- ===== src/Targets/Scripts/Explore.antt =====
-- targets/: all schedules of a small program at once.
use runtime_monitor.Base.{
  ℕ, zero, suc, ◌≡◌, refl, sym, ap, ◌∙◌, Bool, true, false, not, ◌&&◌, Option, none, some, List, [],
  ◌∷◌, Option-cases, ◌||◌, inl, inr, subst,
}
use runtime_monitor.Targets.Scripts.{
  Who, main, first, second, Process, step, moved, run, can_move, stuck,
}

abbrev pub after : (Process → Bool) → Option Process → Bool
after f none = true
after f (some p) = f p

-- The test holds now and after every step, as deep as `fuel`, where nothing may move any more.
unfoldable pub check : (Process → Bool) → ℕ → Process → Bool
check test zero p = test p && stuck p
check test (suc fuel) p =
    test p
    && (after (check test fuel) (step main p)
        && (after (check test fuel) (step first p) && after (check test fuel) (step second p)))

both : (a b : Bool) → (a && b) ≡ true → (a ≡ true) × (b ≡ true)
both true b e = (refl, e)
both false b e = absurd (cc)

check_now :
    (test : Process → Bool) (fuel : ℕ) (p : Process) → check test fuel p ≡ true → test p ≡ true
unfolding check
check_now test zero p e = (both (test p) _ e).0
check_now test (suc fuel) p e = (both (test p) _ e).0

cannot : (o : Option Process) → not (can_move o) ≡ true → o ≡ none
cannot none e = refl
cannot (some p) e = absurd (cc)

at_end : (w : Who) (p : Process) → stuck p ≡ true → step w p ≡ none
at_end main p e = cannot (step main p) (both _ _ e).0
at_end first p e = cannot (step first p) (both _ _ (both _ _ e).1).0
at_end second p e = cannot (step second p) (both _ _ (both _ _ e).1).1

below :
    (test : Process → Bool) (fuel : ℕ) (w : Who) (p : Process)
    → check test (suc fuel) p ≡ true
    → after (check test fuel) (step w p) ≡ true
unfolding check
below test fuel main p e = (both _ _ (both (test p) _ e).1).0
below test fuel first p e = (both _ _ (both _ _ (both (test p) _ e).1).1).0
below test fuel second p e = (both _ _ (both _ _ (both (test p) _ e).1).1).1

-- What the check has seen holds in every schedule, of any length.
pub check_sound :
    (test : Process → Bool) (fuel : ℕ) (p : Process) (schedule : List Who)
    → check test fuel p ≡ true
    → test (run schedule p) ≡ true
unfolding check
check_sound test fuel p [] e = check_now test fuel p e
check_sound test zero p (w ∷ ws) e =
    subst (λ o. test (run ws (moved p o)) ≡ true) (sym (at_end w p (both (test p) _ e).1))
      (check_sound test zero p ws e)
check_sound test (suc fuel) p (w ∷ ws) e = elim (Option-cases (step w p)) [
  | inl stays ↦
      subst (λ o. test (run ws (moved p o)) ≡ true) (sym stays) (check_sound test (suc fuel) p ws e)
  | inr (p', goes) ↦
      subst (λ o. test (run ws (moved p o)) ≡ true) (sym goes)
        (check_sound test fuel p' ws
          (sym (ap (after (check test fuel)) goes) ∙ below test fuel w p e))
]

-- A test of the states in which nothing moves.
pub at_every_end :
    (test : Process → Bool) (fuel : ℕ) (p : Process) (schedule : List Who)
    → check (λ q. not (stuck q) || test q) fuel p ≡ true
    → stuck (run schedule p) ≡ true
    → test (run schedule p) ≡ true
at_every_end test fuel p schedule e end =
    holds (stuck (run schedule p)) (test (run schedule p)) end
      (check_sound (λ q. not (stuck q) || test q) fuel p schedule e)
  where
    holds : (a b : Bool) → a ≡ true → (not a || b) ≡ true → b ≡ true
    holds true b h k = k
    holds false b h k = absurd (cc)
