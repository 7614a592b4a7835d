-- ===== src/Ring/Interleave/Run.antt =====
-- src/ring_buffer.c: runs of the producer and the consumer, interleaved in any way.
use runtime_monitor.Base.{◌≡◌, refl, sym, ◌∙◌, ap, List, [], ◌∷◌, ◌++◌}
use runtime_monitor.Ring.Fifo.{Queue, contents}
use runtime_monitor.Ring.Interleave.{Shared, Effect, nothing, appends, takes, Step, Consistent}
use runtime_monitor.Ring.Interleave.Linear.{Follows, Step-Follows}

pub data Run : Shared → List Effect → Shared → Type 0 where
  done : {s : Shared} → Run s [] s
  step :
      {s t u : Shared} {f : Effect} {fs : List Effect} → Step s f t → Run t fs u → Run s (f ∷ fs) u

-- The events that pushes have published, and those that pops have returned, in order.
abbrev pub pushed : List Effect → Queue
pushed [] = []
pushed (nothing ∷ fs) = pushed fs
pushed (appends e ∷ fs) = e ∷ pushed fs
pushed (takes e ∷ fs) = pushed fs

abbrev pub popped : List Effect → Queue
popped [] = []
popped (nothing ∷ fs) = popped fs
popped (appends e ∷ fs) = popped fs
popped (takes e ∷ fs) = e ∷ popped fs

append_assoc : (xs ys zs : Queue) → (xs ++ ys) ++ zs ≡ xs ++ (ys ++ zs)
append_assoc [] ys zs = refl
append_assoc (x ∷ xs) ys zs = ap (λ q. x ∷ q) (append_assoc xs ys zs)

append_nil : (xs : Queue) → xs ++ [] ≡ xs
append_nil [] = refl
append_nil (x ∷ xs) = ap (λ q. x ∷ q) (append_nil xs)

-- One effect before the others.
Follows-first :
    (f : Effect) (fs : List Effect) (q q1 q2 : Queue)
    → Follows q f q1
    → q1 ++ pushed fs ≡ popped fs ++ q2
    → q ++ pushed (f ∷ fs) ≡ popped (f ∷ fs) ++ q2
Follows-first nothing fs q q1 q2 e h = ap (λ x. x ++ pushed fs) (sym e) ∙ h
Follows-first (appends a) fs q q1 q2 e h =
    sym (append_assoc q (a ∷ []) (pushed fs)) ∙ ap (λ x. x ++ pushed fs) (sym e) ∙ h
Follows-first (takes a) fs q q1 q2 e h = ap (λ x. x ++ pushed fs) e ∙ ap (λ x. a ∷ x) h

-- In any run of single loads, stores and copies of the two threads from a consistent state, the events
-- in the queue at first and those pushed since, in order, are those popped since and those in the
-- queue at the end; and the end is consistent.
pub Run-IsFifo :
    {s s' : Shared} {fs : List Effect}
    → Run s fs s'
    → Consistent s
    → Consistent s' × (contents s.ring ++ pushed fs ≡ popped fs ++ contents s'.ring)
Run-IsFifo (done {s}) c = (c, append_nil (contents s.ring))
Run-IsFifo (step {s} {t} {u} {f} {fs} x rest) c =
    let (c1, e) = Step-Follows x c in
    let (c2, h) = Run-IsFifo rest c1 in
    (c2, Follows-first f fs (contents s.ring) (contents t.ring) (contents u.ring) e h)
