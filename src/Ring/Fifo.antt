-- ===== src/Ring/Fifo.antt =====
-- src/ring_buffer.c: the ring as a bounded first-in first-out queue of events.
use runtime_monitor.Base.{
  ℕ, zero, suc, ◌+◌, ◌-◌, ◌<◌, ◌≡◌, refl, ap, ap₂, arith, Bool, true, false, Option, none, some,
  List, [], ◌∷◌, ◌++◌, leb, if◌then◌else◌, u64, length, get_or, set, get_or-set_self, get_or-set_ne,
}
use runtime_monitor.Event.{Event, zero_event}
use runtime_monitor.Ring.{Ring, capacity, slot_of, try_push, try_pop}
use runtime_monitor.Ring.Bounds.{size, IsValid}

-- The specification: events in order, the oldest first.
abbrev pub Queue : Type 0
Queue = List Event

unfoldable pub enqueue : Queue → Event → Bool × Queue
enqueue q e = if leb capacity (length q) then (false, q) else (true, q ++ e ∷ [])

unfoldable pub dequeue : Queue → Option Event × Queue
dequeue [] = (none, [])
dequeue (e ∷ q) = (some e, q)

module _ (slots : List Event) where
  -- the `n` events from position `p` on
  abbrev pub window : ℕ → ℕ → Queue
  window p zero = []
  window p (suc n) = get_or slots (slot_of p) zero_event ∷ window (u64 (p + 1)) n

  length-window : (p n : ℕ) → length (window p n) ≡ n
  length-window p zero = refl
  length-window p (suc n) = ap suc (length-window (u64 (p + 1)) n)

  pub window_of_pos :
      (p n : ℕ)
      → 0 < n
      → window p n ≡ get_or slots (slot_of p) zero_event ∷ window (u64 (p + 1)) (n - 1)
  window_of_pos p zero h = absurd (omega arith)
  window_of_pos p (suc n) h = ap (λ k. window p (suc k)) (omega arith)

abbrev pub contents : Ring → Queue
contents r = window r.slots r.tail (size r)

pub length-contents : (r : Ring) → length (contents r) ≡ size r
length-contents r = length-window r.slots r.tail (size r)

-- Writing the slot just past a window that is not full extends it by that event.
window-set :
    (slots : List Event) (e : Event) (n p i : ℕ)
    → length slots ≡ capacity
    → n < capacity
    → i ≡ slot_of (p + n)
    → window (set slots i e) p (suc n) ≡ window slots p n ++ (e ∷ [])
window-set slots e zero p i hs hn h =
    let at_p : i ≡ slot_of p = omega arith in
    rw at_p (ap (λ x. x ∷ []) (get_or-set_self slots (slot_of p) e zero_event (omega arith)))
window-set slots e (suc n) p i hs hn h =
    ap₂ ◌∷◌ (get_or-set_ne slots i (slot_of p) e zero_event (omega arith))
      (window-set slots e n (u64 (p + 1)) i hs (omega arith) (omega arith))

push_window :
    (r : Ring) (e : Event)
    → IsValid r
    → size r < capacity
    → window (set r.slots (slot_of r.head) e) r.tail (suc (size r)) ≡ contents r ++ (e ∷ [])
push_window r e v h =
    window-set r.slots e (size r) r.tail (slot_of r.head) v.storage h (omega arith)

-- A push on a valid ring gives the answer of the bounded queue, and leaves its queue behind: the event
-- is the last one, or the queue is full and unchanged, also where positions wrap around.
pub try_push_refines :
    (r : Ring) (e : Event)
    → IsValid r
    → let (done, r') = try_push r e in (done, contents r') ≡ enqueue (contents r) e
unfolding try_push enqueue
try_push_refines r e v = ground (arith, length-contents r, push_window r e v)

-- A pop on a valid ring gives the oldest event of the queue and leaves the rest behind, or reports an
-- empty queue and changes nothing.
pub try_pop_refines :
    (r : Ring) → IsValid r → let (out, r') = try_pop r in (out, contents r') ≡ dequeue (contents r)
unfolding try_pop dequeue
try_pop_refines r v = ground (arith, window_of_pos r.slots r.tail (size r))

-- A push on a ring with room appends the event.
pub try_push_appends :
    (r : Ring) (e : Event)
    → IsValid r
    → size r < capacity
    → ((try_push r e).0 ≡ true) × (contents (try_push r e).1 ≡ contents r ++ e ∷ [])
unfolding try_push
try_push_appends r e v h = (ground arith, ground (arith, push_window r e v h))
