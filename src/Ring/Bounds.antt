-- ===== src/Ring/Bounds.antt =====
-- src/ring_buffer.c: the representation invariant of the ring and the number of events stored.
use runtime_monitor.Base.{
  ◌+◌, none, some, List, ◌⊎◌, inl, inr, refl, ◌==◌, if◌then◌else◌, Bool-cases, ℕ, ◌^◌, ◌≤◌, ◌<◌,
  ◌≡◌, arith, sub_u64, length, get_or, length-set,
}
use runtime_monitor.Event.{Event, zero_event}
use runtime_monitor.Ring.{Ring, capacity, slot_of, init, try_push, try_pop}

-- the number of events stored
abbrev pub size : Ring → ℕ
size r = sub_u64 r.head r.tail

pub record IsValid (r : Ring) : Type 0 where
  pub storage : length r.slots ≡ capacity
  pub head_word : r.head < 2 ^ 64
  pub tail_word : r.tail < 2 ^ 64
  pub fits : size r ≤ capacity

-- Any ring with both positions at 0.
pub empty-IsValid :
    (slots : List Event)
    → length slots ≡ capacity
    → IsValid (record { head = 0; tail = 0; slots = slots })
empty-IsValid slots h = record {
  storage = h;
  head_word = omega arith;
  tail_word = omega arith;
  fits = omega arith;
}

pub size-init : (r : Ring) → size (init r) ≡ 0
unfolding init
size-init r = omega arith

pub init-IsValid : (r : Ring) → length r.slots ≡ capacity → IsValid (init r)
unfolding init
init-IsValid r h = empty-IsValid r.slots h

-- A push on a valid ring, whether it succeeds or finds the ring full, leaves a valid ring: its storage
-- keeps its size, the positions are 64-bit words, and at most a capacity of events is stored.
pub try_push-IsValid : (r : Ring) (e : Event) → IsValid r → IsValid (try_push r e).1
unfolding try_push
try_push-IsValid r e v = ground (arith, length-set r.slots (slot_of r.head) e)

-- A pop on a valid ring, whether it finds an event or none, leaves a valid ring.
pub try_pop-IsValid : (r : Ring) → IsValid r → IsValid (try_pop r).1
unfolding try_pop
try_pop-IsValid r v = ground arith

pub size-try_push :
    (r : Ring) (e : Event)
    → IsValid r
    → size (try_push r e).1 ≡ (if (try_push r e).0 then size r + 1 else size r)
unfolding try_push
size-try_push r e v = ground arith

-- A pop finds the ring empty and changes nothing, or takes one event out.
pub size-try_pop :
    (r : Ring)
    → IsValid r
    → (((try_pop r).0 ≡ none) × (size r ≡ 0))
      ⊎ ((e : Event) × ((try_pop r).0 ≡ some e) × (size (try_pop r).1 + 1 ≡ size r))
unfolding try_pop
size-try_pop r v = elim (Bool-cases (r.tail == r.head)) [
  | inl e ↦ inl (rw e refl, ground arith)
  | inr e ↦ inr (get_or r.slots (slot_of r.tail) zero_event, rw e refl, rw e (ground arith))
]
