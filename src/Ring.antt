-- ===== src/Ring.antt =====
-- src/ring_buffer.c and include/ring_buffer.h: the single-producer single-consumer queue of one
-- application thread, with the producer's and the consumer's call each run as a whole.
use runtime_monitor.Base.{
  ℕ, ◌+◌, ◌%◌, Bool, true, false, Option, none, some, List, leb, ◌==◌, if◌then◌else◌, u64, sub_u64,
  get_or, set,
}
use runtime_monitor.Event.{Event, zero_event}
pub mod Bounds
pub mod Fifo
pub mod Interleave
mod Tests

-- `SPSC_RING_CAPACITY`
abbrev pub capacity : ℕ
capacity = 2048

-- `x & SPSC_RING_MASK`: the low eleven bits of a position.
abbrev pub slot_of : ℕ → ℕ
slot_of x = x % capacity

-- `spsc_ring_buffer_t`
pub record Ring : Type 0 where
  pub head : ℕ
  pub tail : ℕ
  pub slots : List Event

-- Initialisation leaves the slots as they are.
pub init : Ring → Ring
init r = record r { head = 0; tail = 0 }

pub try_push : Ring → Event → Bool × Ring
try_push r e =
    if leb capacity (sub_u64 r.head r.tail)
    then (false, r)
    else (true, record r { slots = set r.slots (slot_of r.head) e; head = u64 (r.head + 1) })

-- `none` is the result `false`; `some e` is `true` with `e` stored through the pointer.
pub try_pop : Ring → Option Event × Ring
try_pop r =
    if r.tail == r.head
    then (none, r)
    else (some (get_or r.slots (slot_of r.tail) zero_event), record r { tail = u64 (r.tail + 1) })
