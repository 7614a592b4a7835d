-- ===== src/Ring/Interleave.antt =====
-- src/ring_buffer.c at the grain of its atomic loads and stores: the producer and the consumer run at
-- the same time, each step being one load, one store or one copy of an event. The acquire and release
-- order makes each thread see the other's copies that precede the store it has loaded.
pub mod Linear
pub mod Run
pub mod Race
use runtime_monitor.Base.{
  ℕ, zero, suc, ◌+◌, ◌-◌, ◌%◌, ◌^◌, ◌≤◌, ◌<◌, ◌≡◌, ◌≢◌, ◌⊎◌, inl, inr, refl, sym, ◌∙◌, ap, ap₂,
  arith, Bool, true, false, List, [], ◌∷◌, ◌++◌, leb, ◌==◌, sub_u64, u64, length, get_or, set,
  length-set, get_or-set_self, get_or-set_ne,
}
use runtime_monitor.Event.{Event, zero_event}
use runtime_monitor.Ring.{Ring, capacity, slot_of}
use runtime_monitor.Ring.Bounds.{IsValid, size}
use runtime_monitor.Ring.Fifo.{window, contents}

-- How far `try_push` is, with its local variables.
pub data Pusher : Type 0 where
  rests : Pusher
  has_head : (e : Event) (head : ℕ) → Pusher
  has_both : (e : Event) (head tail : ℕ) → Pusher
  has_copied : (e : Event) (head : ℕ) → Pusher

-- How far `try_pop` is.
pub data Popper : Type 0 where
  rests : Popper
  has_tail : (tail : ℕ) → Popper
  has_both : (tail head : ℕ) → Popper
  has_copied : (e : Event) (tail : ℕ) → Popper

pub record Shared : Type 0 where
  pub ring : Ring
  pub pusher : Pusher
  pub popper : Popper

abbrev pub copy_in : Ring → ℕ → Event → Ring
copy_in r head e = record r { slots = set r.slots (slot_of head) e }

abbrev pub event_at : Ring → ℕ → Event
event_at r p = get_or r.slots (slot_of p) zero_event

-- The steps of both threads; the last argument says what a step does to the queue.
pub data Effect : Type 0 where
  nothing : Effect
  appends : Event → Effect
  takes : Event → Effect

pub data Step : Shared → Effect → Shared → Type 0 where
  load_head :
      (r : Ring) (q : Popper) (e : Event)
      → Step
          (record { ring = r; pusher = rests; popper = q })
          nothing
          (record { ring = r; pusher = has_head e r.head; popper = q })
  load_other_tail :
      (r : Ring) (q : Popper) (e : Event) (head : ℕ)
      → Step
          (record { ring = r; pusher = has_head e head; popper = q })
          nothing
          (record { ring = r; pusher = has_both e head r.tail; popper = q })
  find_full :
      (r : Ring) (q : Popper) (e : Event) (head tail : ℕ)
      → capacity ≤ sub_u64 head tail
      → Step
          (record { ring = r; pusher = has_both e head tail; popper = q })
          nothing
          (record { ring = r; pusher = rests; popper = q })
  fill :
      (r : Ring) (q : Popper) (e : Event) (head tail : ℕ)
      → sub_u64 head tail < capacity
      → Step
          (record { ring = r; pusher = has_both e head tail; popper = q })
          nothing
          (record { ring = copy_in r head e; pusher = has_copied e head; popper = q })
  publish :
      (r : Ring) (q : Popper) (e : Event) (head : ℕ)
      → Step
          (record { ring = r; pusher = has_copied e head; popper = q })
          (appends e)
          (record { ring = record r { head = u64 (head + 1) }; pusher = rests; popper = q })
  load_tail :
      (r : Ring) (p : Pusher)
      → Step
          (record { ring = r; pusher = p; popper = rests })
          nothing
          (record { ring = r; pusher = p; popper = has_tail r.tail })
  load_other_head :
      (r : Ring) (p : Pusher) (tail : ℕ)
      → Step
          (record { ring = r; pusher = p; popper = has_tail tail })
          nothing
          (record { ring = r; pusher = p; popper = has_both tail r.head })
  find_empty :
      (r : Ring) (p : Pusher) (tail head : ℕ)
      → tail ≡ head
      → Step
          (record { ring = r; pusher = p; popper = has_both tail head })
          nothing
          (record { ring = r; pusher = p; popper = rests })
  copy_out :
      (r : Ring) (p : Pusher) (tail head : ℕ)
      → tail ≢ head
      → Step
          (record { ring = r; pusher = p; popper = has_both tail head })
          nothing
          (record { ring = r; pusher = p; popper = has_copied (event_at r tail) tail })
  release :
      (r : Ring) (p : Pusher) (e : Event) (tail : ℕ)
      → Step
          (record { ring = r; pusher = p; popper = has_copied e tail })
          (takes e)
          (record { ring = record r { tail = u64 (tail + 1) }; pusher = p; popper = rests })

-- What the local variables of the producer mean: the head is its own, the tail may be an old one.
abbrev pub PusherOk : Ring → Pusher → Type 0
PusherOk r rests = Unit
PusherOk r (has_head e head) = head ≡ r.head
PusherOk r (has_both e head tail) =
    (head ≡ r.head)
    × (tail < 2 ^ 64)
    × (size r ≤ sub_u64 head tail)
    × (sub_u64 head tail ≤ capacity)
PusherOk r (has_copied e head) = (head ≡ r.head) × (size r < capacity) × (event_at r head ≡ e)

abbrev pub PopperOk : Ring → Popper → Type 0
PopperOk r rests = Unit
PopperOk r (has_tail tail) = tail ≡ r.tail
PopperOk r (has_both tail head) = (tail ≡ r.tail) × (head < 2 ^ 64) × (sub_u64 head tail ≤ size r)
PopperOk r (has_copied e tail) = (tail ≡ r.tail) × (0 < size r) × (event_at r tail ≡ e)

pub record Consistent (s : Shared) : Type 0 where
  pub ring : IsValid s.ring
  pub pusher : PusherOk s.ring s.pusher
  pub popper : PopperOk s.ring s.popper
