-- ===== src/Ring/Interleave/Race.antt =====
-- src/ring_buffer.c: the copies of events that the two threads may make at the same time.
use runtime_monitor.Base.{ℕ, ◌+◌, ◌<◌, ◌≡◌, ◌≢◌, sym, ap, ◌∙◌, arith, Option, none, some, List}
use runtime_monitor.Ring.{capacity, slot_of}
use runtime_monitor.Ring.Bounds.{size}
use runtime_monitor.Ring.Interleave.{
  Shared, Effect, Step, load_head, load_other_tail, find_full, fill, publish, load_tail,
  load_other_head, find_empty, copy_out, release, Consistent,
}
use runtime_monitor.Ring.Interleave.Run.{Run, Run-IsFifo}

-- The slot that a step writes an event into, and the one it reads an event from.
abbrev pub writes : {s t : Shared} {f : Effect} → Step s f t → Option ℕ
writes (fill r q e head tail room) = some (slot_of head)
writes _ = none

abbrev pub reads : {s t : Shared} {f : Effect} → Step s f t → Option ℕ
reads (copy_out r p tail head other) = some (slot_of tail)
reads _ = none

-- A step that writes takes the slot at the head, while some slot is not in use.
writes-free :
    {s t : Shared} {f : Effect}
    → Consistent s
    → (x : Step s f t) (i : ℕ) → writes x ≡ some i
    → (size s.ring < capacity) × (slot_of s.ring.head ≡ i)
writes-free c (fill r q e head tail room) i h =
    (omega (arith, c.pusher, room), ap slot_of (sym c.pusher.0) ∙ cc)
writes-free c (load_head r q e) i h = absurd cc
writes-free c (load_other_tail r q e head) i h = absurd cc
writes-free c (find_full r q e head tail full) i h = absurd cc
writes-free c (publish r q e head) i h = absurd cc
writes-free c (load_tail r p) i h = absurd cc
writes-free c (load_other_head r p tail) i h = absurd cc
writes-free c (find_empty r p tail head same) i h = absurd cc
writes-free c (copy_out r p tail head other) i h = absurd cc
writes-free c (release r p e tail) i h = absurd cc

-- A step that reads takes the slot at the tail, while some slot is in use.
reads-used :
    {s t : Shared} {f : Effect}
    → Consistent s
    → (x : Step s f t) (j : ℕ) → reads x ≡ some j
    → (0 < size s.ring) × (slot_of s.ring.tail ≡ j)
reads-used c (copy_out r p tail head other) j h =
    (omega (arith, c.popper, c.ring.tail_word, other), ap slot_of (sym c.popper.0) ∙ cc)
reads-used c (load_head r q e) j h = absurd cc
reads-used c (load_other_tail r q e head) j h = absurd cc
reads-used c (find_full r q e head tail full) j h = absurd cc
reads-used c (fill r q e head tail room) j h = absurd cc
reads-used c (publish r q e head) j h = absurd cc
reads-used c (load_tail r p) j h = absurd cc
reads-used c (load_other_head r p tail) j h = absurd cc
reads-used c (find_empty r p tail head same) j h = absurd cc
reads-used c (release r p e tail) j h = absurd cc

-- In every state that a run of single loads, stores and copies reaches from a consistent state: a step
-- of the producer that copies an event into a slot never takes the slot that a step of the consumer
-- could read then, nor any other slot of an event in the queue.
pub no_race :
    {s0 s t u : Shared} {fs : List Effect} {f g : Effect}
    → Consistent s0
    → Run s0 fs s
    → (x : Step s f t) (i : ℕ) → writes x ≡ some i
    → (y : Step s g u) (j : ℕ) → reads y ≡ some j
    → (k : ℕ) → k < size s.ring
    → (i ≢ j) × (i ≢ slot_of (s.ring.tail + k))
no_race start run x i writing y j reading k stored =
    let c = (Run-IsFifo run start).0 in
    let (room, at) = writes-free c x i writing in
    let (some_event, first) = reads-used c y j reading in
    (
      λ same.
          absurd
            (omega (arith, c.ring.head_word, c.ring.tail_word, room, some_event, at, first, same)),
      λ same. absurd (omega (arith, c.ring.head_word, c.ring.tail_word, room, stored, at, same)),
    )
