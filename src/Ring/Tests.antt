-- ===== src/Ring/Tests.antt =====
-- The ring's theorems applied to a ring whose positions wrap around.
use runtime_monitor.Ring.Interleave.{
  Shared, rests, has_tail, has_both, has_copied, nothing, appends, takes, load_head,
  load_other_tail, fill, publish, load_tail, load_other_head, copy_out, release, copy_in, event_at,
  Consistent,
}
use runtime_monitor.Ring.Interleave.Run.{Run, done, step, Run-IsFifo}
use runtime_monitor.Ring.Interleave.Race.{no_race}
use runtime_monitor.Base.{
  ◌+◌, ◌≢◌, refl, [], ◌∷◌, ◌++◌, ◌-◌, ◌^◌, ◌≡◌, arith, replicate, length-replicate,
}
use runtime_monitor.Event.{Event, zero_event}
use runtime_monitor.Ring.{Ring, capacity, slot_of, try_push, try_pop}
use runtime_monitor.Ring.Bounds.{IsValid, try_push-IsValid, try_pop-IsValid}
use runtime_monitor.Ring.Fifo.{contents, enqueue, dequeue, try_push_refines, try_pop_refines}

-- Two events, the next position after them past the end of the 64-bit words.
abbrev wrapping : Ring
wrapping = record { head = 1; tail = 2 ^ 64 - 1; slots = replicate capacity zero_event }

wrapping-IsValid : IsValid wrapping
wrapping-IsValid = record {
  storage = length-replicate capacity zero_event;
  head_word = omega arith;
  tail_word = omega arith;
  fits = omega arith;
}

abbrev marked : Event
marked = record zero_event { sequence_id = 7 }

try_push_refines_example :
    let (fits, r') = try_push wrapping marked in
    (fits, contents r') ≡ enqueue (contents wrapping) marked
try_push_refines_example = try_push_refines wrapping marked wrapping-IsValid

try_pop_refines_example :
    let (out, r') = try_pop wrapping in (out, contents r') ≡ dequeue (contents wrapping)
try_pop_refines_example = try_pop_refines wrapping wrapping-IsValid

try_push-IsValid_example : IsValid (try_push wrapping marked).1
try_push-IsValid_example = try_push-IsValid wrapping marked wrapping-IsValid

try_pop-IsValid_example : IsValid (try_pop wrapping).1
try_pop-IsValid_example = try_pop-IsValid wrapping wrapping-IsValid

-- A push and a pop that overlap: the pop loads its positions while the push copies its event.
abbrev calm : Shared
calm = record { ring = wrapping; pusher = rests; popper = rests }

calm-Consistent : Consistent calm
calm-Consistent = record { ring = wrapping-IsValid; pusher = tt; popper = tt }

abbrev filled : Ring
filled = copy_in wrapping 1 marked

abbrev published : Ring
published = record filled { head = 2 }

abbrev read : Event
read = event_at filled (2 ^ 64 - 1)

abbrev drained : Shared
drained = record { ring = record published { tail = 0 }; pusher = rests; popper = rests }

overlap :
    Run calm
      (nothing ∷ nothing ∷ nothing ∷ nothing ∷ nothing ∷ nothing ∷ appends marked ∷ takes read ∷ [])
      drained
overlap = step (load_head wrapping rests marked) (
    step (load_other_tail wrapping rests marked 1) (
      step (load_tail wrapping (has_both marked 1 (2 ^ 64 - 1))) (
        step (fill wrapping (has_tail (2 ^ 64 - 1)) marked 1 (2 ^ 64 - 1) (omega arith)) (
          step (load_other_head filled (has_copied marked 1) (2 ^ 64 - 1)) (
            step (copy_out filled (has_copied marked 1) (2 ^ 64 - 1) 1 (λ e. absurd (omega arith)))
              (step (publish filled (has_copied read (2 ^ 64 - 1)) marked 1)
                (step (release published rests read (2 ^ 64 - 1)) done)))))))

Run-IsFifo_example :
    Consistent drained
    × (contents wrapping ++ marked ∷ [] ≡ read ∷ contents (record published { tail = 0 }))
Run-IsFifo_example = Run-IsFifo overlap calm-Consistent

-- Both threads are about to copy an event.
abbrev meeting : Shared
meeting = record {
  ring = wrapping;
  pusher = has_both marked 1 (2 ^ 64 - 1);
  popper = has_both (2 ^ 64 - 1) 1;
}

meets : Run calm (nothing ∷ nothing ∷ nothing ∷ nothing ∷ []) meeting
meets = step (load_head wrapping rests marked) (
    step (load_other_tail wrapping rests marked 1) (
      step (load_tail wrapping (has_both marked 1 (2 ^ 64 - 1)))
        (step (load_other_head wrapping (has_both marked 1 (2 ^ 64 - 1)) (2 ^ 64 - 1)) done)))

no_race_example : (slot_of 1 ≢ slot_of (2 ^ 64 - 1)) × (slot_of 1 ≢ slot_of ((2 ^ 64 - 1) + 1))
no_race_example =
    no_race calm-Consistent meets
      (fill wrapping (has_both (2 ^ 64 - 1) 1) marked 1 (2 ^ 64 - 1) (omega arith)) (slot_of 1) refl
      (copy_out wrapping (has_both marked 1 (2 ^ 64 - 1)) (2 ^ 64 - 1) 1
        (λ e. absurd (omega arith)))
      (slot_of (2 ^ 64 - 1)) refl 1 (omega arith)
