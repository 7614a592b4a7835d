-- ===== src/Targets/Scripts/Monitored.antt =====
-- targets/: the events of a small program as the verifier gets them. The events of a thread keep their
-- order; between threads the consumer may hand them over in any order.
use runtime_monitor.Base.{
  ◌||◌, ℕ, ◌+◌, ◌*◌, ◌≡◌, refl, Bool, true, false, ◌&&◌, ◌==◌, if◌then◌else◌, List, [], ◌∷◌, length,
}
use runtime_monitor.Event.{Event, code, thread_start, thread_exit}
use runtime_monitor.Verifier.State.{Verifier}
use runtime_monitor.Verifier.Process.{process_event}
use runtime_monitor.Targets.Scripts.{Who, main, first, second, Process, Emitted, is_same, stream_of}

abbrev pub thread_number : Who → ℕ
thread_number main = 1
thread_number first = 2
thread_number second = 3

-- The event as it was put into its queue, after the events `before` it. The clock is that of the system.
abbrev pub event_after : (ℕ → ℕ) → Emitted → List Emitted → Event
event_after clock e before = record {
  sequence_id = length before;
  timestamp_ns = clock (length before);
  thread_id = thread_number e.who;
  object_address =
      if code e.event == code thread_start || code e.event == code thread_exit
      then 0
      else 100 * (e.mutex + 1);
  event_type = code e.event;
  result = e.result;
  flags = 0;
  thread_sequence = length (stream_of e.who before);
}

-- The events of one thread in order, in front of `later`.
abbrev pub queue_of : (ℕ → ℕ) → Who → List Emitted → List Event → List Event
queue_of clock w [] later = later
queue_of clock w (e ∷ before) later =
    if is_same w e.who
    then queue_of clock w before (event_after clock e before ∷ later)
    else queue_of clock w before later

-- What the consumer may hand over of two queues.
pub data Merge : List Event → List Event → List Event → Type 0 where
  neither : Merge [] [] []
  from_left : (x : Event) (xs ys es : List Event) → Merge xs ys es → Merge (x ∷ xs) ys (x ∷ es)
  from_right : (y : Event) (xs ys es : List Event) → Merge xs ys es → Merge xs (y ∷ ys) (y ∷ es)

abbrev pub process_all : Verifier → List Event → Verifier
process_all v [] = v
process_all v (e ∷ es) = process_all (process_event v e) es

-- The test holds after every merge, where `x` stands in front on the left and `more` takes the rest.
abbrev either_next :
    (Verifier → Bool) → Event → (List Event → Verifier → Bool) → List Event → Verifier → Bool
either_next test x more [] v = more [] (process_event v x)
either_next test x more (y ∷ ys) v =
    more (y ∷ ys) (process_event v x) && either_next test x more ys (process_event v y)

abbrev pub every_merge : (Verifier → Bool) → List Event → List Event → Verifier → Bool
every_merge test [] ys v = test (process_all v ys)
every_merge test (x ∷ xs) ys v = either_next test x (every_merge test xs) ys v

both : (a b : Bool) → (a && b) ≡ true → (a ≡ true) × (b ≡ true)
both true b e = (refl, e)
both false b e = absurd (cc)

left_next :
    (test : Verifier → Bool) (x : Event) (more : List Event → Verifier → Bool) (ys : List Event)
    (v : Verifier)
    → either_next test x more ys v ≡ true
    → more ys (process_event v x) ≡ true
left_next test x more [] v e = e
left_next test x more (y ∷ ys) v e = (both _ _ e).0

right_next :
    (test : Verifier → Bool) (xs : List Event) (y : Event) (ys : List Event) (v : Verifier)
    → every_merge test xs (y ∷ ys) v ≡ true
    → every_merge test xs ys (process_event v y) ≡ true
right_next test [] y ys v e = e
right_next test (x ∷ xs) y ys v e = (both _ _ e).1

pub every_merge_sound :
    (test : Verifier → Bool) (xs ys es : List Event) (v : Verifier)
    → every_merge test xs ys v ≡ true
    → Merge xs ys es
    → test (process_all v es) ≡ true
every_merge_sound test _ _ _ v e neither = e
every_merge_sound test _ _ _ v e (from_left x xs ys es m) =
    every_merge_sound test xs ys es (process_event v x)
      (left_next test x (every_merge test xs) ys v e) m
every_merge_sound test _ _ _ v e (from_right y xs ys es m) =
    every_merge_sound test xs ys es (process_event v y) (right_next test xs y ys v e) m

-- What a process hands over of its two threads.
abbrev pub events_of : (ℕ → ℕ) → Process → Who → List Event
events_of clock p w = queue_of clock w p.trace []
