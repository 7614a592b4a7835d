-- ===== src/Event.antt =====
-- include/monitor_event.h: the event that travels from an application thread to the verifier.
use runtime_monitor.Base.{ℕ, ◌≡◌, refl, ◌==◌, if◌then◌else◌}

-- `monitor_event_type_t`
pub data EventType : Type 0 where
  invalid : EventType
  lock_request : EventType
  lock_acquired : EventType
  lock_failed : EventType
  unlock_request : EventType
  unlocked : EventType
  unlock_failed : EventType
  thread_start : EventType
  thread_exit : EventType

-- `monitor_event_t`. Each field holds the bit pattern of its C type; `result` is an `int32_t`.
pub record Event : Type 0 where
  pub sequence_id : ℕ
  pub timestamp_ns : ℕ
  pub thread_id : ℕ
  pub object_address : ℕ
  pub event_type : ℕ
  pub result : ℕ
  pub flags : ℕ
  pub thread_sequence : ℕ

abbrev pub zero_event : Event
zero_event = record {
  sequence_id = 0;
  timestamp_ns = 0;
  thread_id = 0;
  object_address = 0;
  event_type = 0;
  result = 0;
  flags = 0;
  thread_sequence = 0;
}

-- The numbers that C gives to the enumeration: the cast to `uint32_t`.
unfoldable pub code : EventType → ℕ
code invalid = 0
code lock_request = 1
code lock_acquired = 2
code lock_failed = 3
code unlock_request = 4
code unlocked = 5
code unlock_failed = 6
code thread_start = 7
code thread_exit = 8

-- The cast back, as the `switch` reads it: a number outside the enumeration takes the default
-- branch, which does what `invalid` does.
unfoldable pub decode : ℕ → EventType
decode n =
    if n == 1
    then lock_request
    else if n == 2
    then lock_acquired
    else if n == 3
    then lock_failed
    else if n == 4
    then unlock_request
    else if n == 5
    then unlocked
    else if n == 6
    then unlock_failed
    else if n == 7
    then thread_start
    else if n == 8
    then thread_exit
    else invalid

pub decode-code : (t : EventType) → decode (code t) ≡ t
unfolding decode code
decode-code invalid = refl
decode-code lock_request = refl
decode-code lock_acquired = refl
decode-code lock_failed = refl
decode-code unlock_request = refl
decode-code unlocked = refl
decode-code unlock_failed = refl
decode-code thread_start = refl
decode-code thread_exit = refl
