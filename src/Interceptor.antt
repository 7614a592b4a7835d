-- ===== src/Interceptor.antt =====
-- src/interceptor.c: the library's replacements of `pthread_mutex_lock` and `pthread_mutex_unlock`,
-- its constructor and its destructor. The real functions and what `dlsym` finds are parameters. A
-- call is cut in two where the real function is called, since other threads run meanwhile.
pub mod Emission
mod Tests
use runtime_monitor.Base.{
  ℕ, ◌+◌, Bool, true, false, not, ◌&&◌, ◌||◌, Option, none, some, List, [], ◌∷◌, ltb, ◌==◌,
  if◌then◌else◌, u64,
}
use runtime_monitor.Event.{
  EventType, lock_request, lock_acquired, lock_failed, unlocked, unlock_failed,
}
use runtime_monitor.Verifier.Summary.{Summary}
use runtime_monitor.Runtime.State.{Runtime, Tls}
use runtime_monitor.Runtime.Producer.{Answers, emit, is_internal_thread}
use runtime_monitor.Runtime.Lifecycle.{Transport, runtime_start, runtime_stop}

-- `MONITOR_DEBUG_LIMIT`
abbrev pub debug_limit : ℕ
debug_limit = 64

-- A line of the optional debug output; `result` is there where it is shown.
pub record DebugLine : Type 0 where
  pub tid : ℕ
  pub event : EventType
  pub mutex : ℕ
  pub result : Option ℕ

-- The static variables. A pointer to a real function is known or NULL.
pub record Interceptor : Type 0 where
  pub lock_known : Bool
  pub unlock_known : Bool
  pub runtime_started : Bool
  pub debug_enabled : Bool
  pub debug_event_count : ℕ
  pub debug_output : List DebugLine
  pub runtime : Runtime

-- The thread-local variables of a thread.
pub record Thread : Type 0 where
  pub tls : Tls
  pub monitor_internal : Bool

-- What the two calls of `dlsym` say.
pub record Symbols : Type 0 where
  pub lock_error : Bool
  pub unlock_error : Bool
  pub lock_found : Bool
  pub unlock_found : Bool

-- The latest line stands first.
pub debug_event : Interceptor → EventType → ℕ → Option ℕ → ℕ → Interceptor
debug_event s t mutex result tid = if not s.debug_enabled then s else record s {
  debug_event_count = u64 (s.debug_event_count + 1);
  debug_output =
      if ltb s.debug_event_count debug_limit
      then record { tid = tid; event = t; mutex = mutex; result = result } ∷ s.debug_output
      else s.debug_output;
}

abbrev pub resolve_real_functions : Interceptor → Symbols → Bool × Interceptor
resolve_real_functions s f =
    if f.lock_error || f.unlock_error || not f.lock_found || not f.unlock_found
    then (false, s)
    else (true, record s { lock_known = true; unlock_known = true })

-- Debug line and event, between the two assignments of `monitor_internal`.
pub report : Interceptor → Thread → EventType → ℕ → Option ℕ → Answers → Interceptor × Thread
report s th t mutex shown a =
    let s1 = debug_event s t mutex shown a.tid in
    let (tls', r') = emit s1.runtime th.tls t mutex (elim shown [ none ↦ 0 | some rc ↦ rc ]) a in
    (record s1 { runtime = r' }, record th { tls = tls'; monitor_internal = false })

-- How a call begins: the process ends, or the real function is called, with the thread bypassing the
-- monitor or being monitored.
pub data Entry : Type 0 where
  exits : (status : ℕ) → Entry
  bypasses : Interceptor → Thread → Entry
  monitored : Interceptor → Thread → Entry

-- The first guard: is the real function known, after trying to resolve it.
abbrev pub resolved :
    (Interceptor → Bool) → Interceptor → Thread → Symbols → Bool × Interceptor × Thread
resolved known s th f =
    if known s
    then (true, s, th)
    else let (done, s') = resolve_real_functions s f in
      (done && known s', s', record th { monitor_internal = false })

abbrev pub bypassing : Thread → Bool
bypassing th = th.monitor_internal || is_internal_thread th.tls

abbrev pub request : Bool × Interceptor × Thread → ℕ → Answers → Entry
request (false, s, th) mutex a = exits 127
request (true, s, th) mutex a =
    if bypassing th
    then bypasses s th
    else let (s', th') = report s th lock_request mutex none a in monitored s' th'

-- `pthread_mutex_lock` up to the real call
pub lock_enter : Interceptor → Thread → Symbols → ℕ → Answers → Entry
lock_enter s th f mutex a = request (resolved (λ (x : Interceptor). x.lock_known) s th f) mutex a

-- and after it, with the result `rc` of the real call.
pub lock_leave : Interceptor → Thread → ℕ → ℕ → Answers → Interceptor × Thread
lock_leave s th mutex rc a =
    report s th (if rc == 0 then lock_acquired else lock_failed) mutex (some rc) a

abbrev pub enter_unlock : Bool × Interceptor × Thread → Entry
enter_unlock (false, s, th) = exits 127
enter_unlock (true, s, th) = if bypassing th then bypasses s th else monitored s th

-- `pthread_mutex_unlock` likewise: nothing is emitted before the real call.
abbrev pub unlock_enter : Interceptor → Thread → Symbols → Entry
unlock_enter s th f = enter_unlock (resolved (λ (x : Interceptor). x.unlock_known) s th f)

pub unlock_leave : Interceptor → Thread → ℕ → ℕ → Answers → Interceptor × Thread
unlock_leave s th mutex rc a =
    report s th (if rc == 0 then unlocked else unlock_failed) mutex (some rc) a

-- MONITOR_DEBUG is set to a text that is neither empty nor "0".
abbrev pub wants_debug : Option (List ℕ) → Bool
wants_debug none = false
wants_debug (some []) = false
wants_debug (some (c ∷ [])) = not (c == 48)
wants_debug (some (c ∷ d ∷ s)) = true

abbrev pub start_runtime : Interceptor → ℕ × Runtime → Interceptor
start_runtime s (rc, r) =
    if rc == 0 then record s { runtime_started = true; runtime = r } else record s { runtime = r }

abbrev pub start_resolved : ℕ → (key_rc consumer_rc : ℕ) → Bool × Interceptor → Interceptor
start_resolved threshold key_rc consumer_rc (false, s) = s
start_resolved threshold key_rc consumer_rc (true, s) =
    start_runtime s (runtime_start s.runtime threshold key_rc consumer_rc)

-- The constructor; the loading thread leaves it with `monitor_internal` 0.
abbrev pub library_init :
    Interceptor
    → Thread
    → Option (List ℕ)
    → Symbols
    → ℕ
    → (key_rc consumer_rc : ℕ) → Interceptor × Thread
library_init s th debug f threshold key_rc consumer_rc = (
  start_resolved threshold key_rc consumer_rc (
      resolve_real_functions
        (record s { debug_enabled = wants_debug debug || s.debug_enabled; debug_event_count = 0 })
        f),
  record th { monitor_internal = false },
)

-- The destructor, with fuel for the consumer that it waits for.
abbrev pub library_destroy :
    ℕ → Interceptor → Thread → Option (Option (Transport × Summary) × Interceptor × Thread)
library_destroy fuel s th =
    if s.runtime_started
    then elim (runtime_stop fuel s.runtime) [
      | none ↦ none
      | some x ↦ some (
        some (x.0, x.1),
        record s { debug_enabled = false; runtime_started = false; runtime = x.2 },
        record th { monitor_internal = true },
      )
    ]
    else some (none, record s { debug_enabled = false }, record th { monitor_internal = true })
