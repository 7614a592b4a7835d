-- ===== src/Interceptor/Emission.antt =====
-- src/interceptor.c: the events that a lock and an unlock leave in the queue of their thread.
use runtime_monitor.Base.{
  ℕ, ◌+◌, ◌<◌, ◌≡◌, refl, sym, ◌∙◌, ap, subst, arith, Bool, true, false, not, ◌||◌, Option, none,
  some, List, [], ◌∷◌, ◌++◌, ◌==◌, if◌then◌else◌, get_or-set_self, if_all, if_true, if_false,
}
use runtime_monitor.Event.{
  Event, EventType, code, decode, invalid, unlock_request, thread_start, thread_exit, lock_request,
  lock_acquired, lock_failed, unlocked, unlock_failed,
}
use runtime_monitor.Ring.{capacity}
use runtime_monitor.Ring.Bounds.{size, size-try_push}
use runtime_monitor.Ring.Fifo.{contents, try_push_appends}
use runtime_monitor.Runtime.State.{Context, Runtime, Tls, zero_context, max_contexts, context_at}
use runtime_monitor.Runtime.Producer.{
  Answers, new_event, produce, timestamp_now_ns, emit_event_to_context, register_from,
  register_current_thread, emit_registered, emit, is_internal_thread,
}
use runtime_monitor.Runtime.Conservation.{IsValid, emit_event_to_context-IsValid}
use runtime_monitor.Interceptor.{
  Interceptor, Thread, Symbols, debug_event, report, monitored, resolved, request, lock_enter,
  lock_leave, unlock_leave,
}

-- A thread with a context, and a runtime that accepts its events.
pub record Watched (r : Runtime) (th : Thread) (k : ℕ) : Type 0 where
  pub valid : IsValid r
  pub slot : k < max_contexts
  pub accepts : r.accept_events ≡ true
  pub context : th.tls.context ≡ some k
  pub application : th.tls.internal_thread ≡ false
  pub outside : th.monitor_internal ≡ false

-- The event that the thread emits next.
abbrev next_event : Runtime → ℕ → EventType → ℕ → ℕ → Answers → Event
next_event r k t mutex result a =
    new_event r (context_at r k) t mutex result (timestamp_now_ns a.clock)

-- What an event says: the verifier reads its type back, it names the mutex, the result, the thread and
-- the time, and it has the next number of the thread and of the process.
pub record Tells (r : Runtime) (k : ℕ) (t : EventType) (mutex result : ℕ) (a : Answers) (e : Event)
    : Type 0 where
  pub kind : decode e.event_type ≡ t
  pub names : e.object_address ≡ mutex
  pub outcome : e.result ≡ result
  pub thread : e.thread_id ≡ (context_at r k).thread_id
  pub number : e.thread_sequence ≡ (context_at r k).producer.next_thread_sequence
  pub global_number : e.sequence_id ≡ r.global_sequence
  pub time : e.timestamp_ns ≡ timestamp_now_ns a.clock

decode-code : (t : EventType) → decode (code t) ≡ t
unfolding decode code
decode-code invalid = refl
decode-code lock_request = refl
decode-code lock_acquired = refl
decode-code lock_failed = refl
decode-code unlock_request = refl
decode-code unlocked = refl
decode-code unlock_failed = refl
decode-code thread_start = refl
decode-code thread_exit = refl

next_event-Tells :
    (r : Runtime) (k : ℕ) (t : EventType) (mutex result : ℕ) (a : Answers)
    → Tells r k t mutex result a (next_event r k t mutex result a)
next_event-Tells r k t mutex result a = record {
  kind = decode-code t;
  names = refl;
  outcome = refl;
  thread = refl;
  number = refl;
  global_number = refl;
  time = refl;
}

abbrev pub queue_of : Runtime → ℕ → List Event
queue_of r k = contents (context_at r k).queue

emit_here :
    (r : Runtime) (th : Thread) (k : ℕ) (t : EventType) (mutex result : ℕ) (a : Answers)
    → Watched r th k
    → emit r th.tls t mutex result a ≡ (th.tls, emit_event_to_context r k t mutex result a.clock)
unfolding emit register_current_thread
emit_here r th k t mutex result a w =
    if_false (not r.accept_events) _ _ (ap not w.accepts)
    ∙ if_false th.tls.internal_thread _ _ w.application
    ∙ ap (λ o. emit_registered t mutex result a.clock (register_from o r th.tls a)) w.context

emit_appends :
    (r : Runtime) (k : ℕ) (t : EventType) (mutex result : ℕ) (a : Answers)
    → IsValid r
    → k < max_contexts
    → size (context_at r k).queue < capacity
    → let r' = emit_event_to_context r k t mutex result a.clock in
      (queue_of r' k ≡ queue_of r k ++ next_event r k t mutex result a ∷ [])
      × (size (context_at r' k).queue ≡ size (context_at r k).queue + 1)
unfolding emit_event_to_context produce
emit_appends r k t mutex result a ok p room =
    let c = context_at r k in
    let e = next_event r k t mutex result a in
    let back =
      get_or-set_self r.contexts k (produce c e) zero_context (omega (arith, ok.storage)) in
    let (done, appended) = try_push_appends c.queue e (ok.each k).queue room in
    (
      ap (λ (x : Context). contents x.queue) back ∙ appended,
      ap (λ (x : Context). size x.queue) back
          ∙ size-try_push c.queue e (ok.each k).queue
          ∙ if_true _ _ _ done,
    )

debug_event_frame :
    (s : Interceptor) (t : EventType) (mutex : ℕ) (shown : Option ℕ) (tid : ℕ)
    → (debug_event s t mutex shown tid).runtime ≡ s.runtime
unfolding debug_event
debug_event_frame s t mutex shown tid =
    if_all (λ (x : Interceptor). x.runtime ≡ s.runtime) (not s.debug_enabled) s _ refl refl

abbrev result_of : Option ℕ → ℕ
result_of shown = elim shown [ none ↦ 0 | some rc ↦ rc ]

report_here :
    (s : Interceptor) (th : Thread) (k : ℕ) (t : EventType) (mutex : ℕ) (shown : Option ℕ)
    (a : Answers)
    → Watched s.runtime th k
    → let (s', th') = report s th t mutex shown a in
      (s'.runtime ≡ emit_event_to_context s.runtime k t mutex (result_of shown) a.clock)
      × (th' ≡ record th { monitor_internal = false })
unfolding report
report_here s th k t mutex shown a w =
    let same = debug_event_frame s t mutex shown a.tid in
    let e =
      ap (λ r. emit r th.tls t mutex (result_of shown) a) same
      ∙ emit_here s.runtime th k t mutex (result_of shown) a w in
    (
      ap (λ (x : Tls × Runtime). x.1) e,
      ap (λ (x : Tls × Runtime). record th { tls = x.0; monitor_internal = false }) e,
    )

emit-Watched :
    (r : Runtime) (th : Thread) (k : ℕ) (t : EventType) (mutex result : ℕ) (a : Answers)
    → Watched r th k
    → Watched
        (emit_event_to_context r k t mutex result a.clock)
        (record th { monitor_internal = false })
        k
unfolding emit_event_to_context
emit-Watched r th k t mutex result a w = record {
  valid = emit_event_to_context-IsValid r k t mutex result a.clock w.valid;
  slot = w.slot;
  accepts = w.accepts;
  context = w.context;
  application = w.application;
  outside = refl;
}

-- The thread's queue grew by one event, which tells what happened, and the thread is watched still.
abbrev pub Reported : Runtime → ℕ → EventType → ℕ → ℕ → Answers → Interceptor × Thread → Type 0
Reported r k t mutex result a (s', th') =
    (e : Event) × (queue_of s'.runtime k ≡ queue_of r k ++ e ∷ [])
    × Tells r k t mutex result a e
    × (size (context_at s'.runtime k).queue ≡ size (context_at r k).queue + 1)
    × Watched s'.runtime th' k

report-Reported :
    (s : Interceptor) (th : Thread) (k : ℕ) (t : EventType) (mutex : ℕ) (shown : Option ℕ)
    (a : Answers)
    → Watched s.runtime th k
    → size (context_at s.runtime k).queue < capacity
    → Reported s.runtime k t mutex (result_of shown) a (report s th t mutex shown a)
report-Reported s th k t mutex shown a w room =
    let r = s.runtime in
    let result = result_of shown in
    let (same_r, same_th) = report_here s th k t mutex shown a w in
    let (grown, larger) = emit_appends r k t mutex result a w.valid w.slot room in
    (
      next_event r k t mutex result a,
      ap (λ (x : Runtime). queue_of x k) same_r ∙ grown,
      next_event-Tells r k t mutex result a,
      ap (λ (x : Runtime). size (context_at x k).queue) same_r ∙ larger,
      subst (λ (x : Thread). Watched (report s th t mutex shown a).0.runtime x k) (sym same_th)
          (subst (λ (x : Runtime). Watched x (record th { monitor_internal = false }) k)
            (sym same_r) (emit-Watched r th k t mutex result a w)),
    )

resolved_known :
    (known : Interceptor → Bool) (s : Interceptor) (th : Thread) (f : Symbols)
    → known s ≡ true
    → resolved known s th f ≡ (true, s, th)
resolved_known known s th f e = if_true (known s) _ _ e

-- A lock on a watched thread, with the real function known and room for an event, puts an event at the
-- end of the thread's queue before the real function is called, and leaves the thread watched. The
-- verifier decodes the event as LOCK_REQUEST; it names the mutex and the thread, has result 0, the time
-- of the clock and the next numbers of the thread and of the process.
pub lock_enter_reports :
    (s : Interceptor) (th : Thread) (k : ℕ) (f : Symbols) (mutex : ℕ) (a : Answers)
    → Watched s.runtime th k
    → s.lock_known ≡ true
    → size (context_at s.runtime k).queue < capacity
    → (s' : Interceptor) × (th' : Thread) × (lock_enter s th f mutex a ≡ monitored s' th')
      × Reported s.runtime k lock_request mutex 0 a (s', th')
unfolding lock_enter
lock_enter_reports s th k f mutex a w known room =
    let out = report s th lock_request mutex none a in
    (
      out.0,
      out.1,
      ap (λ x. request x mutex a) (resolved_known (λ (x : Interceptor). x.lock_known) s th f known)
          ∙ if_false (th.monitor_internal || is_internal_thread th.tls) _ _
              (ground (arith, w.outside, w.application)),
      report-Reported s th k lock_request mutex none a w room,
    )

-- After the real call returned `rc`, a lock on a watched thread whose queue has room puts an event at the
-- end of the queue which the verifier decodes as LOCK_ACQUIRED if `rc` is 0 and as LOCK_FAILED if not;
-- an unlock puts one that is decoded as UNLOCKED or UNLOCK_FAILED. Each event names the mutex, `rc` and
-- the thread, has the time of the clock and the next numbers of the thread and of the process, and the
-- thread stays watched.
pub leave_reports :
    (s : Interceptor) (th : Thread) (k : ℕ) (mutex rc : ℕ) (a : Answers)
    → Watched s.runtime th k
    → size (context_at s.runtime k).queue < capacity
    → Reported s.runtime k
        (if rc == 0 then lock_acquired else lock_failed)
        mutex
        rc
        a
        (lock_leave s th mutex rc a)
      × Reported s.runtime k
          (if rc == 0 then unlocked else unlock_failed)
          mutex
          rc
          a
          (unlock_leave s th mutex rc a)
unfolding lock_leave unlock_leave
leave_reports s th k mutex rc a w room = (
  report-Reported s th k (if rc == 0 then lock_acquired else lock_failed) mutex (some rc) a w room,
  report-Reported s th k (if rc == 0 then unlocked else unlock_failed) mutex (some rc) a w room,
)
