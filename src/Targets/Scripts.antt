-- ===== src/Targets/Scripts.antt =====
-- The threads of the small programs of targets/, as scripts of pthread calls, and how the calls of
-- several threads run together: mutexes of the default and of the error-checking kind, barriers, and
-- joins. A setup call succeeds. Each barrier of these programs is used once.
pub mod Explore
pub mod SelfDeadlock
pub mod NonOwner
pub mod Circular
pub mod Holding
pub mod Monitored
pub mod Reported
pub mod Verdicts
use runtime_monitor.Base.{
  ℕ, zero, suc, ◌+◌, ◌-◌, ◌^◌, Bool, true, false, not, ◌&&◌, ◌||◌, ltb, ◌==◌, if◌then◌else◌, Option,
  none, some, List, [], ◌∷◌, ◌++◌, set, get_or, length,
}
use runtime_monitor.Event.{
  EventType, code, thread_start, thread_exit, lock_request, lock_acquired, lock_failed, unlocked,
  unlock_failed,
}
use runtime_monitor.Text.{Text, same}

-- `main` and the threads that it creates.
pub data Who : Type 0 where
  main : Who
  first : Who
  second : Who

-- The calls with an effect on other threads; mutexes and barriers are numbered. `set_up` is any of the
-- calls that only prepare or destroy an object.
pub data Call : Type 0 where
  lock : ℕ → Call
  unlock : ℕ → Call
  wait : ℕ → Call
  sleep : ℕ → Call
  create : Who → Call
  join : Who → Call
  set_up : Call

-- What a thread does from here on: it returns, prints, or makes a call and goes on with its result.
pub data Script : Type 0 where
  returns : ℕ → Script
  prints : Text → Script → Script
  calls : Call → (ℕ → Script) → Script

-- A thread: not created yet, before a call, in `pthread_mutex_lock` or at a barrier, and returned.
pub data Thread : Type 0 where
  absent : Thread
  runs : Script → Thread
  locking : ℕ → (ℕ → Script) → Thread
  waiting : ℕ → (ℕ → Script) → Thread
  ended : ℕ → Thread

pub record Mutex : Type 0 where
  pub errorcheck : Bool
  pub owner : Option Who

pub record Barrier : Type 0 where
  pub parties : ℕ
  pub arrived : ℕ

-- An event that the preloaded library emits: its thread, its type, its mutex and the result.
pub record Emitted : Type 0 where
  pub who : Who
  pub event : EventType
  pub mutex : ℕ
  pub result : ℕ

-- The threads, with what each will run when it is created; the events emitted and the lines printed so
-- far, the latest first.
pub record Process : Type 0 where
  pub scripts : Who → Script
  pub threads : Who → Thread
  pub trace : List Emitted
  pub mutexes : List Mutex
  pub barriers : List Barrier
  pub output : List Text

abbrev pub is_same : Who → Who → Bool
is_same main main = true
is_same first first = true
is_same second second = true
is_same _ _ = false

abbrev pub update {ℓ} : {A : Type ℓ} → (Who → A) → Who → A → Who → A
update f w a x = if is_same w x then a else f x

abbrev pub edeadlk : ℕ
edeadlk = 35

abbrev pub eperm : ℕ
eperm = 1

-- `PTHREAD_BARRIER_SERIAL_THREAD`, as the bit pattern of an `int`
abbrev pub serial_thread : ℕ
serial_thread = 2 ^ 32 - 1

abbrev pub free_mutex : Mutex
free_mutex = record { errorcheck = false; owner = none }

abbrev pub no_barrier : Barrier
no_barrier = record { parties = 0; arrived = 0 }

abbrev pub mutex_at : Process → ℕ → Mutex
mutex_at p m = get_or p.mutexes m free_mutex

abbrev pub barrier_at : Process → ℕ → Barrier
barrier_at p b = get_or p.barriers b no_barrier

-- The events of one thread.
abbrev pub stream_of : Who → List Emitted → List Emitted
stream_of w [] = []
stream_of w (e ∷ es) = if is_same w e.who then e ∷ stream_of w es else stream_of w es

abbrev pub is_registered : Who → List Emitted → Bool
is_registered w [] = false
is_registered w (e ∷ es) = is_same w e.who || is_registered w es

abbrev pub emitted : Who → EventType → ℕ → ℕ → Emitted
emitted w t m rc = record { who = w; event = t; mutex = m; result = rc }

-- The first event of a thread comes after the one of its registration.
abbrev pub emits : Process → Who → EventType → ℕ → ℕ → Process
emits p w t m rc = record p {
  trace =
      emitted w t m rc
      ∷ (if is_registered w p.trace then p.trace else emitted w thread_start 0 0 ∷ p.trace);
}

-- A thread that returns is unregistered; the end of `main` ends the process.
abbrev pub exits : Process → Who → ℕ → Process
exits p w result = record p {
  threads = update p.threads w (ended result);
  trace =
      if is_registered w p.trace && not (is_same w main)
      then emitted w thread_exit 0 0 ∷ p.trace
      else p.trace;
}

-- The thread goes on with the result of its call.
abbrev pub goes_on : Process → Who → Script → Process
goes_on p w s = record p { threads = update p.threads w (runs s) }

abbrev pub is_owner : Who → Option Who → Bool
is_owner w none = false
is_owner w (some o) = is_same w o

-- What `pthread_mutex_lock` returns at once, if it returns: a mutex that is taken blocks the caller,
-- and an error-checking one refuses its owner.
abbrev pub lock_result : Who → Mutex → Option ℕ
lock_result w m = elim m.owner [
  | none ↦ some 0
  | some o ↦ if m.errorcheck && is_same w o then some edeadlk else none
]

abbrev pub locked : Process → Who → ℕ → (ℕ → Script) → Option ℕ → Option Process
locked p w m k none = none
locked p w m k (some zero) = some (
    goes_on
      (emits (record p { mutexes = set p.mutexes m (record (mutex_at p m) { owner = some w }) }) w
        lock_acquired m 0)
      w (k 0))
locked p w m k (some (suc rc)) = some (goes_on (emits p w lock_failed m (suc rc)) w (k (suc rc)))

-- `pthread_mutex_unlock`: an error-checking mutex refuses all but its owner.
abbrev pub unlocks : Process → Who → ℕ → (ℕ → Script) → Process
unlocks p w m k =
    if (mutex_at p m).errorcheck && not (is_owner w (mutex_at p m).owner)
    then goes_on (emits p w unlock_failed m eperm) w (k eperm)
    else goes_on
        (emits (record p { mutexes = set p.mutexes m (record (mutex_at p m) { owner = none }) }) w
          unlocked m 0)
        w (k 0)

-- A thread comes to a barrier: the last one is told so and the others are let go.
abbrev pub arrives : Process → Who → ℕ → (ℕ → Script) → Process
arrives p w b k =
    let count = (barrier_at p b).arrived + 1 in
    let p' = record p {
      barriers = set p.barriers b (record (barrier_at p b) { arrived = count });
    } in
    if count == (barrier_at p b).parties
    then goes_on p' w (k serial_thread)
    else record p' { threads = update p'.threads w (waiting b k) }

abbrev pub passes : Process → Who → ℕ → (ℕ → Script) → Option Process
passes p w b k =
    if (barrier_at p b).arrived == (barrier_at p b).parties then some (goes_on p w (k 0)) else none

abbrev pub joins : Process → Who → Thread → (ℕ → Script) → Option Process
joins p w (ended result) k = some (goes_on p w (k 0))
joins p w _ k = none

abbrev pub called : Process → Who → Call → (ℕ → Script) → Option Process
called p w (lock m) k =
    some (record (emits p w lock_request m 0) { threads = update p.threads w (locking m k) })
called p w (unlock m) k = some (unlocks p w m k)
called p w (wait b) k = some (arrives p w b k)
called p w (sleep ns) k = some (goes_on p w (k 0))
called p w (create t) k =
    some (goes_on (record p { threads = update p.threads t (runs (p.scripts t)) }) w (k 0))
called p w (join t) k = joins p w (p.threads t) k
called p w set_up k = some (goes_on p w (k 0))

-- Printing up to the next call or the end.
abbrev pub runs_on : Process → Who → Script → Option Process
runs_on p w (returns result) = some (exits p w result)
runs_on p w (prints line s) = runs_on (record p { output = line ∷ p.output }) w s
runs_on p w (calls c k) = called p w c k

abbrev pub moves_from : Process → Who → Thread → Option Process
moves_from p w absent = none
moves_from p w (runs s) = runs_on p w s
moves_from p w (locking m k) = locked p w m k (lock_result w (mutex_at p m))
moves_from p w (waiting b k) = passes p w b k
moves_from p w (ended result) = none

-- One step of one thread, if it can move.
unfoldable pub step : Who → Process → Option Process
step w p = moves_from p w (p.threads w)

abbrev pub start :
    (main_script first_script second_script : Script) → List Mutex → List Barrier → Process
start a b c mutexes barriers = record {
  scripts = λ (w : Who). elim w [ main ↦ a | first ↦ b | second ↦ c ];
  threads = λ (w : Who). elim w [ main ↦ runs a | first ↦ absent | second ↦ absent ];
  trace = [];
  mutexes = mutexes;
  barriers = barriers;
  output = [];
}

-- A schedule names the thread that moves next; a thread that cannot move is passed over.
abbrev pub moved : Process → Option Process → Process
moved p none = p
moved p (some p') = p'

abbrev pub run : List Who → Process → Process
run [] p = p
run (w ∷ ws) p = run ws (moved p (step w p))

abbrev pub can_move : Option Process → Bool
can_move none = false
can_move (some p) = true

-- No thread can move.
abbrev pub stuck : Process → Bool
stuck p =
    not (can_move (step main p))
    && (not (can_move (step first p)) && not (can_move (step second p)))

abbrev pub printed : Text → List Text → Bool
printed line [] = false
printed line (l ∷ ls) = same line l || printed line ls

-- A setup call of `main` that must succeed.
abbrev pub or_fail : Script → ℕ → Script
or_fail s zero = s
or_fail s (suc rc) = returns 1

abbrev pub has_ended : ℕ → Thread → Bool
has_ended code (ended result) = result == code
has_ended code _ = false

-- A thread in `pthread_mutex_lock` on a mutex.
abbrev pub blocked_on : ℕ → Thread → Bool
blocked_on m (locking n k) = n == m
blocked_on m _ = false

-- Two streams of events are the same.
abbrev pub stream_is : List Emitted → List Emitted → Bool
stream_is [] [] = true
stream_is (a ∷ s) (b ∷ t) =
    (is_same a.who b.who && code a.event == code b.event)
    && ((a.mutex == b.mutex && a.result == b.result) && stream_is s t)
stream_is _ _ = false
