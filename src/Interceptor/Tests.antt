-- ===== src/Interceptor/Tests.antt =====
-- The interceptor's theorems applied to a thread that locks and unlocks a mutex.
use runtime_monitor.Base.{
  ◌≡◌, refl, sym, arith, true, false, none, some, [], ◌==◌, if◌then◌else◌, subst, replicate,
  length-replicate, get_or-replicate,
}
use runtime_monitor.Event.{lock_request, lock_acquired, lock_failed, unlocked, unlock_failed}
use runtime_monitor.Verifier.Process.{init}
use runtime_monitor.Runtime.State.{Runtime, zero_context, max_contexts}
use runtime_monitor.Runtime.Producer.{Answers}
use runtime_monitor.Runtime.Conservation.{Balanced, IsValid, zero-Balanced}
use runtime_monitor.Interceptor.{
  Interceptor, Thread, Symbols, monitored, lock_enter, lock_leave, unlock_leave,
}
use runtime_monitor.Interceptor.Emission.{Watched, Reported, lock_enter_reports, leave_reports}

-- A runtime that accepts events, its first slot given out.
abbrev running : Runtime
running = record {
  contexts = replicate max_contexts zero_context;
  next_thread_slot = 1;
  global_sequence = 4;
  unregistered_events = 0;
  lifecycle_registration_failures = 0;
  accept_events = true;
  consumer_running = true;
  thread_exit_key_ready = true;
  verifier = init 0;
}

running-IsValid : IsValid running
running-IsValid = record {
  storage = length-replicate max_contexts zero_context;
  each = λ i. subst Balanced (sym (get_or-replicate max_contexts i zero_context)) zero-Balanced;
  slots = omega arith;
}

abbrev loaded : Interceptor
loaded = record {
  lock_known = true;
  unlock_known = true;
  runtime_started = true;
  debug_enabled = false;
  debug_event_count = 0;
  debug_output = [];
  runtime = running;
}

abbrev worker : Thread
worker = record {
  tls = record { context = some 0; registration_failed = false; internal_thread = false };
  monitor_internal = false;
}

worker-Watched : Watched running worker 0
worker-Watched = record {
  valid = running-IsValid;
  slot = omega arith;
  accepts = refl;
  context = refl;
  application = refl;
  outside = refl;
}

abbrev symbols : Symbols
symbols = record {
  lock_error = false;
  unlock_error = false;
  lock_found = true;
  unlock_found = true;
}

abbrev answers : Answers
answers = record { tid = 7; setspecific = 0; start_clock = none; clock = some (1, 5) }

lock_enter_reports_example :
    (s' : Interceptor) × (th' : Thread) × (lock_enter loaded worker symbols 100 answers
      ≡ monitored s' th')
    × Reported running 0 lock_request 100 0 answers (s', th')
lock_enter_reports_example =
    lock_enter_reports loaded worker 0 symbols 100 answers worker-Watched refl (omega arith)

leave_reports_example :
    Reported running 0
      (if 35 == 0 then lock_acquired else lock_failed)
      100
      35
      answers
      (lock_leave loaded worker 100 35 answers)
    × Reported running 0
        (if 35 == 0 then unlocked else unlock_failed)
        100
        35
        answers
        (unlock_leave loaded worker 100 35 answers)
leave_reports_example = leave_reports loaded worker 0 100 35 answers worker-Watched (omega arith)
