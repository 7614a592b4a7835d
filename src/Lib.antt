-- ===== src/Lib.antt =====
-- The runtime monitor is a library that is preloaded into a program and watches its mutexes. This
-- development models it in antt, part by part, and proves what makes the parts correct.
--
-- The parts, and how an event travels through them:
--
--   1. src/interceptor.c replaces pthread_mutex_lock and pthread_mutex_unlock. It calls the real
--      function; a lock emits an event before and after it, an unlock after it: Interceptor.antt, one
--      definition for each half of a replaced call (lock_enter, lock_leave, unlock_enter, unlock_leave),
--      debug_event, resolve_real_functions, the constructor (library_init) and the destructor
--      (library_destroy). The real functions, dlsym and the environment are parameters.
--   2. src/monitor_runtime.c gives each thread a context with a queue, numbers its events, and drops an
--      event when the queue is full. Runtime/State.antt has the contexts, the static variables and the
--      thread-local ones; Runtime/Producer.antt what an application thread runs (claim_thread_slot,
--      register_current_thread, emit_event_to_context, emit for monitor_runtime_emit,
--      thread_exit_destructor); Runtime/Consumer.antt the consumer thread (drain_context,
--      consumer_round, consumer_main); Runtime/Lifecycle.antt start, stop and the transport summary.
--      The clock, the thread number and the results of the pthread calls are parameters.
--   3. src/ring_buffer.c is the queue between a thread and the consumer, with 2048 places and 64-bit
--      positions that wrap around: Ring.antt, each call as a whole, and Ring/Interleave.antt, its single
--      loads and stores interleaved with the other thread's. include/monitor_event.h is Event.antt.
--   4. src/monitor_verifier.c takes the events of all queues, keeps tables of threads and mutexes, and
--      reports violations. Verifier/State.antt is its state, all variables of the file in one record
--      with the reports written so far; Slots and Lookup are find_thread, find_mutex and thread_index,
--      a pointer into a table being an index; Held is the array of held mutexes; Waiting, Gap, Cycle,
--      Handlers, Process, Deadlock, Reports, Summary and Config follow the file's sections, with the
--      functions' own names.
--   5. targets/ has the programs that the monitor is run on. Targets/Workers.antt is the loop of
--      benchmark_mutex.c and correct_mutex.c (worker_main, worker) as a step relation on several
--      threads; Targets/Benchmark.antt is the command line, the verdict and the output of the benchmark's
--      main, Targets/Correct.antt the verdict of the other's. Targets/Scripts.antt runs the small programs
--      as scripts of pthread calls in every schedule, and emits the events of the preloaded library:
--      Scripts/SelfDeadlock, NonOwner, Circular and Holding are the programs, Scripts/Monitored hands
--      their events to the verifier of part 4.
--
-- Text.antt has texts as lists of bytes and the conversions of printf; Text/Number.antt has
-- strtoull and the test on its result, for Verifier/Config.antt and the benchmark;
-- Text/Buffer.antt has the buffers that snprintf fills, for Verifier/Render.antt, which is what
-- each report and the summary of the verifier put on standard error.
--
-- The proofs stand in modules below the part they are about: Ring/Bounds, Ring/Fifo,
-- Ring/Interleave/Linear, Run and Race for the queue; Runtime/Conservation, Draining, Shutdown,
-- Ownership and Run for the transport; Interceptor/Emission; Verifier/Invariant and its children
-- for the tables; Verifier/Held/Search, Bounds, Entries and Effects for the held mutexes;
-- Verifier/Cycle/Spec for the wait-for graph as a specification, and Edges, Soundness,
-- Completeness, Frame and Mask for the search; Verifier/Deadlock/Confirm for the reports on
-- deadlocks; Verifier/Ownership and Verifier/Verdicts for the order of events, for gaps and for
-- what ends the confirmation of a cycle; Verifier/Render/Complete for the texts, Text/RoundTrip
-- and Text/Lengths for numbers; Runtime/Detection and Runtime/Streams for what the consumer and
-- the verifier do together; Targets/Workers/Totals, Places, Moves, Invariant, Exclusion, Progress,
-- Termination and Joins for the workers, Targets/Benchmark/CommandLine and Verdict for the
-- benchmark, and Targets/Scripts/Explore, Reported and Verdicts for the schedules of the small
-- programs. Base has the shared helpers: Boolean tests, C arrays as lists, the pigeonhole
-- principle, bits.
--
-- Numbers are the native natural numbers, with `u32` and `u64` where a C type wraps around. The
-- walk of the wait-for graph has 16 steps, as in the code: the threads of a cycle differ and have
-- one slot each, so there are at most 16. The consumer's endless loop runs on fuel: each of its
-- rounds but the last takes an event out of a queue, so one round more than there are events is
-- enough after a stop. A printed number has at most 20 digits, which is enough for 64 bits. The
-- schedules of a small program are explored to a depth of 20 or 40 steps, where nothing may move
-- any more.
--
-- Not modelled: the text of the transport summary; a write that fails; the memory order, beyond
-- what the acquire and release pairs of the queue give; emissions and drains that overlap, since
-- outside Ring/Interleave each call runs as a whole; recursion of the interceptor into itself
-- while it emits; the usage text and the error messages of the benchmark; the tests of the queue,
-- Python and shell scripts. The functions of the C and pthread libraries that the targets call are
-- modelled as they are documented.
pub mod Base
pub mod Text
pub mod Event
pub mod Ring
pub mod Verifier
pub mod Runtime
pub mod Interceptor
pub mod Targets
