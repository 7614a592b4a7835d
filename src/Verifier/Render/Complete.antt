-- ===== src/Verifier/Render/Complete.antt =====
-- src/monitor_verifier.c: the lengths of the reports' texts and the buffers that they are put into.
use runtime_monitor.Base.{
  ℕ, ◌+◌, ◌*◌, ◌-◌, ◌≤◌, ◌<◌, ◌≡◌, ◌∙◌, arith, List, [], ◌∷◌, ◌++◌, map, length, length-append,
  if_all, ltb, ◌^◌,
}
use runtime_monitor.Text.{Text, bytes, decimal, signed_decimal, pointer}
use runtime_monitor.Text.Lengths.{length-decimal-le, length-pointer-le}
use runtime_monitor.Text.Buffer.{
  printed, printed_lem, composed, composed_lem, concat, AllFilled, take_all,
}
use runtime_monitor.Verifier.State.{
  HeldMutex, Report, self_deadlock_candidate, non_owner_unlock, hold_time_violation,
  lock_held_at_thread_exit, deadlock_cycle, max_held_mutexes, max_threads,
}
use runtime_monitor.Verifier.Render.{
  rule, event_lines, self_deadlock_text, non_owner_text, hold_time_text, exit_head, held_line,
  cycle_head, wait_line, wait_lines, render,
}

-- The text that a report is meant to have.
pub full_text : Report → Text
full_text (self_deadlock_candidate sequence thread mutex) = self_deadlock_text sequence thread mutex
full_text (non_owner_unlock sequence thread mutex result) =
    non_owner_text sequence thread mutex result
full_text (hold_time_violation sequence thread mutex held_ns threshold_ns) =
    hold_time_text sequence thread mutex held_ns threshold_ns
full_text (lock_held_at_thread_exit sequence thread held_count held) =
    exit_head sequence thread held_count ++ (concat (map held_line held) ++ rule)
full_text (deadlock_cycle observed_after_seq cycle_length threads mutexes owners) =
    cycle_head observed_after_seq cycle_length
    ++ (concat (wait_lines threads mutexes owners) ++ rule)

-- A report on no more mutexes than a thread may hold, or no more threads than there may be.
abbrev pub Fits : Report → Type 0
Fits (lock_held_at_thread_exit sequence thread held_count held) = length held ≤ max_held_mutexes
Fits (deadlock_cycle observed_after_seq cycle_length threads mutexes owners) =
    length threads ≤ max_threads
Fits _ = Unit

printed_whole : (size : ℕ) (t : Text) → length t < size → printed size t ≡ t
printed_whole size t h = printed_lem size t (omega arith) ∙ take_all (size - 1) t (omega arith)

length-signed : (w : ℕ) → length (signed_decimal w) ≤ 21
length-signed w =
    if_all (λ (t : Text). length t ≤ 21) (ltb w (2 ^ 31)) _ _ (omega (arith, length-decimal-le w))
      (omega (arith, length-decimal-le (2 ^ 32 - w)))

length-event_lines :
    (sequence thread : ℕ) (rest : Text)
    → length (event_lines sequence thread rest) ≤ 59 + length rest
length-event_lines sequence thread rest = omega (
  arith,
  length-append (decimal sequence) (bytes "\nthread=T" ++ (decimal thread ++ (bytes "\n" ++ rest))),
  length-append (decimal thread) (bytes "\n" ++ rest),
  length-decimal-le sequence,
  length-decimal-le thread,
)

self_deadlock_short :
    (sequence thread mutex : ℕ) → length (self_deadlock_text sequence thread mutex) < 768
self_deadlock_short sequence thread mutex =
    let tail = bytes "\nreason=thread requested a mutex it already holds\n" ++ rule in
    omega (
      arith,
      length-event_lines sequence thread (bytes "mutex=" ++ (pointer mutex ++ tail)),
      length-append (pointer mutex) tail,
      length-pointer-le mutex,
    )

non_owner_short :
    (sequence thread mutex result : ℕ) → length (non_owner_text sequence thread mutex result) < 768
non_owner_short sequence thread mutex result =
    let tail =
      bytes " (EPERM)\nreason=pthread rejected unlock because caller did not own mutex\n" ++ rule in
    let rest = bytes "\npthread_result=" ++ (signed_decimal result ++ tail) in
    omega (
      arith,
      length-event_lines sequence thread (bytes "mutex=" ++ (pointer mutex ++ rest)),
      length-append (pointer mutex) rest,
      length-append (signed_decimal result) tail,
      length-pointer-le mutex,
      length-signed result,
    )

hold_time_short :
    (sequence thread mutex held_ns threshold_ns : ℕ)
    → length (hold_time_text sequence thread mutex held_ns threshold_ns) < 768
hold_time_short sequence thread mutex held_ns threshold_ns =
    let tail = bytes "\n" ++ rule in
    let middle = bytes "\nthreshold_ns=" ++ (decimal threshold_ns ++ tail) in
    let rest = bytes "\nheld_ns=" ++ (decimal held_ns ++ middle) in
    omega (
      arith,
      length-event_lines sequence thread (bytes "mutex=" ++ (pointer mutex ++ rest)),
      length-append (pointer mutex) rest,
      length-append (decimal held_ns) middle,
      length-append (decimal threshold_ns) tail,
      length-pointer-le mutex,
      length-decimal-le held_ns,
      length-decimal-le threshold_ns,
    )

exit_head_short :
    (sequence thread held_count : ℕ) → length (exit_head sequence thread held_count) ≤ 190
exit_head_short sequence thread held_count =
    let rest = bytes "held_mutex_count=" ++ (decimal held_count ++ bytes "\n") in
    omega (
      arith,
      length-event_lines sequence thread rest,
      length-append (decimal held_count) (bytes "\n"),
      length-decimal-le held_count,
    )

cycle_head_short : (after n : ℕ) → length (cycle_head after n) ≤ 160
cycle_head_short after n =
    let rest = bytes "\ncycle_length=" ++ (decimal n ++ bytes "\n") in
    omega (
      arith,
      length-append (decimal after) rest,
      length-append (decimal n) (bytes "\n"),
      length-decimal-le after,
      length-decimal-le n,
    )

held_line_short : (h : HeldMutex) → (0 < length (held_line h)) × (length (held_line h) ≤ 54)
held_line_short h =
    let rest = bytes " depth=" ++ (decimal h.depth ++ bytes "\n") in
    omega (
      arith,
      length-append (pointer h.address) rest,
      length-append (decimal h.depth) (bytes "\n"),
      length-pointer-le h.address,
      length-decimal-le h.depth,
    )

wait_line_short : (t m o : ℕ) → (0 < length (wait_line t m o)) × (length (wait_line t m o) ≤ 90)
wait_line_short t m o =
    let tail = bytes " owned by T" ++ (decimal o ++ bytes "\n") in
    let rest = bytes " waits for mutex=" ++ (pointer m ++ tail) in
    omega (
      arith,
      length-append (decimal t) rest,
      length-append (pointer m) tail,
      length-append (decimal o) (bytes "\n"),
      length-decimal-le t,
      length-pointer-le m,
      length-decimal-le o,
    )

held_lines_short :
    (hs : List HeldMutex)
    → AllFilled (map held_line hs) × (length (concat (map held_line hs)) ≤ 54 * length hs)
held_lines_short [] = (tt, omega arith)
held_lines_short (h ∷ hs) =
    let (filled, short) = held_lines_short hs in
    let (some_bytes, few) = held_line_short h in
    (
      (some_bytes, filled),
      omega (arith, few, short, length-append (held_line h) (concat (map held_line hs))),
    )

wait_lines_short :
    (ts ms os : List ℕ)
    → AllFilled (wait_lines ts ms os) × (length (concat (wait_lines ts ms os)) ≤ 90 * length ts)
unfolding wait_lines
wait_lines_short (t ∷ ts) (m ∷ ms) (o ∷ os) =
    let (filled, short) = wait_lines_short ts ms os in
    let (some_bytes, few) = wait_line_short t m o in
    (
      (some_bytes, filled),
      omega (arith, few, short, length-append (wait_line t m o) (concat (wait_lines ts ms os))),
    )
wait_lines_short [] ms os = (tt, omega arith)
wait_lines_short (t ∷ ts) [] os = (tt, omega arith)
wait_lines_short (t ∷ ts) (m ∷ ms) [] = (tt, omega arith)

composed_whole :
    (size : ℕ) (head last : Text) (lines : List Text)
    → 0 < length head
    → 0 < length last
    → AllFilled lines
    → length head + length (concat lines) + length last < size
    → composed size head lines last ≡ head ++ (concat lines ++ last)
composed_whole size head last lines p q filled h =
    composed_lem size head last lines (omega arith) p q filled
    ∙ take_all (size - 1) (head ++ (concat lines ++ last)) (
        omega (arith, length-append head (concat lines ++ last), length-append (concat lines) last))

-- What is written of a report is its whole text: no buffer is too small for it, if a report of mutexes
-- held at exit names at most 32 of them, and a report of a deadlock at most 16 threads.
pub render_whole : (r : Report) → Fits r → render r ≡ full_text r
unfolding render full_text
render_whole (self_deadlock_candidate s t m) h = printed_whole 768 _ (self_deadlock_short s t m)
render_whole (non_owner_unlock s t m r) h = printed_whole 768 _ (non_owner_short s t m r)
render_whole (hold_time_violation s t m d l) h = printed_whole 768 _ (hold_time_short s t m d l)
render_whole (lock_held_at_thread_exit s t n held) h =
    let (filled, short) = held_lines_short held in
    composed_whole 2048 (exit_head s t n) rule (map held_line held) (omega arith) (omega arith)
      filled (omega (arith, exit_head_short s t n, short))
render_whole (deadlock_cycle a n ts ms os) h =
    let (filled, short) = wait_lines_short ts ms os in
    composed_whole 2048 (cycle_head a n) rule (wait_lines ts ms os) (omega arith) (omega arith)
      filled (omega (arith, cycle_head_short a n, short))
