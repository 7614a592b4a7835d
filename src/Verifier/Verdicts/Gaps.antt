-- ===== src/Verifier/Verdicts/Gaps.antt =====
-- src/monitor_verifier.c, `observe_thread_sequence` and `mark_thread_stream_tainted`: a gap in a stream.
use runtime_monitor.Base.{
  ℕ, ◌+◌, ◌<◌, ◌≡◌, ◌≢◌, refl, sym, ◌∙◌, ap, arith, Bool, true, false, not, ◌||◌, ◌==◌,
  if◌then◌else◌, u32, u64, Bool-cases, inl, inr, length, get_or, set, length-set, get_or-set_self,
  get_or-map, replicate, List,
}
use runtime_monitor.Event.{Event}
use runtime_monitor.Verifier.State.{
  Verifier, ThreadState, MutexState, Stats, zero_thread, zero_mutex, zero_held, max_held_mutexes,
  thread_at, mutex_at, set_thread,
}
use runtime_monitor.Verifier.Waiting.{stop_waiting}
use runtime_monitor.Verifier.Gap.{
  invalidate_mutex, invalidate_mutexes_owned_by_thread, forget_waiting, forget_held, taint,
  mark_thread_stream_tainted, gap_found, expect_next, expected, observe_at,
}

or-false : (b : Bool) → (b || false) ≡ b
or-false true = refl
or-false false = refl

or-true : (b : Bool) → (b || true) ≡ true
or-true true = refl
or-true false = refl

-- A rewrite of a slot of the table, read back.
read_back :
    (ts : List ThreadState) (i : ℕ) (t : ThreadState)
    → i < length ts
    → get_or (set ts i t) i zero_thread ≡ t
read_back ts i t p = get_or-set_self ts i t zero_thread p

forget_waiting_at :
    (v : Verifier) (i : ℕ)
    → i < length v.threads
    → let t' = thread_at (forget_waiting v i) i in
      (t'.waiting_mutex ≡ 0)
      × (t'.trace_tainted ≡ (thread_at v i).trace_tainted)
      × (t'.thread_id ≡ (thread_at v i).thread_id)
      × (t'.sequence_initialized ≡ (thread_at v i).sequence_initialized)
      × (length (forget_waiting v i).threads ≡ length v.threads)
      × ((forget_waiting v i).stats ≡ v.stats)
      × ((forget_waiting v i).output ≡ v.output)
unfolding stop_waiting
forget_waiting_at v i p = elim (Bool-cases ((thread_at v i).waiting_mutex == 0)) [
  | inl idle ↦ rw idle (ground arith, refl, refl, refl, refl, refl, refl)
  | inr waits ↦
      let t = record (thread_at v i) { waiting_mutex = 0; waiting_sequence = 0 } in
      let e = read_back v.threads i t p in
      rw waits (
        ap (λ (x : ThreadState). x.waiting_mutex) e,
        ap (λ (x : ThreadState). x.trace_tainted) e,
        ap (λ (x : ThreadState). x.thread_id) e,
        ap (λ (x : ThreadState). x.sequence_initialized) e,
        length-set v.threads i t,
        refl,
        refl,
      )
]

-- The taint of a whole stream: the thread neither waits nor holds, and no mutex is known as its own.
pub record Forgotten (v v' : Verifier) (i : ℕ) : Type 0 where
  pub tainted : (thread_at v' i).trace_tainted ≡ true
  pub idle : (thread_at v' i).waiting_mutex ≡ 0
  pub empty : (thread_at v' i).held_count ≡ 0
  pub same : (thread_at v' i).thread_id ≡ (thread_at v i).thread_id
  pub owns_none :
      (j : ℕ)
      → (mutex_at v' j).used ≡ true
      → (mutex_at v' j).owner_known ≡ true
      → (mutex_at v' j).owner_thread_id ≢ (thread_at v i).thread_id
  pub counted : v'.stats.tainted_thread_streams ≡ u32 (v.stats.tainted_thread_streams + 1)

invalidated_owns_none :
    (id barrier : ℕ) (m : MutexState)
    → let m' = invalidate_mutex id barrier m in
      m'.used ≡ true → m'.owner_known ≡ true → m'.owner_thread_id ≢ id
unfolding invalidate_mutex
invalidated_owns_none id barrier m u k e = ground arith

-- No mutex of the table is known as the thread's after the loop.
invalidated_none :
    (v : Verifier) (id barrier j : ℕ)
    → (mutex_at (invalidate_mutexes_owned_by_thread v id barrier) j).used ≡ true
    → (mutex_at (invalidate_mutexes_owned_by_thread v id barrier) j).owner_known ≡ true
    → (mutex_at (invalidate_mutexes_owned_by_thread v id barrier) j).owner_thread_id ≢ id
unfolding invalidate_mutex
invalidated_none v id barrier j =
    rw (get_or-map (invalidate_mutex id barrier) v.mutexes j zero_mutex)
      λ u k. invalidated_owns_none id barrier (mutex_at v j) u k

-- When a stream that was complete so far is tainted, its thread waits for no mutex and holds none, no
-- mutex in use is known as owned by it, its identity is kept, and one more tainted stream is counted
-- (modulo 2^32).
pub mark_thread_stream_tainted-Forgotten :
    (v : Verifier) (i barrier : ℕ)
    → i < length v.threads
    → (thread_at v i).trace_tainted ≡ false
    → Forgotten v (mark_thread_stream_tainted v i barrier) i
unfolding mark_thread_stream_tainted invalidate_mutex
mark_thread_stream_tainted-Forgotten v i barrier p whole = rw whole (record {
  tainted =
      ap (λ (x : ThreadState). x.trace_tainted) e3
      ∙ f.1
      ∙ ap (λ (x : ThreadState). x.trace_tainted) e1;
  idle = ap (λ (x : ThreadState). x.waiting_mutex) e3 ∙ f.0;
  empty = ap (λ (x : ThreadState). x.held_count) e3;
  same = id3;
  owns_none = λ j u k o.
      invalidated_none (forget_held v2 i) (thread_at (forget_held v2 i) i).thread_id barrier j u k
        (o ∙ sym id3);
  counted = ap (λ (x : Stats). x.tainted_thread_streams) f.5;
})
  where
    t1 : ThreadState
    t1 = record (thread_at v i) { trace_tainted = true }

    v2 : Verifier
    v2 = forget_waiting (taint v i) i

    e1 : thread_at (taint v i) i ≡ t1
    e1 = read_back v.threads i t1 p

    f :
        let t' = thread_at v2 i in
        (t'.waiting_mutex ≡ 0)
        × (t'.trace_tainted ≡ (thread_at (taint v i) i).trace_tainted)
        × (t'.thread_id ≡ (thread_at (taint v i) i).thread_id)
        × (t'.sequence_initialized ≡ (thread_at (taint v i) i).sequence_initialized)
        × (length v2.threads ≡ length (taint v i).threads)
        × (v2.stats ≡ (taint v i).stats)
        × (v2.output ≡ (taint v i).output)
    f = forget_waiting_at (taint v i) i (rw (length-set v.threads i t1) p)

    e3 : thread_at (forget_held v2 i) i ≡ record (thread_at v2 i) {
      held_mutexes = replicate max_held_mutexes zero_held;
      held_count = 0;
    }
    e3 = read_back v2.threads i _ (rw (f.4, length-set v.threads i t1) p)

    id3 : (thread_at (forget_held v2 i) i).thread_id ≡ (thread_at v i).thread_id
    id3 = ap (λ (x : ThreadState). x.thread_id) e3 ∙ f.2 ∙ ap (λ (x : ThreadState). x.thread_id) e1

mark_thread_stream_tainted_frame :
    (v : Verifier) (i barrier : ℕ)
    → i < length v.threads
    → let v' = mark_thread_stream_tainted v i barrier in
      ((thread_at v' i).trace_tainted ≡ true)
      × ((thread_at v' i).sequence_initialized ≡ (thread_at v i).sequence_initialized)
      × (length v'.threads ≡ length v.threads)
      × (v'.stats.detected_stream_gaps ≡ v.stats.detected_stream_gaps)
      × ((thread_at v' i).thread_id ≡ (thread_at v i).thread_id)
      × (v'.output ≡ v.output)
unfolding mark_thread_stream_tainted
mark_thread_stream_tainted_frame v i barrier p = elim (Bool-cases (thread_at v i).trace_tainted) [
  | inl tainted ↦ rw tainted (tainted, refl, refl, refl, refl, refl)
  | inr whole ↦
      let t1 = record (thread_at v i) { trace_tainted = true } in
      let e1 = read_back v.threads i t1 p in
      let f = forget_waiting_at (taint v i) i (rw (length-set v.threads i t1) p) in
      let v2 = forget_waiting (taint v i) i in
      let e3 =
        read_back v2.threads i
          (record (thread_at v2 i) {
            held_mutexes = replicate max_held_mutexes zero_held;
            held_count = 0;
          })
          (rw (f.4, length-set v.threads i t1) p) in
      rw whole (
        ap (λ (x : ThreadState). x.trace_tainted) e3
            ∙ f.1
            ∙ ap (λ (x : ThreadState). x.trace_tainted) e1,
        ap (λ (x : ThreadState). x.sequence_initialized) e3
            ∙ f.3
            ∙ ap (λ (x : ThreadState). x.sequence_initialized) e1,
        length-set v2.threads i _ ∙ f.4 ∙ length-set v.threads i t1,
        ap (λ (x : Stats). x.detected_stream_gaps) f.5,
        ap (λ (x : ThreadState). x.thread_id) e3 ∙ f.2 ∙ ap (λ (x : ThreadState). x.thread_id) e1,
        f.6,
      )
]

-- The gap bookkeeping of one step, from a state where the sequence number is compared already.
gap_step :
    (v : Verifier) (i : ℕ) (e : Event) (fits : Bool)
    → i < length v.threads
    → let v' = expect_next (if fits then v else gap_found v i e) i e in
      ((thread_at v' i).next_expected_sequence ≡ u32 (e.thread_sequence + 1))
      × ((thread_at v' i).sequence_initialized ≡ (thread_at v i).sequence_initialized)
      × ((thread_at v' i).trace_tainted ≡ ((thread_at v i).trace_tainted || not fits))
      × (v'.stats.detected_stream_gaps
          ≡ (if fits then v.stats.detected_stream_gaps else u64 (v.stats.detected_stream_gaps + 1)))
unfolding gap_found
gap_step v i e true p =
    let t' = record (thread_at v i) { next_expected_sequence = u32 (e.thread_sequence + 1) } in
    let b = read_back v.threads i t' p in
    (
      ap (λ (x : ThreadState). x.next_expected_sequence) b,
      ap (λ (x : ThreadState). x.sequence_initialized) b,
      ap (λ (x : ThreadState). x.trace_tainted) b ∙ sym (or-false (thread_at v i).trace_tainted),
      refl,
    )
gap_step v i e false p =
    let v1 = record v {
      stats = record (v.stats) { detected_stream_gaps = u64 (v.stats.detected_stream_gaps + 1) };
    } in
    let v2 = mark_thread_stream_tainted v1 i e.sequence_id in
    let f = mark_thread_stream_tainted_frame v1 i e.sequence_id p in
    let t' = record (thread_at v2 i) { next_expected_sequence = u32 (e.thread_sequence + 1) } in
    let b = read_back v2.threads i t' (rw f.2 p) in
    (
      ap (λ (x : ThreadState). x.next_expected_sequence) b,
      ap (λ (x : ThreadState). x.sequence_initialized) b ∙ f.1,
      ap (λ (x : ThreadState). x.trace_tainted) b
          ∙ f.0
          ∙ sym (or-true (thread_at v i).trace_tainted),
      f.3,
    )

-- After any event of the thread in slot `i`, the verifier expects the successor, modulo 2^32, of its
-- sequence number. The thread is tainted exactly if it was, or if the number is not the one expected
-- (0 for the first event); a number that is not the expected one counts one gap, any other none.
pub gap_noticed :
    (v : Verifier) (i : ℕ) (e : Event)
    → i < length v.threads
    → let t = thread_at v i in
      let v' = observe_at v i e in
      let t' = thread_at v' i in
      (t'.next_expected_sequence ≡ u32 (e.thread_sequence + 1))
      × (t'.sequence_initialized ≡ true)
      × (t'.trace_tainted ≡ (t.trace_tainted || not (e.thread_sequence == expected t)))
      × (v'.stats.detected_stream_gaps ≡ (
          if e.thread_sequence == expected t
          then v.stats.detected_stream_gaps
          else u64 (v.stats.detected_stream_gaps + 1)))
unfolding observe_at
gap_noticed v i e p = elim (Bool-cases (thread_at v i).sequence_initialized) [
  | inl later ↦
      let g = gap_step v i e (e.thread_sequence == (thread_at v i).next_expected_sequence) p in
      rw later (g.0, g.1 ∙ later, g.2, g.3)
  | inr first ↦
      let t1 = record (thread_at v i) { sequence_initialized = true } in
      let b = read_back v.threads i t1 p in
      let g =
        gap_step (set_thread v i t1) i e (e.thread_sequence == 0)
          (rw (length-set v.threads i t1) p) in
      rw first (
        g.0,
        g.1 ∙ ap (λ (x : ThreadState). x.sequence_initialized) b,
        g.2 ∙ ap (λ (x : ThreadState). x.trace_tainted || not (e.thread_sequence == 0)) b,
        g.3,
      )
]

-- An event's number leaves the thread's identity and what was written so far.
step_frame :
    (v : Verifier) (i : ℕ) (e : Event) (fits : Bool)
    → i < length v.threads
    → let v' = expect_next (if fits then v else gap_found v i e) i e in
      ((thread_at v' i).thread_id ≡ (thread_at v i).thread_id) × (v'.output ≡ v.output)
unfolding gap_found
step_frame v i e true p =
    let t' = record (thread_at v i) { next_expected_sequence = u32 (e.thread_sequence + 1) } in
    (ap (λ (x : ThreadState). x.thread_id) (read_back v.threads i t' p), refl)
step_frame v i e false p =
    let v1 = record v {
      stats = record (v.stats) { detected_stream_gaps = u64 (v.stats.detected_stream_gaps + 1) };
    } in
    let v2 = mark_thread_stream_tainted v1 i e.sequence_id in
    let f = mark_thread_stream_tainted_frame v1 i e.sequence_id p in
    let t' = record (thread_at v2 i) { next_expected_sequence = u32 (e.thread_sequence + 1) } in
    (ap (λ (x : ThreadState). x.thread_id) (read_back v2.threads i t' (rw f.2 p)) ∙ f.4, f.5)

pub observe_at_frame :
    (v : Verifier) (i : ℕ) (e : Event)
    → i < length v.threads
    → ((thread_at (observe_at v i e) i).thread_id ≡ (thread_at v i).thread_id)
      × ((observe_at v i e).output ≡ v.output)
unfolding observe_at
observe_at_frame v i e p = elim (Bool-cases (thread_at v i).sequence_initialized) [
  | inl later ↦
      rw later (step_frame v i e (e.thread_sequence == (thread_at v i).next_expected_sequence) p)
  | inr first ↦
      let t1 = record (thread_at v i) { sequence_initialized = true } in
      let b = read_back v.threads i t1 p in
      let g =
        step_frame (set_thread v i t1) i e (e.thread_sequence == 0)
          (rw (length-set v.threads i t1) p) in
      rw first (g.0 ∙ ap (λ (x : ThreadState). x.thread_id) b, g.1)
]
