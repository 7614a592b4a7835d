-- ===== src/Runtime/Shutdown.antt =====
-- src/monitor_runtime.c, `monitor_consumer_main`, `monitor_runtime_stop` and the transport summary: the
-- end of the consumer and the totals after it.
use runtime_monitor.Base.{
  ℕ, zero, suc, ◌+◌, ◌≤◌, ◌<◌, ◌≡◌, ◌⊎◌, inl, inr, refl, sym, ◌∙◌, subst, arith, Bool, true, false,
  not, ◌&&◌, ◌||◌, some, List, [], ◌∷◌, dec_lt, bit, length, get_or, take, Bool-cases, if_all, u64,
  ◌==◌,
}
use runtime_monitor.Ring.Bounds.{size}
use runtime_monitor.Verifier.Summary.{Summary, summary}
use runtime_monitor.Runtime.State.{
  Context, Runtime, zero_context, max_contexts, drain_batch, context_at,
}
use runtime_monitor.Runtime.Consumer.{
  drain_context, visit, drain_all, check_if_quiet, consumer_round, consumer_main,
}
use runtime_monitor.Runtime.Lifecycle.{
  Totals, Transport, no_totals, add_context, add_contexts, totals, transport_summary, stopping,
  runtime_stop,
}
use runtime_monitor.Runtime.Conservation.{Balanced, IsValid, frame-IsValid}
use runtime_monitor.Runtime.Draining.{
  queued, Progress, same-Progress, then-Progress, drain_from-Progress, drain_from-empty,
}

-- A context that is not active, or whose queue is empty.
abbrev pub Drained : Context → Type 0
Drained c = (c.active ≡ false) ⊎ (size c.queue ≡ 0)

weaken-Progress :
    (any some_here : Bool) (r r' : Runtime)
    → Progress false r some_here r'
    → Progress any r (some_here || any) r'
weaken-Progress any true r r' p = record {
  valid = p.valid;
  slots = p.slots;
  running = p.running;
  fewer = omega (arith, p.fewer);
  quiet = λ e. absurd (cc);
}
weaken-Progress any false r r' p = record {
  valid = p.valid;
  slots = p.slots;
  running = p.running;
  fewer = omega (arith, p.fewer);
  quiet = λ e. (e, (p.quiet refl).1);
}

pub visit-Progress :
    (any : Bool) (r : Runtime) (s : ℕ)
    → IsValid r
    → s < max_contexts
    → let (any', r') = visit (any, r) s in
      Progress any r any' r' × (any' ≡ false → Drained (context_at r s))
unfolding drain_context
visit-Progress any r s ok p = elim (Bool-cases (context_at r s).active) [
  | inr idle ↦ rw idle (same-Progress any r ok, λ e. inl refl)
  | inl active ↦
      let bound : s < length r.contexts = omega (arith, ok.storage) in
      let (here, r') = drain_context r s in
      rw active (
        weaken-Progress any here r r' (drain_from-Progress drain_batch r s false ok bound),
        λ e. inr (drain_from-empty 63 r s ok bound (ground arith)),
      )
]

-- The loop from slot `s` on.
pub drain_all-Progress :
    (n s : ℕ) (any : Bool) (r : Runtime)
    → IsValid r
    → s + n ≤ max_contexts
    → let (any', r') = drain_all n s (any, r) in
      Progress any r any' r'
      × (any' ≡ false → (i : ℕ) → s ≤ i → i < s + n → Drained (context_at r i))
unfolding drain_all
drain_all-Progress zero s any r ok p = (same-Progress any r ok, λ e i a b. absurd (omega arith))
drain_all-Progress (suc n) s any r ok p =
    let (here, r') = visit (any, r) s in
    let (v, empty) = visit-Progress any r s ok (omega arith) in
    let (rest, others) = drain_all-Progress n (s + 1) here r' v.valid (omega arith) in
    (
      then-Progress any here _ r r' _ v rest,
      λ e i a b. elim (dec_lt s i) [
        | no here_it_is ↦
            subst (λ k. Drained (context_at r k)) (omega arith) (empty (rest.quiet e).0)
        | yes later ↦
            subst (λ (x : Runtime). Drained (context_at x i)) (v.quiet (rest.quiet e).0).1
              (others e i (omega arith) (omega arith))
      ],
    )

-- All slots that were given out are drained.
abbrev pub AllDrained : Runtime → Type 0
AllDrained r = (i : ℕ) → i < r.next_thread_slot → Drained (context_at r i)

-- One round consumes an event, and leaves fewer in the queues, or finds them all empty.
consumer_round-Progress :
    (r : Runtime)
    → IsValid r
    → let (any, r') = consumer_round r in
      IsValid r'
      × (r'.consumer_running ≡ r.consumer_running)
      × (queued r' + bit any ≤ queued r)
      × (any ≡ false → AllDrained r')
unfolding consumer_round
consumer_round-Progress r ok =
    go _ (drain_all-Progress r.next_thread_slot 0 false r ok (omega (arith, ok.slots)))
  where
    go :
        (x : Bool × Runtime)
        → Progress false r x.0 x.1
          × (x.0 ≡ false → (i : ℕ) → 0 ≤ i → i < 0 + r.next_thread_slot → Drained (context_at r i))
        → let (any, r') = check_if_quiet x in
          IsValid r'
          × (r'.consumer_running ≡ r.consumer_running)
          × (queued r' + bit any ≤ queued r)
          × (any ≡ false → AllDrained r')
    go (true, r') (p, d) = (p.valid, p.running, omega (arith, p.fewer), λ e. absurd (cc))
    go (false, r') (p, d) = (
      frame-IsValid r' _ refl refl p.valid,
      p.running,
      omega (arith, p.fewer),
      λ e i b.
          subst (λ (x : Runtime). Drained (context_at x i)) (sym (p.quiet refl).1)
            (d refl i (omega arith) (omega (arith, p.slots))),
    )

-- The state that the loop ends in, with `fuel` rounds left.
abbrev pub Stops : ℕ → Runtime → Type 0
Stops fuel r = (r' : Runtime) × (consumer_main fuel r ≡ some r') × IsValid r' × AllDrained r'

main_goes_on :
    (fuel : ℕ) (r : Runtime)
    → (consumer_round r).1.consumer_running ≡ false
    → (consumer_round r).0 ≡ true
    → consumer_main (suc fuel) r ≡ consumer_main fuel (consumer_round r).1
unfolding consumer_main
main_goes_on fuel r off more = rw (consumer_main, off, more) refl

main_ends :
    (fuel : ℕ) (r : Runtime)
    → (consumer_round r).1.consumer_running ≡ false
    → (consumer_round r).0 ≡ false
    → consumer_main (suc fuel) r ≡ some (consumer_round r).1
unfolding consumer_main
main_ends fuel r off quiet = rw (consumer_main, off, quiet) refl

-- Once the consumer is told to stop, it ends, within one round more than there are events in the
-- queues; all queues of the slots that were given out are empty then, or belong to no thread.
pub consumer_main-Stops :
    (fuel : ℕ) (r : Runtime)
    → IsValid r
    → r.consumer_running ≡ false
    → queued r < fuel
    → Stops fuel r
consumer_main-Stops zero r ok off p = absurd (omega arith)
consumer_main-Stops (suc fuel) r ok off p =
    let (any, r1) = consumer_round r in
    let (v, same, fewer, d) = consumer_round-Progress r ok in
    elim (Bool-cases any) [
      | inl more ↦
          let (r', runs, ok', drained) =
            consumer_main-Stops fuel r1 v (same ∙ off) (ground arith) in
          (r', main_goes_on fuel r (same ∙ off) more ∙ runs, ok', drained)
      | inr quiet ↦ (r1, main_ends fuel r (same ∙ off) quiet, v, d quiet)
    ]

-- The test that the summary makes.
abbrev Consistent : Totals → Type 0
Consistent t = t.generated ≡ u64 (t.consumed + t.dropped)

add_context-Consistent :
    (t : Totals) (c : Context)
    → Balanced c
    → Drained c
    → Consistent t
    → Consistent (add_context t c)
unfolding add_context
add_context-Consistent t c b (inl idle) h = rw idle h
add_context-Consistent t c b (inr empty) h =
    if_all Consistent (not c.active) t _ h (omega (arith, b.conserved))

add_contexts-Consistent :
    (n : ℕ) (t : Totals) (cs : List Context)
    → ((i : ℕ) → i < n → Balanced (get_or cs i zero_context) × Drained (get_or cs i zero_context))
    → Consistent t
    → Consistent (add_contexts t (take n cs))
unfolding add_contexts
add_contexts-Consistent zero t cs d h = h
add_contexts-Consistent (suc n) t [] d h = h
add_contexts-Consistent (suc n) t (c ∷ cs) d h =
    add_contexts-Consistent n (add_context t c) cs (λ i p. d (suc i) (omega arith))
      (add_context-Consistent t c (d 0 (omega arith)).0 (d 0 (omega arith)).1 h)

drained-Consistent : (r : Runtime) → IsValid r → AllDrained r → Consistent (totals r)
drained-Consistent r ok d =
    add_contexts-Consistent r.next_thread_slot no_totals r.contexts (λ i p. (ok.each i, d i p))
      (omega arith)

-- A stop from a valid state returns, if its fuel is above the number of events in the queues. The
-- transport is then consistent: what all threads generated was consumed or dropped (modulo 2^64). The
-- trace is complete exactly if the totals count no dropped event, and neither an event of a thread
-- without a context nor a failure to set a thread's destructor is counted; and the verifier calls its
-- verdicts authoritative exactly if, besides, it counts no overflow of its tables and no tainted stream.
pub runtime_stop-accounts :
    (fuel : ℕ) (r : Runtime)
    → IsValid r
    → queued r < fuel
    → (t : Transport) × (s : Summary) × (r' : Runtime) × (runtime_stop fuel r ≡ some (t, s, r'))
      × (t.transport_consistent ≡ true)
      × (t.trace_complete
          ≡ ((t.totals.dropped == 0) && ((t.rejected == 0) && (t.lifecycle_failures == 0))))
      × (s.authoritative ≡ (
          t.trace_complete
          && ((s.stats.state_overflow_events == 0) && (s.stats.tainted_thread_streams == 0))))
unfolding runtime_stop transport_summary summary
runtime_stop-accounts fuel r ok p =
    let (r', runs, ok', drained) =
      consumer_main-Stops fuel (stopping r) (frame-IsValid r _ refl refl ok) refl p in
    let agree : (totals r').generated == u64 ((totals r').consumed + (totals r').dropped) ≡ true =
      ground (arith, drained-Consistent r' ok' drained) in
    (
      transport_summary r',
      summary r'.verifier (transport_summary r').trace_complete,
      record r' { thread_exit_key_ready = false },
      rw (runtime_stop, runs) refl,
      agree,
      rw agree refl,
      refl,
    )
