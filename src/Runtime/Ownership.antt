-- ===== src/Runtime/Ownership.antt =====
-- src/monitor_runtime.c, the registration and the thread-local `tls_context`: which thread has which
-- context.
use runtime_monitor.Base.{
  ℕ, ◌+◌, ◌≤◌, ◌<◌, ◌≡◌, ◌≢◌, ◌⊎◌, inl, inr, refl, sym, ◌∙◌, ap, arith, not, ◌&&◌, Option, none,
  some, List, leb, ◌==◌, length, get_or, set, length-set, get_or-set_self, get_or-set_ne,
  get_or_of_le, dec_lt, ℕ_discrete, Bool-cases, if_all,
}
use runtime_monitor.Event.{EventType}
use runtime_monitor.Runtime.State.{Runtime, Tls, fresh_tls, max_contexts}
use runtime_monitor.Runtime.Producer.{
  Answers, emit_event_to_context, claim_thread_slot, set_destructor, registered, register_from,
  register_current_thread, emit_registered, emit, unregistered,
}
use runtime_monitor.Runtime.Conservation.{IsValid}

-- A thread keeps its context and no slot is given out, or it gets the next slot.
abbrev pub Claims : Tls → Runtime → Tls → Runtime → Type 0
Claims tls r tls' r' =
    ((tls'.context ≡ tls.context) × (r'.next_thread_slot ≡ r.next_thread_slot))
    ⊎ ((tls'.context ≡ some r.next_thread_slot) × (r'.next_thread_slot ≡ r.next_thread_slot + 1))

pub emit_event_to_context_frame :
    (r : Runtime) (s : ℕ) (t : EventType) (address result : ℕ) (clock : Option (ℕ × ℕ))
    → (emit_event_to_context r s t address result clock).next_thread_slot ≡ r.next_thread_slot
unfolding emit_event_to_context
emit_event_to_context_frame r s t address result clock = refl

set_destructor_frame :
    (r : Runtime) (a : Answers) → (set_destructor r a).next_thread_slot ≡ r.next_thread_slot
set_destructor_frame r a =
    if_all (λ (x : Runtime). x.next_thread_slot ≡ r.next_thread_slot)
      (r.thread_exit_key_ready && (a.setspecific == 0)) r _ refl refl

registered-Claims :
    (r : Runtime) (tls : Tls) (a : Answers)
    → let (o, tls', r') = registered tls a (claim_thread_slot r) in Claims tls r tls' r'
unfolding claim_thread_slot
registered-Claims r tls a = elim (Bool-cases (leb max_contexts r.next_thread_slot)) [
  | inl full ↦ rw full (inl (refl, refl))
  | inr room ↦
      rw room (inr (refl, emit_event_to_context_frame _ _ _ _ _ _ ∙ set_destructor_frame _ a))
]

register_from-Claims :
    (o : Option ℕ) (r : Runtime) (tls : Tls) (a : Answers)
    → let (o', tls', r') = register_from o r tls a in Claims tls r tls' r'
register_from-Claims (some s) r tls a = inl (refl, refl)
register_from-Claims none r tls a =
    if_all (λ (x : Option ℕ × Tls × Runtime). Claims tls r x.1 x.2) tls.registration_failed
      (none, tls, unregistered r) (registered tls a (claim_thread_slot r)) (inl (refl, refl))
      (registered-Claims r tls a)

emit_registered-Claims :
    (r : Runtime) (tls : Tls) (t : EventType) (address result : ℕ) (clock : Option (ℕ × ℕ))
    (x : Option ℕ × Tls × Runtime)
    → Claims tls r x.1 x.2
    → let (tls', r') = emit_registered t address result clock x in Claims tls r tls' r'
emit_registered-Claims r tls t address result clock (none, tls', r') c = c
emit_registered-Claims r tls t address result clock (some s, tls', r') (inl (same, next)) =
    inl (same, emit_event_to_context_frame r' s t address result clock ∙ next)
emit_registered-Claims r tls t address result clock (some s, tls', r') (inr (new, next)) =
    inr (new, emit_event_to_context_frame r' s t address result clock ∙ next)

pub emit-Claims :
    (r : Runtime) (tls : Tls) (t : EventType) (address result : ℕ) (a : Answers)
    → let (tls', r') = emit r tls t address result a in Claims tls r tls' r'
unfolding emit register_current_thread
emit-Claims r tls t address result a =
    let Ok = λ (x : Tls × Runtime). Claims tls r x.0 x.1 in
    if_all Ok (not r.accept_events) _ _ (inl (refl, refl)) (
      if_all Ok tls.internal_thread _ _ (inl (refl, refl)) (
        emit_registered-Claims r tls t address result a.clock (register_from tls.context r tls a)
          (register_from-Claims tls.context r tls a)))

-- The runtime with the thread-local variables of all threads.
pub record System : Type 0 where
  pub runtime : Runtime
  pub threads : List Tls

abbrev pub tls_at : System → ℕ → Tls
tls_at s i = get_or s.threads i fresh_tls

-- Thread `i` is left with these variables.
abbrev pub after : System → ℕ → Tls × Runtime → System
after s i (tls, r) = record { runtime = r; threads = set s.threads i tls }

-- The contexts are balanced; a thread's context was given out, to this thread alone.
pub record Sound (s : System) : Type 0 where
  pub valid : IsValid s.runtime
  pub given : (i k : ℕ) → (tls_at s i).context ≡ some k → k < s.runtime.next_thread_slot
  pub single : (i j k : ℕ) → (tls_at s i).context ≡ some k → (tls_at s j).context ≡ some k → i ≡ j

some_inj : {a b : ℕ} → some a ≡ some b → a ≡ b
some_inj {a} e = ap (λ (o : Option ℕ). elim o [ none ↦ a | some x ↦ x ]) e

-- Whose variables are read after thread `i` changed its own.
context_after :
    (s : System) (i : ℕ) (tls : Tls) (r : Runtime) (j k : ℕ)
    → (tls_at (after s i (tls, r)) j).context ≡ some k
    → ((i ≡ j) × (tls.context ≡ some k)) ⊎ ((i ≢ j) × ((tls_at s j).context ≡ some k))
context_after s i tls r j k h = elim (ℕ_discrete i j) [
  | no other ↦ inr (
    other,
    ap (λ (x : Tls). x.context) (sym (get_or-set_ne s.threads i j tls fresh_tls other)) ∙ h,
  )
  | yes same ↦ elim (dec_lt i (length s.threads)) [
    | yes p ↦ inl (
      same,
      ap (λ (x : Tls). x.context)
            (sym (get_or-set_self s.threads i tls fresh_tls p)
              ∙ ap (λ n. get_or (set s.threads i tls) n fresh_tls) same)
          ∙ h,
    )
    | no out ↦ absurd (
        cc (
          ap (λ (x : Tls). x.context)
            (sym (
              get_or_of_le (set s.threads i tls) j fresh_tls
                (omega (arith, length-set s.threads i tls))))
          ∙ h))
  ]
]

-- What a thread has afterwards it had before, or it is the slot after those given out.
pub record Grows (tls : Tls) (r : Runtime) (tls' : Tls) (r' : Runtime) : Type 0 where
  pub more : r.next_thread_slot ≤ r'.next_thread_slot
  pub own :
      (k : ℕ)
      → tls'.context ≡ some k
      → ((tls.context ≡ some k) ⊎ (k ≡ r.next_thread_slot)) × (k < r'.next_thread_slot)

pub Grows-of_Claims :
    (s : System) (i : ℕ) (tls' : Tls) (r' : Runtime)
    → Sound s
    → Claims (tls_at s i) s.runtime tls' r'
    → Grows (tls_at s i) s.runtime tls' r'
Grows-of_Claims s i tls' r' ok (inl (same, next)) = record {
  more = omega (arith, next);
  own = λ k e. (inl (sym same ∙ e), omega (arith, next, ok.given i k (sym same ∙ e)));
}
Grows-of_Claims s i tls' r' ok (inr (new, next)) = record {
  more = omega (arith, next);
  own = λ k e. (inr (sym (some_inj (sym new ∙ e))), omega (arith, next, some_inj (sym new ∙ e)));
}

pub after-Sound :
    (s : System) (i : ℕ) (tls' : Tls) (r' : Runtime)
    → Sound s
    → IsValid r'
    → Grows (tls_at s i) s.runtime tls' r'
    → Sound (after s i (tls', r'))
after-Sound s i tls' r' ok v g = record {
  valid = v;
  given = λ j k h. elim (context_after s i tls' r' j k h) [
    | inl (here, e) ↦ (g.own k e).1
    | inr (there, e) ↦ omega (arith, ok.given j k e, g.more)
  ];
  single = λ a b k ha hb. elim (context_after s i tls' r' a k ha) [
    | inl (ia, ea) ↦ elim (context_after s i tls' r' b k hb) [
      | inl (ib, eb) ↦ sym ia ∙ ib
      | inr (nb, eb) ↦ absurd (apart k b ea nb eb)
    ]
    | inr (na, ea) ↦ elim (context_after s i tls' r' b k hb) [
      | inl (ib, eb) ↦ absurd (apart k a eb na ea)
      | inr (nb, eb) ↦ ok.single a b k ea eb
    ]
  ];
}
  where
    apart : (k b : ℕ) → tls'.context ≡ some k → i ≢ b → (tls_at s b).context ≡ some k → ⊥
    apart k b mine other theirs = elim (g.own k mine).0 [
      | inl old ↦ other (ok.single i b k old theirs)
      | inr new ↦ absurd (omega (arith, ok.given b k theirs))
    ]
