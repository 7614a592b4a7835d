-- ===== src/Ring/Interleave/Linear.antt =====
-- src/ring_buffer.c: one step of the interleaved threads, and its effect on the queue of events.
use runtime_monitor.Base.{
  ℕ, zero, suc, ◌+◌, ◌-◌, ◌≤◌, ◌<◌, ◌≡◌, refl, sym, ◌∙◌, ap, ap₂, arith, List, [], ◌∷◌, ◌++◌, u64,
  get_or, set, length-set, get_or-set_self, get_or-set_ne,
}
use runtime_monitor.Event.{Event, zero_event}
use runtime_monitor.Ring.{Ring, capacity, slot_of}
use runtime_monitor.Ring.Bounds.{IsValid, size}
use runtime_monitor.Ring.Fifo.{Queue, window, contents, window_of_pos}
use runtime_monitor.Ring.Interleave.{
  Pusher, Popper, has_head, has_both, has_copied, rests, has_tail, Shared, copy_in, event_at,
  Effect, nothing, appends, takes, Step, load_head, load_other_tail, find_full, fill, publish,
  load_tail, load_other_head, find_empty, copy_out, release, PusherOk, PopperOk, Consistent,
}

-- The effect on the queue: the oldest event stands first.
abbrev pub Follows : Queue → Effect → Queue → Type 0
Follows q nothing q' = q' ≡ q
Follows q (appends e) q' = q' ≡ q ++ e ∷ []
Follows q (takes e) q' = q ≡ e ∷ q'

-- A write past the window does not show.
window_frame :
    (slots : List Event) (e : Event) (n k p i : ℕ)
    → n ≤ k
    → k < capacity
    → i ≡ slot_of (p + k)
    → window (set slots i e) p n ≡ window slots p n
window_frame slots e zero k p i h l q = refl
window_frame slots e (suc n) k p i h l q =
    ap₂ ◌∷◌ (get_or-set_ne slots i (slot_of p) e zero_event (omega arith))
      (window_frame slots e n (k - 1) (u64 (p + 1)) i (omega arith) (omega arith) (omega arith))

window_snoc :
    (slots : List Event) (n p i : ℕ)
    → i ≡ slot_of (p + n)
    → window slots p (suc n) ≡ window slots p n ++ get_or slots i zero_event ∷ []
window_snoc slots zero p i q = ap (λ k. get_or slots k zero_event ∷ []) (omega arith)
window_snoc slots (suc n) p i q =
    ap (λ xs. get_or slots (slot_of p) zero_event ∷ xs)
      (window_snoc slots n (u64 (p + 1)) i (omega arith))

copy_in-PopperOk :
    (r : Ring) (e : Event) (q : Popper)
    → IsValid r
    → size r < capacity
    → PopperOk r q
    → PopperOk (copy_in r r.head e) q
copy_in-PopperOk r e rests v h ok = ok
copy_in-PopperOk r e (has_tail tail) v h ok = ok
copy_in-PopperOk r e (has_both tail head) v h ok = ok
copy_in-PopperOk r e (has_copied e' tail) v h (own, some_event, copied) = (
  own,
  some_event,
  get_or-set_ne r.slots (slot_of r.head) (slot_of tail) e zero_event
        (omega (arith, own, v.head_word, v.tail_word))
      ∙ copied,
)

publish-PopperOk :
    (r : Ring) (q : Popper)
    → IsValid r
    → size r < capacity
    → PopperOk r q
    → PopperOk (record r { head = u64 (r.head + 1) }) q
publish-PopperOk r rests v h ok = ok
publish-PopperOk r (has_tail tail) v h ok = ok
publish-PopperOk r (has_both tail head) v h (own, word, old) =
    (own, word, omega (arith, v.head_word, v.tail_word))
publish-PopperOk r (has_copied e tail) v h (own, some_event, copied) =
    (own, omega (arith, v.head_word, v.tail_word), copied)

release-PusherOk :
    (r : Ring) (p : Pusher)
    → IsValid r
    → 0 < size r
    → PusherOk r p
    → PusherOk (record r { tail = u64 (r.tail + 1) }) p
release-PusherOk r rests v h ok = ok
release-PusherOk r (has_head e head) v h ok = ok
release-PusherOk r (has_both e head tail) v h (own, word, old, bound) =
    (own, word, omega (arith, v.head_word, v.tail_word), bound)
release-PusherOk r (has_copied e head) v h (own, room, copied) =
    (own, omega (arith, v.head_word, v.tail_word), copied)

-- Producer and consumer may be interleaved in any way, down to single loads and stores: from a
-- consistent state each step leads to a consistent one, and the queue of events changes by a push's
-- last store alone, which appends the pushed event, and by a pop's last store alone, which takes off
-- the oldest event; and that event is the one that the pop returns.
pub Step-Follows :
    {s s' : Shared} {f : Effect}
    → Step s f s'
    → Consistent s
    → Consistent s' × Follows (contents s.ring) f (contents s'.ring)
Step-Follows (load_head r q e) c =
    (record { ring = c.ring; pusher = refl; popper = c.popper }, refl)
Step-Follows (load_other_tail r q e head) c = (
  record {
    ring = c.ring;
    pusher =
        (c.pusher, c.ring.tail_word, omega (arith, c.pusher), omega (arith, c.pusher, c.ring.fits));
    popper = c.popper;
  },
  refl,
)
Step-Follows (find_full r q e head tail full) c =
    (record { ring = c.ring; pusher = tt; popper = c.popper }, refl)
Step-Follows (fill r q e head tail room) c =
    let v = c.ring in
    let (own, word, old, bound) = c.pusher in
    let space : size r < capacity = omega (arith, old, room) in
    (
      record {
        ring = record {
          storage = length-set r.slots (slot_of head) e ∙ v.storage;
          head_word = v.head_word;
          tail_word = v.tail_word;
          fits = v.fits;
        };
        pusher = (
          own,
          space,
          get_or-set_self r.slots (slot_of head) e zero_event (omega (arith, v.storage)),
        );
        popper = rw own (copy_in-PopperOk r e q v space c.popper);
      },
      window_frame r.slots e (size r) (size r) r.tail (slot_of head) (omega arith) space
          (omega (arith, own, v.head_word, v.tail_word)),
    )
Step-Follows (publish r q e head) c =
    let v = c.ring in
    let (own, space, copied) = c.pusher in
    let larger : size (record r { head = u64 (head + 1) }) ≡ suc (size r) =
      omega (arith, own, v.head_word, v.tail_word) in
    (
      record {
        ring = record {
          storage = v.storage;
          head_word = omega arith;
          tail_word = v.tail_word;
          fits = omega (arith, larger, space);
        };
        pusher = tt;
        popper = rw own (publish-PopperOk r q v space c.popper);
      },
      ap (window r.slots r.tail) larger
          ∙ window_snoc r.slots (size r) r.tail (slot_of head)
              (omega (arith, own, v.head_word, v.tail_word))
          ∙ ap (λ x. contents r ++ x ∷ []) copied,
    )
Step-Follows (load_tail r p) c = (record { ring = c.ring; pusher = c.pusher; popper = refl }, refl)
Step-Follows (load_other_head r p tail) c = (
  record {
    ring = c.ring;
    pusher = c.pusher;
    popper = (c.popper, c.ring.head_word, omega (arith, c.popper));
  },
  refl,
)
Step-Follows (find_empty r p tail head empty) c =
    (record { ring = c.ring; pusher = c.pusher; popper = tt }, refl)
Step-Follows (copy_out r p tail head some_event) c =
    let (own, word, old) = c.popper in
    (
      record {
        ring = c.ring;
        pusher = c.pusher;
        popper = (own, omega (arith, own, word, old, c.ring.tail_word, some_event), refl);
      },
      refl,
    )
Step-Follows (release r p e tail) c =
    let v = c.ring in
    let (own, some_event, copied) = c.popper in
    let smaller : size r - 1 ≡ size (record r { tail = u64 (tail + 1) }) =
      omega (arith, own, v.head_word, v.tail_word) in
    (
      record {
        ring = record {
          storage = v.storage;
          head_word = v.head_word;
          tail_word = omega arith;
          fits = omega (arith, smaller, v.fits);
        };
        pusher = rw own (release-PusherOk r p v some_event c.pusher);
        popper = tt;
      },
      window_of_pos r.slots r.tail (size r) some_event
          ∙ ap₂ ◌∷◌ (ap (event_at r) (sym own) ∙ copied)
              (ap₂ (window r.slots) (ap (λ n. u64 (n + 1)) (sym own)) smaller),
    )
