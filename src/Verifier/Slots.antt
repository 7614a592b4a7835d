-- ===== src/Verifier/Slots.antt =====
-- The search that `find_thread` and `find_mutex` share: a table of slots in use or free, each with
-- a key; it yields the slot of a key, or the first free slot.
pub mod Laws
use runtime_monitor.Base.{
  ℕ, ◌+◌, Bool, Option, none, some, List, [], ◌∷◌, ◌&&◌, ◌==◌, if◌then◌else◌,
}

pub data Slot : Type 0 where
  found : ℕ → Slot
  missing : Option ℕ → Slot

-- `free_slot` keeps the first free one.
abbrev pub first_of_two : Option ℕ → ℕ → Option ℕ
first_of_two none i = some i
first_of_two (some j) i = some j

module _ {A : Type 0} (used : A → Bool) (key : A → ℕ) (k : ℕ) where
  -- the loop from index `i` on, over the slots that are left
  unfoldable pub scan : List A → ℕ → Option ℕ → Slot
  scan [] i free = missing free
  scan (x ∷ xs) i free =
      let rest = scan xs (i + 1) (if used x then free else first_of_two free i) in
      if used x && (key x == k) then found i else rest
