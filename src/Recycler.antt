-- ===== src/Recycler.antt =====
-- src/recycler.rs: the slot storage that holds the events and the IO registrations of a loop.
-- A panic (a failed assertion, an index out of bounds, an unwrap of nothing) is `none`.
-- The head of `free` is the top of the Rust stack. `block` is the memory that backs the vector of
-- slots: `push` keeps it while there is room and otherwise moves to the block that the allocator
-- hands out, which is an argument (`fresh`) of the operations that push.
pub mod Examples
pub mod Suite
pub mod Slots
pub mod Invariant
pub mod Inverse
use eveboros.Base.{
  ℕ, ◌+◌, ◌-◌, Bool, true, false, ◌&&◌, Option, none, some, List, [], ◌∷◌, ◌++◌, length, get_elem?,
  set, ltb, ◌==◌, if◌then◌else◌, is_some,
}

-- A heap block: where it lies, and how many slots fit.
pub record Block : Type 0 where
  pub buffer : ℕ
  pub capacity : ℕ

pub record Recycler {ℓ} (T : Type ℓ) : Type ℓ where
  pub slots : List (Option T)
  pub free : List ℕ
  pub block : Block

abbrev pub no_block : Block
no_block = record { buffer = 0; capacity = 0 }

module _ {ℓ} {T : Type ℓ} where
  -- What a slot holds: nothing for an index out of bounds and for an unused slot.
  abbrev pub held : Option (Option T) → Option T
  held none = none
  held (some o) = o

  abbrev pub view : Recycler T → ℕ → Option T
  view r idx = held (get_elem? r.slots idx)

  unfoldable pub new : Recycler T
  new = record { slots = []; free = []; block = no_block }

  -- The slot must be there and empty.
  reuse : ℕ → List ℕ → Recycler T → T → Option (ℕ × Recycler T)
  reuse idx rest r item = elim (get_elem? r.slots idx) [
    | none ↦ none
    | some (some _) ↦ none
    | some none ↦ some (idx, record r { slots = set r.slots idx (some item); free = rest })
  ]

  push : Block → Recycler T → T → Option (ℕ × Recycler T)
  push fresh r item = some (
    length (r.slots ++ some item ∷ []) - 1,
    record r {
      slots = r.slots ++ some item ∷ [];
      block = if ltb (length r.slots) r.block.capacity then r.block else fresh;
    },
  )

  store_by : List ℕ → Block → Recycler T → T → Option (ℕ × Recycler T)
  unfolding reuse push
  store_by (idx ∷ rest) fresh r item = reuse idx rest r item
  store_by [] fresh r item = push fresh r item

  unfoldable pub store : Block → Recycler T → T → Option (ℕ × Recycler T)
  unfolding store_by
  store fresh r item = store_by r.free fresh r item

  unfoldable pub release : Recycler T → ℕ → Option (T × Recycler T)
  release r idx = elim (get_elem? r.slots idx) [
    | none ↦ none
    | some none ↦ none
    | some (some item) ↦ some (item, record r { slots = set r.slots idx none; free = idx ∷ r.free })
  ]

  unfoldable pub valid : Recycler T → ℕ → Bool
  valid r idx = ltb idx (length r.slots) && is_some (held (get_elem? r.slots idx))

  unfoldable pub len : Recycler T → ℕ
  len r = length r.slots - length r.free

  unfoldable pub is_empty : Recycler T → Bool
  unfolding len
  is_empty r = len r == 0

  unfoldable pub index : Recycler T → ℕ → Option T
  index r idx = elim (get_elem? r.slots idx) [
    | none ↦ none
    | some none ↦ none
    | some (some item) ↦ some item
  ]

  -- A write through `&mut r[idx]`.
  unfoldable pub index_mut : Recycler T → ℕ → (T → T) → Option (Recycler T)
  index_mut r idx f = elim (get_elem? r.slots idx) [
    | none ↦ none
    | some none ↦ none
    | some (some item) ↦ some (record r { slots = set r.slots idx (some (f item)) })
  ]

  -- The address of the item at an index.
  abbrev pub address : Recycler T → ℕ → ℕ × ℕ
  address r idx = (r.block.buffer, idx)
