-- ===== src/StolenCell.antt =====
-- src/stolen_cell.rs: the cell that lends its content out by a raw pointer.
-- `StolenData` is the pointer, with the content behind it as the borrower leaves it: while the cell is
-- stolen the code has no other way to the content. A panic is `none`.
use eveboros.Base.{ℕ, ◌≡◌, Bool, true, false, ◌&&◌, Option, none, some, arith, ◌==◌, if◌then◌else◌}

pub record StolenCell {ℓ} (T : Type ℓ) : Type ℓ where
  pub content : T
  pub stolen : Bool

pub record StolenData {ℓ} (T : Type ℓ) : Type ℓ where
  pub pointer : ℕ × ℕ
  pub pointee : T

abbrev pub same_address : ℕ × ℕ → ℕ × ℕ → Bool
same_address a b = (a.0 == b.0) && (a.1 == b.1)

module _ {ℓ} {T : Type ℓ} where
  abbrev pub new : T → StolenCell T
  new x = record { content = x; stolen = false }

  unfoldable pub into_inner : StolenCell T → Option T
  into_inner c = if c.stolen then none else some c.content

  -- `at` is the address of the cell.
  unfoldable pub steal : ℕ × ℕ → StolenCell T → Option (StolenData T × StolenCell T)
  steal at c =
      if c.stolen
      then none
      else some (record { pointer = at; pointee = c.content }, record c { stolen = true })

  -- The content was changed in place, through the pointer.
  unfoldable pub unsteal : ℕ × ℕ → StolenCell T → StolenData T → Option (StolenCell T)
  unsteal at c d =
      if same_address d.pointer at
      then some (record { content = d.pointee; stolen = false })
      else none

  -- A cell that is not lent out can be lent; it stays locked until the data comes back, and then holds
  -- what the borrower left there. The data is taken back at the address where the cell lay when it was
  -- stolen, and a cell that lies elsewhere panics.
  steal-unsteal :
      (from back : ℕ × ℕ) (c : StolenCell T) (y : T)
      → c.stolen ≡ false
      → (d : StolenData T) × (l : StolenCell T) × (steal from c ≡ some (d, l))
        × (d.pointee ≡ c.content)
        × (steal from l ≡ none)
        × (into_inner l ≡ none)
        × (unsteal back l (record d { pointee = y })
            ≡ (if same_address from back then some (new y) else none))
  unfolding steal unsteal into_inner
  steal-unsteal from back c y h = (
    record { pointer = from; pointee = c.content },
    record c { stolen = true },
    ground arith,
    ground arith,
    ground arith,
    ground arith,
    ground arith,
  )
