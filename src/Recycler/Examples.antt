-- ===== src/Recycler/Examples.antt =====
-- The theorems on the recycler of src/recycler.rs at small recyclers.
use eveboros.Base.{ℕ, zero, suc, ◌≡◌, refl, some, [], ◌∷◌, get_elem?, count}
use eveboros.Recycler.{Block, Recycler, new, store, release}
use eveboros.Recycler.Slots.{vacant}
use eveboros.Recycler.Invariant.{IsValid, Stored, Released, store-Stored, release-Released}

abbrev block : Block
block = record { buffer = 1; capacity = 4 }

abbrev empty : Recycler ℕ
empty = new

-- One slot, in use.
abbrev single : Recycler ℕ
single = record { slots = some 7 ∷ []; free = []; block = block }

single-free : (i : ℕ) → count i [] ≡ vacant (get_elem? single.slots i)
single-free zero = refl
single-free (suc i) = refl

single-IsValid : IsValid single
single-IsValid = record { free_once = single-free; free_size = refl }

store-Stored_example :
    (idx : ℕ) × (r' : Recycler ℕ) × (store block single 8 ≡ some (idx, r')) × Stored single 8 idx r'
store-Stored_example = store-Stored block single 8 single-IsValid

release-Released_example :
    (r' : Recycler ℕ) × (release single 0 ≡ some (7, r')) × Released single 0 r'
release-Released_example = release-Released single 0 single-IsValid refl
