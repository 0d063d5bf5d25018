-- ===== src/Recycler/Suite.antt =====
-- The tests at the end of src/recycler.rs, run on the model: what they assert holds of it, and those
-- that should panic do so at their last access.
use eveboros.Base.{
  ℕ, ◌≡◌, refl, Bool, true, false, not, ◌&&◌, Option, none, some, List, [], ◌∷◌, ◌==◌, leb,
  if◌then◌else◌,
}
use eveboros.Outcome.{Outcome, returns, fails, panic, out_of_fuel, M, assert, ◌>>=◌, ◌>>◌}
use eveboros.Recycler.{Block, Recycler, new, store, release, len, is_empty, index, index_mut}

-- How many items fit without a reallocation.
abbrev capacity : Recycler ℕ → ℕ
capacity r = r.block.capacity

-- The allocator grants a block for four numbers.
abbrev granted : Block
granted = record { buffer = 1; capacity = 4 }

-- `assert_eq!(idx, r.store(item))`
abbrev stores : ℕ → ℕ → M (Recycler ℕ) (Unit {0})
stores idx item r = elim (store granted r item) [
  | none ↦ panic
  | some (i, r') ↦ if i == idx then returns tt r' else panic
]

-- `r.release(idx)`
abbrev releases : ℕ → M (Recycler ℕ) ℕ
releases idx r = elim (release r idx) [ none ↦ panic | some (item, r') ↦ returns item r' ]

-- `r[idx] = item`
abbrev writes : ℕ → ℕ → M (Recycler ℕ) (Unit {0})
writes idx item r = elim (index_mut r idx (λ _. item)) [ none ↦ panic | some r' ↦ returns tt r' ]

abbrev same_option : Option ℕ → Option ℕ → Bool
same_option none none = true
same_option (some a) (some b) = a == b
same_option _ _ = false

abbrev same_slots : List (Option ℕ) → List (Option ℕ) → Bool
same_slots [] [] = true
same_slots (a ∷ as') (b ∷ bs) = same_option a b && same_slots as' bs
same_slots _ _ = false

abbrev same_free : List ℕ → List ℕ → Bool
same_free [] [] = true
same_free (a ∷ as') (b ∷ bs) = (a == b) && same_free as' bs
same_free _ _ = false

-- An assertion on the recycler as it is.
abbrev holds : (Recycler ℕ → Bool) → M (Recycler ℕ) (Unit {0})
holds test r = assert (test r) r

abbrev lies : ℕ → ℕ → M (Recycler ℕ) (Unit {0})
lies idx item = holds λ r. same_option (index r idx) (some item)

-- The checks on the internals.
abbrev internals : List (Option ℕ) → List ℕ → M (Recycler ℕ) (Unit {0})
internals slots free = holds λ r. same_slots r.slots slots && same_free r.free free

storage_test : M (Recycler ℕ) (Unit {0})
storage_test = do
  internals [] []
  holds (λ r. len r == 0)
  holds (λ r. is_empty r)
  stores 0 1
  stores 1 2
  internals (some 1 ∷ some 2 ∷ []) []
  holds (λ r. len r == 2)
  holds (λ r. not (is_empty r))
  lies 0 1
  lies 1 2
  writes 0 3
  lies 0 3
  holds (λ r. len r == 2)
  holds (λ r. leb (len r) (capacity r))
  (λ r.
      let cap = capacity r in
      (do
        stores 2 4
        item ← releases 1
        assert (item == 2)
        holds (λ r. len r == 2)
        holds (λ r. capacity r == cap)
        lies 0 3
        internals (some 3 ∷ none ∷ some 4 ∷ []) (1 ∷ [])
        stores 1 5
        internals (some 3 ∷ some 5 ∷ some 4 ∷ []) []
        holds (λ r. len r == 3)
        holds (λ r. capacity r == cap))
        r)

released_once : ℕ → M (Recycler ℕ) (Unit {0})
released_once item = do stores 0 item; releases 0; internals (none ∷ []) (0 ∷ [])

index_invalid_test : M (Recycler ℕ) (Unit {0})
unfolding released_once
index_invalid_test = do released_once 0; writes 0 3

return_twice_test : M (Recycler ℕ) ℕ
unfolding released_once
return_twice_test = do released_once 1; releases 0

oob_test : M (Recycler ℕ) (Unit {0})
oob_test = writes 1 2

oob_return_test : M (Recycler ℕ) ℕ
oob_return_test = releases 1

abbrev passes : Outcome (Recycler ℕ) (Unit {0}) → Bool
passes (returns a r) = true
passes (fails e r) = false
passes panic = false
passes out_of_fuel = false

storage_test_lem : passes (storage_test new) ≡ true
unfolding storage_test new store release len is_empty index index_mut ◌>>=◌
storage_test_lem = refl

-- The panic is that of the last access.
index_invalid_test_lem : (passes (released_once 0 new) ≡ true) × (index_invalid_test new ≡ panic)
unfolding released_once index_invalid_test new store release index_mut ◌>>=◌
index_invalid_test_lem = (refl, refl)

return_twice_test_lem : (passes (released_once 1 new) ≡ true) × (return_twice_test new ≡ panic)
unfolding released_once return_twice_test new store release ◌>>=◌
return_twice_test_lem = (refl, refl)

oob_test_lem : oob_test new ≡ panic
unfolding oob_test new index_mut
oob_test_lem = refl

oob_return_test_lem : oob_return_test new ≡ panic
unfolding oob_return_test new release
oob_return_test_lem = refl
