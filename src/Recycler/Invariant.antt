-- ===== src/Recycler/Invariant.antt =====
-- The representation invariant of the recycler, and its contract as a partial map.
use eveboros.Base.{
  ℕ, zero, suc, ◌-◌, ◌≡◌, refl, ◌↔◌, true, false, Option, none, some, List, [], ◌∷◌, ◌++◌, arith,
  length, get_elem?, set, count, ◌==◌, if◌then◌else◌, is_some, length-append, length-set,
  lt_of_get_elem?, get_elem?-set, set-set, get_elem?-push, get_elem?-above,
}
use eveboros.Recycler.{
  Block, Recycler, held, view, new, store_by, store, release, valid, len, is_empty, index,
  index_mut, push,
}
use eveboros.Recycler.Slots.{
  vacant, vacancies, occupied, vacancies-occupied, vacancies-push, vacancies-fill, vacancies-vacate,
  vacancies-update, occupied-pos,
}

-- The free stack names every unused slot exactly once, and nothing else.
pub record IsValid {ℓ} {T : Type ℓ} (r : Recycler T) : Type ℓ where
  pub free_once : (i : ℕ) → count i r.free ≡ vacant (get_elem? r.slots i)
  pub free_size : length r.free ≡ vacancies r.slots

-- The contract of `store`: a fresh index, and a map that differs there only.
pub record Stored {ℓ} {T : Type ℓ} (r : Recycler T) (x : T) (idx : ℕ) (r' : Recycler T)
    : Type ℓ where
  pub is_fresh : view r idx ≡ none
  pub stored : (j : ℕ) → view r' j ≡ (if j == idx then some x else view r j)
  pub counted : len r' ≡ suc (len r)
  pub still_valid : IsValid r'

module _ {ℓ} {T : Type ℓ} where
  vacant-pos : (o : Option (Option T)) {n : ℕ} → suc n ≡ vacant o → o ≡ some none
  vacant-pos o h = ground arith

  free_top :
      (idx : ℕ) (rest : List ℕ) (r : Recycler T)
      → r.free ≡ idx ∷ rest
      → IsValid r
      → get_elem? r.slots idx ≡ some none
  free_top idx rest r e v =
      vacant-pos (get_elem? r.slots idx) {n = count idx rest} (ground (arith, v.free_once idx))

  fill-Stored :
      (idx : ℕ) (rest : List ℕ) (r : Recycler T) (x : T)
      → r.free ≡ idx ∷ rest
      → IsValid r
      → get_elem? r.slots idx ≡ some none
      → Stored r x idx (record r { slots = set r.slots idx (some x); free = rest })
  unfolding len
  fill-Stored idx rest r x e v top = record {
    is_fresh = ground arith;
    stored =
        λ j. ground (arith, lt_of_get_elem? r.slots idx top, get_elem?-set r.slots idx j (some x));
    counted =
        ground (arith, v.free_size, vacancies-occupied r.slots, length-set r.slots idx (some x));
    still_valid = record {
      free_once = λ j. ground (
        arith,
        v.free_once j,
        lt_of_get_elem? r.slots idx top,
        get_elem?-set r.slots idx j (some x),
      );
      free_size = ground (arith, v.free_size, vacancies-fill r.slots idx x top);
    };
  }

  push-Stored :
      (r : Recycler T) (x : T) (b : Block)
      → r.free ≡ []
      → IsValid r
      → Stored r x
          (length (r.slots ++ some x ∷ []) - 1)
          (record r { slots = r.slots ++ some x ∷ []; block = b })
  unfolding len
  push-Stored r x b e v = record {
    is_fresh = ground (
      arith,
      length-append r.slots (some x ∷ []),
      get_elem?-above r.slots (length (r.slots ++ some x ∷ []) - 1),
    );
    stored =
        λ j. ground (arith, length-append r.slots (some x ∷ []), get_elem?-push r.slots j (some x));
    counted = ground (arith, length-append r.slots (some x ∷ []));
    still_valid = record {
      free_once = λ j. ground (
        arith,
        v.free_once j,
        get_elem?-push r.slots j (some x),
        get_elem?-above r.slots (length r.slots),
      );
      free_size = ground (arith, v.free_size, vacancies-push r.slots x);
    };
  }

  store_by-Stored :
      (free : List ℕ) (fresh : Block) (r : Recycler T) (x : T)
      → r.free ≡ free
      → IsValid r
      → (idx : ℕ) × (r' : Recycler T) × (store_by free fresh r x ≡ some (idx, r'))
        × Stored r x idx r'
  unfolding store_by
  store_by-Stored [] fresh r x e v = (_, _, refl, push-Stored r x _ e v)
  store_by-Stored (idx ∷ rest) fresh r x e v =
      let top = free_top idx rest r e v in (idx, _, ground arith, fill-Stored idx rest r x e v top)

  -- On a valid recycler `store` never panics: it returns an index that held nothing, afterwards that
  -- index holds the item and every other index holds what it held, one more item is counted, and the
  -- free stack is still exact.
  pub store-Stored :
      (fresh : Block) (r : Recycler T) (x : T)
      → IsValid r
      → (idx : ℕ) × (r' : Recycler T) × (store fresh r x ≡ some (idx, r')) × Stored r x idx r'
  unfolding store
  store-Stored fresh r x v = store_by-Stored r.free fresh r x refl v

  release_found :
      (r : Recycler T) (idx : ℕ) {x : T}
      → view r idx ≡ some x
      → release r idx ≡ some (x, record r { slots = set r.slots idx none; free = idx ∷ r.free })
  unfolding release
  release_found r idx h = ground arith

  release_missing : (r : Recycler T) (idx : ℕ) → view r idx ≡ none → release r idx ≡ none
  unfolding release
  release_missing r idx h = ground arith

  slot_of_view :
      (r : Recycler T) (idx : ℕ) {x : T}
      → view r idx ≡ some x
      → get_elem? r.slots idx ≡ some (some x)
  slot_of_view r idx h = ground arith

-- The contract of `release`: the item comes back, and the map loses that index only.
pub record Released {ℓ} {T : Type ℓ} (r : Recycler T) (idx : ℕ) (r' : Recycler T) : Type ℓ where
  pub gone : (j : ℕ) → view r' j ≡ (if j == idx then none else view r j)
  pub counted : suc (len r') ≡ len r
  pub still_valid : IsValid r'

module _ {ℓ} {T : Type ℓ} where
  vacate-Released :
      (r : Recycler T) (idx : ℕ) {x : T}
      → IsValid r
      → get_elem? r.slots idx ≡ some (some x)
      → Released r idx (record r { slots = set r.slots idx none; free = idx ∷ r.free })
  unfolding len
  vacate-Released r idx v h = record {
    gone = λ j. ground (arith, lt_of_get_elem? r.slots idx h, get_elem?-set r.slots idx j none);
    counted = ground (
      arith,
      v.free_size,
      vacancies-occupied r.slots,
      length-set r.slots idx none,
      occupied-pos r.slots idx h,
    );
    still_valid = record {
      free_once = λ j.
          ground
            (arith, v.free_once j, lt_of_get_elem? r.slots idx h, get_elem?-set r.slots idx j none);
      free_size = ground (arith, v.free_size, vacancies-vacate r.slots idx h);
    };
  }

  -- Releasing an index that holds an item returns that item and never panics; afterwards that index
  -- holds nothing, every other index holds what it held, one item less is counted, and the free
  -- stack is still exact.
  pub release-Released :
      (r : Recycler T) (idx : ℕ) {x : T}
      → IsValid r
      → view r idx ≡ some x
      → (r' : Recycler T) × (release r idx ≡ some (x, r')) × Released r idx r'
  release-Released r idx v h =
      (_, release_found r idx h, vacate-Released r idx v (slot_of_view r idx h))

  -- Every access to an index that holds nothing panics: `release`, a read and a write.
  pub access_missing :
      (r : Recycler T) (idx : ℕ) (f : T → T)
      → view r idx ≡ none
      → (release r idx ≡ none)
        × (index r idx ≡ none)
        × (index_mut r idx f ≡ none)
        × (valid r idx ≡ false)
  unfolding release index index_mut valid
  access_missing r idx f h = (ground arith, ground arith, ground arith, ground arith)

  -- `valid` and reading agree with the map.
  pub valid-view : (r : Recycler T) (idx : ℕ) → valid r idx ≡ is_some (view r idx)
  unfolding valid
  valid-view r idx = ground (arith, get_elem?-above r.slots idx)

  pub index-view : (r : Recycler T) (idx : ℕ) → index r idx ≡ view r idx
  unfolding index
  index-view r idx = ground arith

-- The contract of a write through `&mut r[idx]`.
pub record Updated {ℓ} {T : Type ℓ} (r : Recycler T) (idx : ℕ) (y : T) (r' : Recycler T)
    : Type ℓ where
  pub updated : (j : ℕ) → view r' j ≡ (if j == idx then some y else view r j)
  pub counted : len r' ≡ len r
  pub same_block : r'.block ≡ r.block
  pub still_valid : IsValid r'

module _ {ℓ} {T : Type ℓ} where
  write-Updated :
      (r : Recycler T) (idx : ℕ) (y : T) {x : T}
      → IsValid r
      → get_elem? r.slots idx ≡ some (some x)
      → Updated r idx y (record r { slots = set r.slots idx (some y) })
  unfolding len
  write-Updated r idx y v h = record {
    updated =
        λ j. ground (arith, lt_of_get_elem? r.slots idx h, get_elem?-set r.slots idx j (some y));
    counted = ground (arith, length-set r.slots idx (some y));
    same_block = refl;
    still_valid = record {
      free_once = λ j. ground (
        arith,
        v.free_once j,
        lt_of_get_elem? r.slots idx h,
        get_elem?-set r.slots idx j (some y),
      );
      free_size = ground (arith, v.free_size, vacancies-update r.slots idx y h);
    };
  }

  -- A write at an index in use succeeds and changes what the index holds, and nothing else: the size, the
  -- other indices and the memory block stay, and the recycler stays consistent.
  pub index_mut-Updated :
      (r : Recycler T) (idx : ℕ) (f : T → T) {x : T}
      → IsValid r
      → view r idx ≡ some x
      → (r' : Recycler T) × (index_mut r idx f ≡ some r') × Updated r idx (f x) r'
  unfolding index_mut
  index_mut-Updated r idx f {x} v h = (
    record r { slots = set r.slots idx (some (f x)) },
    ground arith,
    write-Updated r idx (f x) v (slot_of_view r idx h),
  )

  pub index_mut_shape :
      (r : Recycler T) (idx : ℕ) (f : T → T) {x : T}
      → view r idx ≡ some x
      → index_mut r idx f ≡ some (record r { slots = set r.slots idx (some (f x)) })
  unfolding index_mut
  index_mut_shape r idx f h = ground arith

  -- Storing into a full vector without released slots moves it.
  pub store_full :
      (fresh : Block) (r r' : Recycler T) (x : T) (idx : ℕ)
      → r.free ≡ []
      → length r.slots ≡ r.block.capacity
      → store fresh r x ≡ some (idx, r')
      → r'.block ≡ fresh
  unfolding store store_by push
  store_full fresh r r' x idx none_free full e = ground (arith, none_free, full, e)

  pub new-IsValid : IsValid (new {T = T})
  unfolding new
  new-IsValid = record { free_once = λ i. refl; free_size = refl }

  -- `len` counts the occupied slots, so `is_empty` says that no index holds anything.
  pub len-occupied : (r : Recycler T) → IsValid r → len r ≡ occupied r.slots
  unfolding len
  len-occupied r v = omega (arith, v.free_size, vacancies-occupied r.slots)

  occupied-zero : (os : List (Option T)) (j : ℕ) → occupied os ≡ 0 → held (get_elem? os j) ≡ none
  occupied-zero [] j h = refl
  occupied-zero (some x ∷ os) j h = absurd (omega arith)
  occupied-zero (none ∷ os) zero h = refl
  occupied-zero (none ∷ os) (suc j) h = occupied-zero os j h

  zero-occupied :
      (os : List (Option T)) → ((j : ℕ) → held (get_elem? os j) ≡ none) → occupied os ≡ 0
  zero-occupied [] h = refl
  zero-occupied (none ∷ os) h = zero-occupied os (λ j. h (suc j))
  zero-occupied (some x ∷ os) h = ground (arith, h 0)

  -- A valid recycler is empty exactly when no index holds an item.
  is_empty-view : (r : Recycler T) → IsValid r → (is_empty r ≡ true) ↔ ((j : ℕ) → view r j ≡ none)
  unfolding is_empty
  is_empty-view r v = (
    λ e j. occupied-zero r.slots j (ground (arith, len-occupied r v)),
    λ h. ground (arith, len-occupied r v, zero-occupied r.slots h),
  )

  -- Storing right after a release takes the released index again: the vector of slots neither grows
  -- nor moves, and the free stack is back as it was.
  store-release :
      (fresh : Block) (r r' : Recycler T) (idx : ℕ) (x y : T)
      → release r idx ≡ some (x, r')
      → store fresh r' y ≡ some (idx, record r { slots = set r.slots idx (some y) })
  unfolding release store
  store-release fresh r r' idx x y h = ground (
    arith,
    lt_of_get_elem? r.slots idx {v = some x},
    get_elem?-set r.slots idx idx none,
    set-set r.slots idx none (some y),
  )
