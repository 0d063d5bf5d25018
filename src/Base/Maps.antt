-- ===== src/Base/Maps.antt =====
-- std's HashMap and HashSet over any key with an equality test, as association lists. A set is a list
-- that holds each key at most once. Iteration visits the entries in the order of the list.
use mathlib.Core.Path.{◌≡◌}
use mathlib.Core.Bool.{Bool, false, ◌||◌, ◌&&◌, not}
use mathlib.Core.List.{List, [], ◌∷◌}
use mathlib.Core.Option.{Option, none, some}
use native.Mathlib.Omega.{arith}
use eveboros.Base.Tests.{Eq, if◌then◌else◌, is_some}

module _ {ℓ κ} {K : Type ℓ} {V : Type κ} ⦃e : Eq K⦄ where
  unfoldable pub lookup : K → List (K × V) → Option V
  lookup k [] = none
  lookup k ((j, v) ∷ m) = if e.beq k j then some v else lookup k m

  unfoldable pub without : K → List (K × V) → List (K × V)
  without k [] = []
  without k ((j, v) ∷ m) = let rest = without k m in if e.beq k j then rest else (j, v) ∷ rest

  unfoldable pub put : K → V → List (K × V) → List (K × V)
  put k v m = (k, v) ∷ without k m

  unfoldable pub contains_key : K → List (K × V) → Bool
  unfolding lookup
  contains_key k m = is_some (lookup k m)

  pub lookup-without :
      (k j : K) (m : List (K × V))
      → lookup j (without k m) ≡ (if e.beq j k then none else lookup j m)
  unfolding lookup without
  lookup-without k j [] = ground arith
  lookup-without k j ((i, v) ∷ m) =
      ground (arith, lookup-without k j m, e.beq_iff k i, e.beq_iff j i, e.beq_iff j k)

  pub lookup-put :
      (k j : K) (v : V) (m : List (K × V))
      → lookup j (put k v m) ≡ (if e.beq j k then some v else lookup j m)
  unfolding lookup put
  lookup-put k j v m = ground (arith, lookup-without k j m)

module _ {ℓ} {K : Type ℓ} ⦃e : Eq K⦄ where
  unfoldable pub member : K → List K → Bool
  member k [] = false
  member k (j ∷ s) = e.beq k j || member k s

  unfoldable pub add : K → List K → List K
  unfolding member
  add k s = if member k s then s else k ∷ s

  unfoldable pub remove : K → List K → List K
  remove k [] = []
  remove k (j ∷ s) = let rest = remove k s in if e.beq k j then rest else j ∷ rest

  pub member-add : (k j : K) (s : List K) → member j (add k s) ≡ (e.beq j k || member j s)
  unfolding add
  member-add k j s = ground (arith, e.beq_iff j k)

  pub member-remove :
      (k j : K) (s : List K) → member j (remove k s) ≡ (not (e.beq j k) && member j s)
  unfolding member remove
  member-remove k j [] = ground arith
  member-remove k j (i ∷ s) =
      ground (arith, member-remove k j s, e.beq_iff k i, e.beq_iff j i, e.beq_iff j k)
