-- ===== src/Recycler/Slots.antt =====
-- Vacant and occupied slots, counted.
use eveboros.Base.{
  ℕ, zero, suc, ◌+◌, ◌≡◌, refl, Option, none, some, List, [], ◌∷◌, ◌++◌, arith, length, get_elem?,
  set,
}

module _ {ℓ} {T : Type ℓ} where
  -- 1 for a slot that is there and unused.
  abbrev pub vacant : Option (Option T) → ℕ
  vacant none = 0
  vacant (some none) = 1
  vacant (some (some _)) = 0

  abbrev pub vacancies : List (Option T) → ℕ
  vacancies [] = 0
  vacancies (o ∷ os) = vacant (some o) + vacancies os

  abbrev pub occupied : List (Option T) → ℕ
  occupied [] = 0
  occupied (none ∷ os) = occupied os
  occupied (some _ ∷ os) = suc (occupied os)

  pub vacancies-occupied : (os : List (Option T)) → vacancies os + occupied os ≡ length os
  vacancies-occupied [] = omega arith
  vacancies-occupied (none ∷ os) = omega (arith, vacancies-occupied os)
  vacancies-occupied (some _ ∷ os) = omega (arith, vacancies-occupied os)

  pub vacancies-push : (os : List (Option T)) (x : T) → vacancies (os ++ some x ∷ []) ≡ vacancies os
  vacancies-push [] x = omega arith
  vacancies-push (o ∷ os) x = omega (arith, vacancies-push os x)

  pub vacancies-fill :
      (os : List (Option T)) (i : ℕ) (x : T)
      → get_elem? os i ≡ some none
      → suc (vacancies (set os i (some x))) ≡ vacancies os
  vacancies-fill [] i x h = ground arith
  vacancies-fill (o ∷ os) zero x h = ground arith
  vacancies-fill (o ∷ os) (suc i) x h = omega (arith, vacancies-fill os i x h)

  pub vacancies-vacate :
      (os : List (Option T)) (i : ℕ) {x : T}
      → get_elem? os i ≡ some (some x)
      → vacancies (set os i none) ≡ suc (vacancies os)
  vacancies-vacate [] i h = ground arith
  vacancies-vacate (o ∷ os) zero h = ground arith
  vacancies-vacate (o ∷ os) (suc i) h = omega (arith, vacancies-vacate os i h)

  pub vacancies-update :
      (os : List (Option T)) (i : ℕ) (y : T) {x : T}
      → get_elem? os i ≡ some (some x)
      → vacancies (set os i (some y)) ≡ vacancies os
  vacancies-update [] i y h = ground arith
  vacancies-update (o ∷ os) zero y h = ground arith
  vacancies-update (o ∷ os) (suc i) y h = omega (arith, vacancies-update os i y h)

  -- An occupied slot shows in the count.
  pub occupied-pos :
      (os : List (Option T)) (i : ℕ) {x : T}
      → get_elem? os i ≡ some (some x)
      → (n : ℕ) × (occupied os ≡ suc n)
  occupied-pos [] i h = ground arith
  occupied-pos (some y ∷ os) i h = (occupied os, refl)
  occupied-pos (none ∷ os) zero h = ground arith
  occupied-pos (none ∷ os) (suc i) h = occupied-pos os i h
