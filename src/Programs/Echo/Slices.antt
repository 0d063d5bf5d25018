-- ===== src/Programs/Echo/Slices.antt =====
-- Slices of a buffer.
use eveboros.Base.{
  ℕ, zero, suc, ◌+◌, ◌-◌, ◌≤◌, ◌≡◌, refl, sym, ap, ◌∙◌, List, [], ◌∷◌, ◌++◌, length, take, drop,
  arith,
}

-- The first bytes of a buffer after new ones were written over its beginning.
pub take-length : (data' rest : List ℕ) → take (length data') (data' ++ rest) ≡ data'
take-length [] rest = refl
take-length (b ∷ bs) rest = ap (λ xs. b ∷ xs) (take-length bs rest)

take_nil : (n : ℕ) → take {A = ℕ} n [] ≡ []
take_nil zero = refl
take_nil (suc n) = refl

drop_nil : (n : ℕ) → drop {A = ℕ} n [] ≡ []
drop_nil zero = refl
drop_nil (suc n) = refl

-- A slice is its first `n` bytes and what is left after them.
pub take-drop :
    (n k : ℕ) (xs : List ℕ) → n ≤ k → take n (take k xs) ++ take (k - n) (drop n xs) ≡ take k xs
take-drop zero k xs h = ap (λ m. take m xs) (omega arith)
take-drop (suc n) zero xs h = absurd (omega (arith, h))
take-drop (suc n) (suc k) [] h = take_nil (suc k - suc n)
take-drop (suc n) (suc k) (x ∷ xs) h =
    ap (λ ys. x ∷ ys)
      (ap (λ m. take n (take k xs) ++ take m (drop n xs)) (omega arith)
        ∙ take-drop n k xs (omega (arith, h)))

pub drop-drop : (n m : ℕ) (xs : List ℕ) → drop n (drop m xs) ≡ drop (m + n) xs
drop-drop n zero xs = ap (λ j. drop j xs) (omega arith)
drop-drop n (suc m) [] = drop_nil n ∙ sym (drop_nil (suc m + n))
drop-drop n (suc m) (x ∷ xs) =
    let shifted : suc (m + n) ≡ suc m + n = omega arith in
    drop-drop n m xs ∙ ap (λ j. drop j (x ∷ xs)) shifted

pub length-drop : (n : ℕ) (xs : List ℕ) → length (drop n xs) ≡ length xs - n
length-drop zero xs = omega arith
length-drop (suc n) [] = omega arith
length-drop (suc n) (x ∷ xs) = omega (arith, length-drop n xs)

pub length-take : (n : ℕ) (xs : List ℕ) → length (take n xs) ≤ n
length-take zero xs = omega arith
length-take (suc n) [] = omega arith
length-take (suc n) (x ∷ xs) = omega (arith, length-take n xs)
