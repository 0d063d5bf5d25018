-- ===== src/Outcome/Safe.antt =====
-- Invariants of code that may fail, one rule for each way to build it.
use eveboros.Base.{◌≡◌, refl, Option, none, some, Bool, true, false, if◌then◌else◌}
use eveboros.Outcome.{
  Outcome, returns, fails, panic, out_of_fuel, M, unwrap, panic_on_error, or_panic, as_result,
  attempt, continue, assert, modify, ◌>>=◌, ◌>>◌,
}

-- A condition on the state that an outcome ends in, returning or failing. A panic ends in no state.
abbrev pub Safe : {S A : Type 0} → (S → Type 0) → Outcome S A → Type 0
Safe I (returns a s) = I s
Safe I (fails e s) = I s
Safe I panic = Unit {0}
Safe I out_of_fuel = Unit {0}

module _ {S A : Type 0} (I : S → Type 0) where
  attempt_of : (o : Outcome S A) → Safe I o → Safe I (as_result o)
  attempt_of (returns a s) h = h
  attempt_of (fails e s) h = h
  attempt_of panic h = tt
  attempt_of out_of_fuel h = tt

  pub attempt-Safe : (m : M S A) (s : S) → Safe I (m s) → Safe I (attempt m s)
  unfolding attempt
  attempt-Safe m s h = attempt_of (m s) h

  or_panic_of : (o : Outcome S A) → Safe I o → Safe I (panic_on_error o)
  or_panic_of (returns a s) h = h
  or_panic_of (fails e s) h = tt
  or_panic_of panic h = tt
  or_panic_of out_of_fuel h = tt

  pub or_panic-Safe : (m : M S A) (s : S) → Safe I (m s) → Safe I (or_panic m s)
  unfolding or_panic
  or_panic-Safe m s h = or_panic_of (m s) h

  pub unwrap-Safe : (o : Option A) (s : S) → I s → Safe I (unwrap o s)
  unwrap-Safe none s h = tt
  unwrap-Safe (some a) s h = h

  pub if-Safe :
      (b : Bool) (m n : Outcome S A)
      → (b ≡ true → Safe I m)
      → (b ≡ false → Safe I n)
      → Safe I (if b then m else n)
  if-Safe true m n hm hn = hm refl
  if-Safe false m n hm hn = hn refl

module _ {S A B : Type 0} (I : S → Type 0) where
  bind_of :
      (o : Outcome S A) (f : A → M S B)
      → Safe I o
      → ((a : A) (s : S) → I s → Safe I (f a s))
      → Safe I (continue o f)
  bind_of (returns a s) f h k = k a s h
  bind_of (fails e s) f h k = h
  bind_of panic f h k = tt
  bind_of out_of_fuel f h k = tt

  pub bind-Safe :
      (m : M S A) (f : A → M S B) (s : S)
      → Safe I (m s)
      → ((a : A) (s' : S) → I s' → Safe I (f a s'))
      → Safe I ((m >>= f) s)
  unfolding ◌>>=◌
  bind-Safe m f s h k = bind_of (m s) f h k

  -- What follows an `unwrap` may use that there was something.
  pub unwrap-bind-Safe :
      (o : Option A) (f : A → M S B) (s : S)
      → ((a : A) → o ≡ some a → Safe I (f a s))
      → Safe I ((unwrap o >>= f) s)
  unfolding ◌>>=◌
  unwrap-bind-Safe none f s k = tt
  unwrap-bind-Safe (some a) f s k = k a refl

-- What follows an assertion may use it.
assert_of :
    {S B : Type 0} (I : S → Type 0) (b : Bool) (f : Unit {0} → M S B) (s : S)
    → (b ≡ true → Safe I (f tt s))
    → Safe I (continue (assert b s) f)
assert_of I true f s k = k refl
assert_of I false f s k = tt

pub assert-bind-Safe :
    {S B : Type 0} (I : S → Type 0) (b : S → Bool) (f : Unit {0} → M S B) (s : S)
    → (b s ≡ true → Safe I (f tt s))
    → Safe I (((λ s'. assert (b s') s') >>= f) s)
unfolding ◌>>=◌
assert-bind-Safe I b f s k = assert_of I (b s) f s k

-- What follows a plain change of the state.
pub modify-bind-Safe :
    {S B : Type 0} (I : S → Type 0) (f : S → S) (m : M S B) (s : S)
    → Safe I (m (f s))
    → Safe I ((modify f >> m) s)
unfolding ◌>>=◌
modify-bind-Safe I f m s h = h

-- A condition on the state that code returns with which never fails: it returns, or panics.
abbrev pub Returns : {S A : Type 0} → (S → Type 0) → Outcome S A → Type 0
Returns K (returns a s) = K s
Returns K (fails e s) = ⊥
Returns K panic = Unit {0}
Returns K out_of_fuel = Unit {0}

module _ {S A B : Type 0} (K : S → Type 0) where
  continue-Safe :
      (I : S → Type 0) (o : Outcome S A) (f : A → M S B)
      → Returns K o
      → ((a : A) (s : S) → K s → Safe I (f a s))
      → Safe I (continue o f)
  continue-Safe I (returns a s) f h k = k a s h
  continue-Safe I (fails e s) f h k = absurd h
  continue-Safe I panic f h k = tt
  continue-Safe I out_of_fuel f h k = tt

  -- What follows code that never fails may rest on another condition than what is shown.
  pub Returns-bind-Safe :
      (I : S → Type 0) (m : M S A) (f : A → M S B) (s : S)
      → Returns K (m s)
      → ((a : A) (s' : S) → K s' → Safe I (f a s'))
      → Safe I ((m >>= f) s)
  unfolding ◌>>=◌
  Returns-bind-Safe I m f s h k = continue-Safe I (m s) f h k

  continue-Returns :
      (o : Outcome S A) (f : A → M S B)
      → Returns K o
      → ((a : A) (s : S) → K s → Returns K (f a s))
      → Returns K (continue o f)
  continue-Returns (returns a s) f h k = k a s h
  continue-Returns (fails e s) f h k = absurd h
  continue-Returns panic f h k = tt
  continue-Returns out_of_fuel f h k = tt

  pub bind-Returns :
      (m : M S A) (f : A → M S B) (s : S)
      → Returns K (m s)
      → ((a : A) (s' : S) → K s' → Returns K (f a s'))
      → Returns K ((m >>= f) s)
  unfolding ◌>>=◌
  bind-Returns m f s h k = continue-Returns (m s) f h k
