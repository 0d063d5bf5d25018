-- ===== src/Outcome/Ensures.antt =====
-- Postconditions of code that may fail: what holds of the value and of the state that it returns with.
use eveboros.Base.{◌≡◌, refl, Option, none, some, Bool, true, false, if◌then◌else◌}
use eveboros.Outcome.{
  Outcome, returns, fails, panic, out_of_fuel, M, unwrap, continue, modify, ◌>>=◌, ◌>>◌,
}

abbrev pub Ensures : {S A : Type 0} → (A → S → Type 0) → Outcome S A → Type 0
Ensures Q (returns a s) = Q a s
Ensures Q (fails e s) = Unit {0}
Ensures Q panic = Unit {0}
Ensures Q out_of_fuel = Unit {0}

-- The postcondition that asks nothing.
pub Ensures-anything : {S A : Type 0} (o : Outcome S A) → Ensures (λ _ _. Unit {0}) o
Ensures-anything (returns a s) = tt
Ensures-anything (fails e s) = tt
Ensures-anything panic = tt
Ensures-anything out_of_fuel = tt

module _ {S A B : Type 0} (R : A → S → Type 0) (Q : B → S → Type 0) where
  bind_of :
      (o : Outcome S A) (f : A → M S B)
      → Ensures R o
      → ((a : A) (s : S) → R a s → Ensures Q (f a s))
      → Ensures Q (continue o f)
  bind_of (returns a s) f h k = k a s h
  bind_of (fails e s) f h k = tt
  bind_of panic f h k = tt
  bind_of out_of_fuel f h k = tt

  pub bind-Ensures :
      (m : M S A) (f : A → M S B) (s : S)
      → Ensures R (m s)
      → ((a : A) (s' : S) → R a s' → Ensures Q (f a s'))
      → Ensures Q ((m >>= f) s)
  unfolding ◌>>=◌
  bind-Ensures m f s h k = bind_of (m s) f h k

module _ {S A B : Type 0} (Q : B → S → Type 0) where
  pub unwrap-bind-Ensures :
      (o : Option A) (f : A → M S B) (s : S)
      → ((a : A) → o ≡ some a → Ensures Q (f a s))
      → Ensures Q ((unwrap o >>= f) s)
  unfolding ◌>>=◌
  unwrap-bind-Ensures none f s k = tt
  unwrap-bind-Ensures (some a) f s k = k a refl

pub Ensures-map :
    {S A : Type 0} (Q R : A → S → Type 0) (o : Outcome S A)
    → ((a : A) (s : S) → Q a s → R a s)
    → Ensures Q o
    → Ensures R o
Ensures-map Q R (returns a s) k h = k a s h
Ensures-map Q R (fails e s) k h = tt
Ensures-map Q R panic k h = tt
Ensures-map Q R out_of_fuel k h = tt

pub unwrap-Ensures :
    {S A : Type 0} (Q : A → S → Type 0) (o : Option A) (s : S)
    → ((a : A) → o ≡ some a → Q a s)
    → Ensures Q (unwrap o s)
unwrap-Ensures Q none s k = tt
unwrap-Ensures Q (some a) s k = k a refl

pub if-Ensures :
    {S A : Type 0} (Q : A → S → Type 0) (b : Bool) (m n : Outcome S A)
    → (b ≡ true → Ensures Q m)
    → (b ≡ false → Ensures Q n)
    → Ensures Q (if b then m else n)
if-Ensures Q true m n hm hn = hm refl
if-Ensures Q false m n hm hn = hn refl

pub modify-bind-Ensures :
    {S B : Type 0} (Q : B → S → Type 0) (f : S → S) (m : M S B) (s : S)
    → Ensures Q (m (f s))
    → Ensures Q ((modify f >> m) s)
unfolding ◌>>=◌
modify-bind-Ensures Q f m s h = h
