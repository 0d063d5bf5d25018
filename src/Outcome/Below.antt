-- ===== src/Outcome/Below.antt =====
-- Runs with more fuel: an outcome is below another if it is the same, or ran out of fuel.
use eveboros.Base.{◌≡◌, ◌≢◌, refl, sym, ap, subst, Bool, true, false, if◌then◌else◌}
use eveboros.Outcome.{
  Outcome, returns, fails, panic, out_of_fuel, M, continue, as_result, attempt, ◌>>=◌,
}

module _ {S A : Type 0} where
  abbrev pub IsBelow : Outcome S A → Outcome S A → Type 0
  IsBelow out_of_fuel o' = Unit {0}
  IsBelow (returns a s) o' = o' ≡ returns a s
  IsBelow (fails e s) o' = o' ≡ fails e s
  IsBelow panic o' = o' ≡ panic

  pub IsBelow-refl : (o : Outcome S A) → IsBelow o o
  IsBelow-refl out_of_fuel = tt
  IsBelow-refl (returns a s) = refl
  IsBelow-refl (fails e s) = refl
  IsBelow-refl panic = refl

  pub IsBelow-trans : (o p q : Outcome S A) → IsBelow o p → IsBelow p q → IsBelow o q
  IsBelow-trans out_of_fuel p q h k = tt
  IsBelow-trans (returns a s) p q h k = subst (λ x. IsBelow x q) h k
  IsBelow-trans (fails e s) p q h k = subst (λ x. IsBelow x q) h k
  IsBelow-trans panic p q h k = subst (λ x. IsBelow x q) h k

  -- An outcome that did not run out of fuel is the other one.
  pub IsBelow-eq : (o o' : Outcome S A) → IsBelow o o' → o ≢ out_of_fuel → o' ≡ o
  IsBelow-eq out_of_fuel o' h ne = absurd (ne refl)
  IsBelow-eq (returns a s) o' h ne = h
  IsBelow-eq (fails e s) o' h ne = h
  IsBelow-eq panic o' h ne = h

module _ {S A : Type 0} where
  pub as_result-IsBelow : (o o' : Outcome S A) → IsBelow o o' → IsBelow (as_result o) (as_result o')
  as_result-IsBelow out_of_fuel o' h = tt
  as_result-IsBelow (returns a s) o' h = ap as_result h
  as_result-IsBelow (fails e s) o' h = ap as_result h
  as_result-IsBelow panic o' h = ap as_result h

  pub attempt-IsBelow :
      (m m' : M S A) (s : S) → IsBelow (m s) (m' s) → IsBelow (attempt m s) (attempt m' s)
  unfolding attempt
  attempt-IsBelow m m' s h = as_result-IsBelow (m s) (m' s) h

  pub if-IsBelow :
      (b : Bool) (o o' p p' : Outcome S A)
      → IsBelow o o'
      → IsBelow p p'
      → IsBelow (if b then o else p) (if b then o' else p')
  if-IsBelow true o o' p p' h k = h
  if-IsBelow false o o' p p' h k = k

module _ {S A B : Type 0} where
  continue-IsBelow :
      (o o' : Outcome S A) (f f' : A → M S B)
      → IsBelow o o'
      → ((a : A) (s : S) → IsBelow (f a s) (f' a s))
      → IsBelow (continue o f) (continue o' f')
  continue-IsBelow out_of_fuel o' f f' h k = tt
  continue-IsBelow (returns a s) o' f f' h k =
      subst (λ x. IsBelow (f a s) (continue x f')) (sym h) (k a s)
  continue-IsBelow (fails e s) o' f f' h k = ap (λ x. continue x f') h
  continue-IsBelow panic o' f f' h k = ap (λ x. continue x f') h

  pub bind-IsBelow :
      (m m' : M S A) (f f' : A → M S B) (s : S)
      → IsBelow (m s) (m' s)
      → ((a : A) (s' : S) → IsBelow (f a s') (f' a s'))
      → IsBelow ((m >>= f) s) ((m' >>= f') s)
  unfolding ◌>>=◌
  bind-IsBelow m m' f f' s h k = continue-IsBelow (m s) (m' s) f f' h k
