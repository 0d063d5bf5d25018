-- ===== src/Outcome.antt =====
-- Code that changes a state and may fail: `?` propagates an error and keeps the state that was
-- reached; a panic ends everything; `out_of_fuel` is no behaviour of the code, but of a model that was
-- given too little fuel.
pub mod Safe
pub mod Ensures
pub mod Below
use eveboros.Base.{Bool, if◌then◌else◌, Option, none, some}
use eveboros.Error.{Error, Result, ok, err}

pub data Outcome (S A : Type 0) : Type 0 where
  returns : A → S → Outcome S A
  fails : Error → S → Outcome S A
  panic : Outcome S A
  out_of_fuel : Outcome S A

abbrev pub M : Type 0 → Type 0 → Type 0
M S A = S → Outcome S A

module _ {S A : Type 0} where
  abbrev pub pure : A → M S A
  pure a s = returns a s

  abbrev pub raise : Error → M S A
  raise e s = fails e s

  abbrev pub lift : Result A → M S A
  lift (ok a) s = returns a s
  lift (err e) s = fails e s

  abbrev pub panics : M S A
  panics s = panic

  -- `unwrap`, and an access that asserts.
  abbrev pub unwrap : Option A → M S A
  unwrap none s = panic
  unwrap (some a) s = returns a s

  abbrev pub gets : (S → A) → M S A
  gets f s = returns (f s) s

  abbrev pub panic_on_error : Outcome S A → Outcome S A
  panic_on_error (returns a s) = returns a s
  panic_on_error (fails e s) = panic
  panic_on_error panic = panic
  panic_on_error out_of_fuel = out_of_fuel

  -- `unwrap` of a result.
  unfoldable pub or_panic : M S A → M S A
  or_panic m s = panic_on_error (m s)

  abbrev pub as_result : Outcome S A → Outcome S (Result A)
  as_result (returns a s) = returns (ok a) s
  as_result (fails e s) = returns (err e) s
  as_result panic = panic
  as_result out_of_fuel = out_of_fuel

  -- Look at the result instead of propagating its error.
  unfoldable pub attempt : M S A → M S (Result A)
  attempt m s = as_result (m s)

module _ {S : Type 0} where
  -- `assert!`
  abbrev pub assert : Bool → M S (Unit {0})
  assert b = unwrap (if b then some tt else none)

  abbrev pub modify : (S → S) → M S (Unit {0})
  modify f s = returns tt (f s)

module _ {S A B : Type 0} where
  abbrev pub continue : Outcome S A → (A → M S B) → Outcome S B
  continue (returns a s) f = f a s
  continue (fails e s) f = fails e s
  continue panic f = panic
  continue out_of_fuel f = out_of_fuel

  infixl 5 ◌>>=◌ ◌>>◌
  unfoldable pub ◌>>=◌ : M S A → (A → M S B) → M S B
  ◌>>=◌ m f s = continue (m s) f

  abbrev pub ◌>>◌ : M S A → M S B → M S B
  m >> n = m >>= λ _. n
