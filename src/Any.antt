-- ===== src/Any.antt =====
-- `Box<Any>` of std: a value beside the identity of its type, and the checked downcast. The types
-- that programs put into messages are nominal types and `Result`s of such; the values of a nominal
-- type are opaque codes.
use eveboros.Base.{
  ℕ, ◌≡◌, ◌≢◌, ◌↔◌, refl, ap, Bool, true, false, Option, none, some, arith, ◌==◌, if◌then◌else◌, Eq,
}
use mathlib.Core.Option
use eveboros.Error.{Result, ok, err}

-- The types of std::any::TypeId.
pub data Ty : Type 0 where
  nominal : ℕ → Ty
  result : Ty → Ty

abbrev pub ty_beq : Ty → Ty → Bool
ty_beq (nominal a) (nominal b) = a == b
ty_beq (result s) (result t) = ty_beq s t
ty_beq _ _ = false

pub ty_beq_iff : (s t : Ty) → (ty_beq s t ≡ true) ↔ (s ≡ t)
ty_beq_iff (nominal a) (nominal b) = ground arith
ty_beq_iff (nominal a) (result t) = ground arith
ty_beq_iff (result s) (nominal b) = ground arith
ty_beq_iff (result s) (result t) = ground (arith, ty_beq_iff s t)

abbrev pub Value : Ty → Type 0
Value (nominal n) = ℕ
Value (result t) = Result (Value t)

pub record Any : Type 0 where
  pub ty : Ty
  pub value : Value ty

abbrev pub box : (t : Ty) → Value t → Any
box t v = record { ty = t; value = v }

-- The value, if the two types are one.
unfoldable cast : (s t : Ty) → Value s → Option (Value t)
cast (nominal a) (nominal b) v = if a == b then some v else none
cast (result s) (result t) (ok v) = Option.map ok (cast s t v)
cast (result s) (result t) (err e) = if ty_beq s t then some (err e) else none
cast (nominal a) (result t) v = none
cast (result s) (nominal b) v = none

-- `Box<Any>::downcast::<T>`
unfoldable pub downcast : (t : Ty) → Any → Option (Value t)
unfolding cast
downcast t a = cast a.ty t a.value

cast_self : (t : Ty) (v : Value t) → cast t t v ≡ some v
unfolding cast
cast_self (nominal a) v = ground arith
cast_self (result t) (ok v) = rw (cast_self t v)
cast_self (result t) (err e) = ground (arith, ty_beq_iff t t)

cast_ne : (s t : Ty) (v : Value s) → s ≢ t → cast s t v ≡ none
unfolding cast
cast_ne (nominal a) (nominal b) v h = ground arith
cast_ne (result s) (result t) (ok v) h = rw (cast_ne s t v (λ e. h (ap result e)))
cast_ne (result s) (result t) (err e) h = ground (arith, ty_beq_iff s t)
cast_ne (nominal a) (result t) v h = refl
cast_ne (result s) (nominal b) v h = refl

pub downcast_self : (t : Ty) (v : Value t) → downcast t (box t v) ≡ some v
unfolding downcast
downcast_self t v = cast_self t v

pub downcast_ne : (t : Ty) (a : Any) → a.ty ≢ t → downcast t a ≡ none
unfolding downcast
downcast_ne t a h = cast_ne a.ty t a.value h

instance abbrev pub ty_eq : Eq Ty
ty_eq = record { beq = ty_beq; beq_iff = ty_beq_iff }
