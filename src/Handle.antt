-- ===== src/Handle.antt =====
-- The identifiers of src/lib.rs and src/core.rs, and the tokens that stand for IOs.
use eveboros.Base.{ℕ, ◌+◌, ◌%◌, ◌^◌, ◌≡◌, ◌↔◌, Bool, true, ◌&&◌, arith, ◌==◌, Eq}

pub record Handle : Type 0 where
  pub id : ℕ
  pub generation : ℕ

-- `IoId(Token(n))`, `TimeoutId(n)`, `BackgroundId(n)`
pub record IoId : Type 0 where
  pub token : ℕ

pub record TimeoutId : Type 0 where
  pub number : ℕ

pub record BackgroundId : Type 0 where
  pub number : ℕ

abbrev pub handle_beq : Handle → Handle → Bool
handle_beq a b = (a.id == b.id) && (a.generation == b.generation)

pub handle_beq_iff : (a b : Handle) → (handle_beq a b ≡ true) ↔ (a ≡ b)
handle_beq_iff a b = ground arith

instance abbrev pub handle_eq : Eq Handle
handle_eq = record { beq = handle_beq; beq_iff = handle_beq_iff }

abbrev pub u64_mod : ℕ
u64_mod = 2 ^ 64

-- `Wrapping(n) += Wrapping(1)`
abbrev pub wrapping_suc : ℕ → ℕ
wrapping_suc n = (n + 1) % u64_mod

abbrev pub token_shift : ℕ
token_shift = 2

abbrev pub channel_tok : ℕ
channel_tok = 0

abbrev pub signal_tok : ℕ
signal_tok = 1
