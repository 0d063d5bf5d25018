-- ===== src/Signals/Wakeup.antt =====
-- A loop and the handlers of signals, which run at any time: the flags of the loop's notifier, the
-- wake-up channel between them, which holds one wake-up (`sync_channel(1)`), and their accesses one by
-- one. The handlers do those of the closure in `SignalDispatch::dispatch` of src/signal_dispatch.rs,
-- the loop those under `SIGNAL_TOK` in `tasks_gather_io` of src/core.rs. Wake-ups of other loops touch
-- none of this.
pub mod Seen
pub mod View
pub mod Notify
pub mod Examples
pub mod Look
use eveboros.Base.{
  ℕ, suc, ◌+◌, ◌≤◌, ◌<◌, ◌≡◌, Bool, true, false, Option, none, some, List, [], ◌∷◌, ◌++◌, ◌==◌,
  if◌then◌else◌,
}

-- The loop waits in `poll` or does something else, or it looks at the flags from this one on.
pub data Reader : Type 0 where
  away : Reader
  scanning : ℕ → Reader

-- `sending` is the signal whose flag a handler has set without having sent the wake-up. `raised` are
-- the signals that came, `taken` those that the loop has found, in order, and `failed` says whether an
-- error has ended a look at the flags.
pub record Shared : Type 0 where
  pub flags : ℕ → Bool
  pub wakeup : Bool
  pub sending : Option ℕ
  pub reader : Reader
  pub raised : List ℕ
  pub taken : List ℕ
  pub failed : Bool

abbrev pub write_flag : ℕ → Bool → (ℕ → Bool) → ℕ → Bool
write_flag signal value flags s = if s == signal then value else flags s

module _ (sig_count : ℕ) where
  -- The mutex keeps the handlers apart. A wake-up is there after `try_send`, whether it went in or the
  -- channel was full.
  pub data Step (p : Shared) : Shared → Type 0 where
    mark :
        (signal : ℕ)
        → p.sending ≡ none
        → Step p (record p {
          flags = write_flag signal true p.flags;
          sending = some signal;
          raised = p.raised ++ signal ∷ [];
        })
    try_send :
        (signal : ℕ) → p.sending ≡ some signal → Step p (record p { wakeup = true; sending = none })
    try_recv :
        p.reader ≡ away
        → p.wakeup ≡ true
        → Step p (record p { wakeup = false; reader = scanning 0 })
    swap_clear :
        (n : ℕ)
        → p.reader ≡ scanning n
        → n < sig_count
        → p.flags n ≡ false
        → Step p (record p { reader = scanning (suc n) })
    swap_set :
        (n : ℕ)
        → p.reader ≡ scanning n
        → n < sig_count
        → p.flags n ≡ true
        → Step p (record p {
          flags = write_flag n false p.flags;
          reader = scanning (suc n);
          taken = p.taken ++ n ∷ [];
        })
    fail :
        (n : ℕ)
        → p.reader ≡ scanning n
        → n < sig_count
        → p.flags n ≡ true
        → Step p (record p { flags = write_flag n false p.flags; reader = away; failed = true })
    finish : (n : ℕ) → p.reader ≡ scanning n → sig_count ≤ n → Step p (record p { reader = away })

  pub data Steps (p : Shared) : Shared → Type 0 where
    here : Steps p p
    next : {q r : Shared} → Steps p q → Step q r → Steps p r

-- No signal has come yet.
abbrev pub calm : Shared
calm = record {
  flags = λ _. false;
  wakeup = false;
  sending = none;
  reader = away;
  raised = [];
  taken = [];
  failed = false;
}
