-- ===== src/Signals/Examples.antt =====
-- The theorems on the dispatcher of src/signal_dispatch.rs at a table with two notifiers.
use eveboros.Base.{
  ℕ, ◌+◌, ◌≡◌, refl, Bool, true, false, none, [], ◌∷◌, ◌==◌, if◌then◌else◌, ltb, arith,
}
use eveboros.Outcome.{returns, ◌>>=◌}
use eveboros.Signals.{
  SignalNotifier, TrySend, pushed, full, gone, System, SignalDispatch, set_flag, dispatch,
}
use eveboros.Signals.Dispatch.{All, dispatch_lem, dispatch_set_first}

-- The world counts the wake-ups, up to two fit.
abbrev system : System ℕ
system = record {
  nsig = 65;
  sigaction = λ s w. (none, w + 10);
  try_send = λ sender flags w. (if ltb w 2 then pushed else full, w + 1);
}

-- Receivers that look for signal 17 when they are woken.
abbrev looking : ℕ → (ℕ → ℕ → Bool) → ℕ → TrySend × ℕ
looking sender flags w =
    if flags sender 17 then (if ltb w 2 then pushed else full, w + 1) else (gone, 0)

abbrev first : SignalNotifier
first = record { sender = 0; flags = 0 }

abbrev second : SignalNotifier
second = record { sender = 1; flags = 1 }

abbrev table : SignalDispatch ℕ
table = record {
  registered = λ s. if s == 17 then first ∷ second ∷ [] else [];
  setup = λ s. s == 17;
  flags = λ a s. false;
  world = 1;
}

dispatch_example :
    (d' : SignalDispatch ℕ) × (dispatch system 17 table ≡ returns tt d')
    × All (λ n. d'.flags n.flags 17 ≡ true) (first ∷ second ∷ [])
    × ((a s : ℕ) → d'.flags a s ≡ (if s == 17 then d'.flags a s else false))
    × ((s : ℕ) → d'.registered s ≡ (if s == 17 then d'.registered s else table.registered s))
unfolding set_flag ◌>>=◌
dispatch_example = dispatch_lem system 17 table refl

looks_after :
    (flags : ℕ → ℕ → Bool) (sender w : ℕ)
    → flags sender 17 ≡ true
    → system.try_send sender flags w ≡ looking sender flags w
looks_after flags sender w set = ground (arith, set)

set_first_example :
    dispatch system 17 table ≡ dispatch (record system { try_send = looking }) 17 table
set_first_example =
    dispatch_set_first system looking 17 table
      ((λ flags w. looks_after flags 0 w), ((λ flags w. looks_after flags 1 w), tt))
