-- ===== src/Signals/Suite.antt =====
-- The test `dispatch` of src/signal_dispatch.rs, one round of it, run on the model: ten threads
-- register for a signal, it is raised, and each is woken and finds the flag of that signal set and no
-- other.
use eveboros.Base.{ℕ, zero, suc, ◌≡◌, refl, Bool, true, false, not, ◌&&◌, none, ◌==◌, if◌then◌else◌}
use eveboros.Outcome.{Outcome, returns, fails, panic, out_of_fuel, M, assert, ◌>>=◌, ◌>>◌}
use eveboros.Signals.{
  pushed, full, System, SignalDispatch, set_flag, new, put_registered, install, notify, register,
  dispatch,
}

abbrev sigusr1 : ℕ
sigusr1 = 10

-- The channels of the threads, which hold one wake-up each.
abbrev channels : System (ℕ → Bool)
channels = record {
  nsig = 65;
  sigaction = λ s w. (none, w);
  try_send =
      λ sender flags w. (if w sender then full else pushed, λ s. if s == sender then true else w s);
}

abbrev Table : Type 0
Table = SignalDispatch (ℕ → Bool)

-- Thread `i` has the array `i` and the channel `i`.
register_threads : ℕ → M Table (Unit {0})
register_threads zero = λ d. returns tt d
register_threads (suc i) = do
  register channels sigusr1 (record { sender = i; flags = i })
  register_threads i

-- What a thread asserts once it was woken, of the flags up to a number.
abbrev only_sigusr1 : (ℕ → Bool) → ℕ → Bool
only_sigusr1 flags zero = true
only_sigusr1 flags (suc s) =
    only_sigusr1 flags s && (if s == sigusr1 then flags s else not (flags s))

abbrev all_happy : Table → ℕ → Bool
all_happy d zero = true
all_happy d (suc i) = all_happy d i && (d.world i && only_sigusr1 (d.flags i) 65)

dispatch_test : M Table (Unit {0})
unfolding register_threads
dispatch_test = do register_threads 10; dispatch channels sigusr1; (λ d. assert (all_happy d 10) d)

abbrev passes : Outcome Table (Unit {0}) → Bool
passes (returns a d) = true
passes (fails e d) = false
passes panic = false
passes out_of_fuel = false

dispatch_test_lem : passes (dispatch_test (new (λ _ _. false) (λ _. false))) ≡ true
unfolding dispatch_test new register install put_registered dispatch notify set_flag ◌>>=◌
dispatch_test_lem = refl
