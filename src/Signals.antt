-- ===== src/Signals.antt =====
-- src/signal_dispatch.rs: the process-wide table of who wants to know of which signal. The arrays of
-- flags are shared between the dispatcher and the loops: a notifier holds the number of its array.
-- Every function here runs under the mutex of the table; Signals/Threads.antt is about the threads that take it.
pub mod Dispatch
pub mod Threads
pub mod Wakeup
pub mod Examples
pub mod Suite
use eveboros.Base.{
  ℕ, Bool, true, false, Option, none, some, List, [], ◌∷◌, ◌++◌, ◌==◌, ◌&&◌, ltb, is_nil,
  if◌then◌else◌,
}
use eveboros.Error.{NixError}
use eveboros.Outcome.{Outcome, returns, panic, M, pure, assert, modify, ◌>>=◌, ◌>>◌}

pub record SignalNotifier : Type 0 where
  pub sender : ℕ
  pub flags : ℕ

-- The answers of `try_send` on mio's bounded channel.
pub data TrySend : Type 0 where
  pushed full gone : TrySend

-- nix and mio. A receiver that is woken can look at the flags, so `try_send` gets them.
pub record System (W : Type 0) : Type 0 where
  pub nsig : ℕ
  pub sigaction : ℕ → W → Option NixError × W
  pub try_send : ℕ → (ℕ → ℕ → Bool) → W → TrySend × W

-- `SignalDispatch`, beside the flags and what lies outside.
pub record SignalDispatch (W : Type 0) : Type 0 where
  pub registered : ℕ → List SignalNotifier
  pub setup : ℕ → Bool
  pub flags : ℕ → ℕ → Bool
  pub world : W

-- `flags[snum].store(true, …)`
unfoldable pub set_flag : ℕ → ℕ → (ℕ → ℕ → Bool) → ℕ → ℕ → Bool
set_flag array snum flags a s = if (a == array) && (s == snum) then true else flags a s

-- What stays of a notifier after its wake-up.
unfoldable pub keep_by : TrySend → SignalNotifier → List SignalNotifier → List SignalNotifier
keep_by gone notifier rest = rest
keep_by pushed notifier rest = notifier ∷ rest
keep_by full notifier rest = notifier ∷ rest

module _ {W : Type 0} where
  unfoldable pub new : (ℕ → ℕ → Bool) → W → SignalDispatch W
  new flags world = record {
    registered = λ _. [];
    setup = λ _. false;
    flags = flags;
    world = world;
  }

  -- The list of notifiers of a signal, written back.
  unfoldable pub put_registered : ℕ → List SignalNotifier → SignalDispatch W → SignalDispatch W
  put_registered snum notifiers d = record d {
    registered = λ s. if s == snum then notifiers else d.registered s;
  }

module _ {W : Type 0} (system : System W) where
  -- `sigaction(signal, &action).unwrap()`
  unfoldable pub install : ℕ → M (SignalDispatch W) (Unit {0})
  install snum d =
      let (failed, world) = system.sigaction snum d.world in
      elim failed [
        | some e ↦ panic
        | none ↦
            returns tt
              (record d { world = world; setup = λ s. if s == snum then true else d.setup s })
      ]

  -- `SignalDispatch::register`
  unfoldable pub register : ℕ → SignalNotifier → M (SignalDispatch W) (Unit {0})
  unfolding install put_registered
  register snum notifier = do
    assert (ltb snum system.nsig)
    (λ d. if d.setup snum then returns tt d else install snum d)
    modify (λ d. put_registered snum (d.registered snum ++ notifier ∷ []) d)

  -- The closure of `filter_map` over the notifiers: what stays of them, the flags and the world after.
  unfoldable pub notify :
      ℕ → List SignalNotifier → (ℕ → ℕ → Bool) → W → List SignalNotifier × (ℕ → ℕ → Bool) × W
  unfolding set_flag keep_by
  notify snum [] flags world = ([], flags, world)
  notify snum (n ∷ ns) flags world =
      let flags' = set_flag n.flags snum flags in
      let (a, world') = system.try_send n.sender flags' world in
      let (rest, flags'', world'') = notify snum ns flags' world' in
      (keep_by a n rest, flags'', world'')

  -- `SignalDispatch::dispatch`
  unfoldable pub dispatch : ℕ → M (SignalDispatch W) (Unit {0})
  unfolding notify put_registered
  dispatch snum = do
    assert (ltb snum system.nsig)
    (λ d.
        if is_nil (d.registered snum)
        then returns tt d
        else (let (rest, flags, world) = notify snum (d.registered snum) d.flags d.world in
            returns tt (put_registered snum rest (record d { flags = flags; world = world }))))
