-- ===== src/Signals/Dispatch.antt =====
-- What the dispatcher of signals guarantees (src/signal_dispatch.rs).
use eveboros.Base.{
  ℕ, ◌≡◌, ◌≢◌, refl, sym, ap, subst, ◌∙◌, Bool, true, false, List, [], ◌∷◌, ◌==◌, arith, ltb,
  if◌then◌else◌,
}
use eveboros.Outcome.{returns, ◌>>=◌}
use eveboros.Signals.{
  SignalNotifier, TrySend, pushed, full, gone, System, SignalDispatch, set_flag, keep_by,
  put_registered, notify, dispatch,
}

abbrev pub All : (SignalNotifier → Type 0) → List SignalNotifier → Type 0
All P [] = Unit {0}
All P (n ∷ ns) = P n × All P ns

kept_by :
    (a : TrySend)
    → a ≢ gone
    → (n : SignalNotifier) (rest : List SignalNotifier) → keep_by a n rest ≡ n ∷ rest
unfolding keep_by
kept_by pushed h n rest = refl
kept_by full h n rest = refl
kept_by gone h n rest = absurd (h refl)

module _ {W : Type 0} (system : System W) where
  -- A flag that is set stays set.
  notify_mono :
      (snum : ℕ) (ns : List SignalNotifier) (flags : ℕ → ℕ → Bool) (w : W) (a s : ℕ)
      → flags a s ≡ true
      → (notify system snum ns flags w).1 a s ≡ true
  unfolding notify set_flag
  notify_mono snum [] flags w a s h = h
  notify_mono snum (n ∷ ns) flags w a s h =
      notify_mono snum ns (set_flag n.flags snum flags)
        (system.try_send n.sender (set_flag n.flags snum flags) w).1 a s (ground arith)

  notify_sets :
      (snum : ℕ) (ns : List SignalNotifier) (flags : ℕ → ℕ → Bool) (w : W)
      → All (λ n. (notify system snum ns flags w).1 n.flags snum ≡ true) ns
  unfolding notify set_flag
  notify_sets snum [] flags w = tt
  notify_sets snum (n ∷ ns) flags w =
      let flags' = set_flag n.flags snum flags in
      let w' = (system.try_send n.sender flags' w).1 in
      (notify_mono snum ns flags' w' n.flags snum (ground arith), notify_sets snum ns flags' w')

  -- The flags of other signals stay.
  notify_frame :
      (snum : ℕ) (ns : List SignalNotifier) (flags : ℕ → ℕ → Bool) (w : W) (a s : ℕ)
      → (s == snum) ≡ false
      → (notify system snum ns flags w).1 a s ≡ flags a s
  unfolding notify set_flag
  notify_frame snum [] flags w a s h = refl
  notify_frame snum (n ∷ ns) flags w a s h =
      notify_frame snum ns (set_flag n.flags snum flags)
        (system.try_send n.sender (set_flag n.flags snum flags) w).1 a s h
      ∙ ground arith

  -- Dispatching a signal never panics for a signal number in range. Afterwards the flag of the signal is
  -- set for everybody who registered for it, the flags of other signals are as they were, and so are the
  -- registrations for other signals.
  pub dispatch_lem :
      (snum : ℕ) (d : SignalDispatch W)
      → ltb snum system.nsig ≡ true
      → (d' : SignalDispatch W) × (dispatch system snum d ≡ returns tt d')
        × All (λ n. d'.flags n.flags snum ≡ true) (d.registered snum)
        × ((a s : ℕ) → d'.flags a s ≡ (if s == snum then d'.flags a s else d.flags a s))
        × ((s : ℕ) → d'.registered s ≡ (if s == snum then d'.registered s else d.registered s))
  unfolding dispatch put_registered ◌>>=◌
  dispatch_lem snum d h = by_registered (d.registered snum) refl
    where
      by_registered :
          (ns : List SignalNotifier)
          → d.registered snum ≡ ns
          → (d' : SignalDispatch W) × (dispatch system snum d ≡ returns tt d')
            × All (λ n. d'.flags n.flags snum ≡ true) (d.registered snum)
            × ((a s : ℕ) → d'.flags a s ≡ (if s == snum then d'.flags a s else d.flags a s))
            × ((s : ℕ) → d'.registered s ≡ (if s == snum then d'.registered s else d.registered s))
      by_registered [] e = (
        d,
        ground (arith, e),
        subst (All (λ n. d.flags n.flags snum ≡ true)) (sym e) tt,
        λ a s. ground arith,
        λ s. ground arith,
      )
      by_registered (n ∷ ns) e =
          let (rest, flags, world) = notify system snum (d.registered snum) d.flags d.world in
          (
            put_registered snum rest (record d { flags = flags; world = world }),
            ground (arith, e),
            notify_sets snum (d.registered snum) d.flags d.world,
            λ a s. ground (arith, notify_frame snum (d.registered snum) d.flags d.world a s),
            λ s. ground arith,
          )

  notify_keeps :
      ((sender : ℕ) (flags : ℕ → ℕ → Bool) (w : W) → (system.try_send sender flags w).0 ≢ gone)
      → (snum : ℕ) (ns : List SignalNotifier) (flags : ℕ → ℕ → Bool) (w : W)
      → (notify system snum ns flags w).0 ≡ ns
  unfolding notify
  notify_keeps here snum [] flags w = refl
  notify_keeps here snum (n ∷ ns) flags w =
      let flags' = set_flag n.flags snum flags in
      kept_by _ (here n.sender flags' w) n _
      ∙ ap (λ x. n ∷ x) (notify_keeps here snum ns flags' (system.try_send n.sender flags' w).1)

  -- As long as no receiver is gone, a dispatch removes nobody from the registrations, full channels
  -- included.
  dispatch_keeps :
      (snum s : ℕ) (d d' : SignalDispatch W)
      → ((sender : ℕ) (flags : ℕ → ℕ → Bool) (w : W) → (system.try_send sender flags w).0 ≢ gone)
      → dispatch system snum d ≡ returns tt d'
      → d'.registered s ≡ d.registered s
  unfolding dispatch put_registered ◌>>=◌
  dispatch_keeps snum s d d' here e =
      ground (arith, e, notify_keeps here snum (d.registered snum) d.flags d.world)

module _ {W : Type 0} (system : System W) (other : ℕ → (ℕ → ℕ → Bool) → W → TrySend × W)
    (snum : ℕ) where
  -- Where the flag of the notifier is set, the two ways to wake it are the same.
  abbrev pub SameOnceSet : SignalNotifier → Type 0
  SameOnceSet n =
      (flags : ℕ → ℕ → Bool) (w : W)
      → flags n.flags snum ≡ true
      → system.try_send n.sender flags w ≡ other n.sender flags w

  notify_set_first :
      (ns : List SignalNotifier) (flags : ℕ → ℕ → Bool) (w : W)
      → All SameOnceSet ns
      → notify system snum ns flags w ≡ notify (record system { try_send = other }) snum ns flags w
  unfolding notify set_flag
  notify_set_first [] flags w same = refl
  notify_set_first (n ∷ ns) flags w same =
      let flags' = set_flag n.flags snum flags in
      ap
        (λ p. (
          keep_by p.0 n (notify system snum ns flags' p.1).0,
          (notify system snum ns flags' p.1).1,
          (notify system snum ns flags' p.1).2,
        ))
        (same.0 flags' w (ground arith))
      ∙ ap (λ q. (keep_by (other n.sender flags' w).0 n q.0, q.1, q.2))
          (notify_set_first ns flags' (other n.sender flags' w).1 same.1)

  -- A receiver is woken only after its flag was set: if two ways to wake receivers do the same to every
  -- registered receiver whose flag is set, whatever they do to others, then a dispatch is the same.
  pub dispatch_set_first :
      (d : SignalDispatch W)
      → All SameOnceSet (d.registered snum)
      → dispatch system snum d ≡ dispatch (record system { try_send = other }) snum d
  unfolding dispatch ◌>>=◌
  dispatch_set_first d same =
      ground (arith, notify_set_first (d.registered snum) d.flags d.world same)
