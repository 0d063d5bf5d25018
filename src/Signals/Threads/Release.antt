-- ===== src/Signals/Threads/Release.antt =====
-- When the thread that has the mutex of src/signal_dispatch.rs can give it back.
use eveboros.Base.{
  ℕ, ◌≡◌, refl, ap, subst, ◌∙◌, Bool, true, none, some, List, [], ◌∷◌, ◌++◌, ◌==◌, ltb,
  if◌then◌else◌, arith, inl, inr, ◌⊎◌, Bool-cases,
}
use eveboros.Outcome.{returns, ◌>>=◌}
use eveboros.Signals.{System, SignalDispatch, register, install, dispatch, put_registered}
use eveboros.Signals.Dispatch.{dispatch_lem}
use eveboros.Signals.Threads.{
  Activity, registering, handling, Phase, waiting, locked, finished, released, Frame, Process,
  work_of, call, arrive, lock, work, unlock, leave, Step, Steps, here, next,
}
use eveboros.Signals.Threads.Invariant.{owns, FineCall, IsFine, Inv, first_process, Steps-Inv}
use eveboros.Signals.Threads.Registering.{Registers, registering_alone}

-- Where all signals that are set up are one, it is blocked wherever a call runs.
call_blocks :
    (nsig : ℕ) (job : Activity) (setup mask old_mask : ℕ → Bool) (below : List Frame)
    (under : Type 0) (s : ℕ)
    → ((s t : ℕ) → setup s ≡ true → setup t ≡ true → s ≡ t)
    → setup s ≡ true
    → FineCall nsig job setup mask old_mask below under
    → mask s ≡ true
call_blocks nsig (registering signal notifier) setup mask old_mask below under s same h
      (valid, all, empty) =
    all s
call_blocks nsig (handling signal) setup mask old_mask below under s same h (own, open', known, u) =
    ap mask (same s signal h known) ∙ own

call_single :
    (nsig : ℕ) (job : Activity) (setup mask old_mask : ℕ → Bool) (fs : List Frame)
    → ((s t : ℕ) → setup s ≡ true → setup t ≡ true → s ≡ t)
    → FineCall nsig job setup mask old_mask fs (IsFine nsig setup old_mask fs)
    → fs ≡ []
call_single nsig (registering signal notifier) setup mask old_mask fs same (valid, all, empty) =
    empty
call_single nsig (handling signal) setup mask old_mask [] same h = refl
call_single nsig (handling signal) setup mask old_mask (g ∷ gs) same (own, open', known, u) =
    absurd (
      ground
        (arith, open', call_blocks nsig g.job setup old_mask g.old_mask gs _ signal same known u))

module _ {W : Type 0} (system : System W) where
  -- The step is one by which the thread goes on with the call that it is in: no new call, no signal that
  -- arrives, and no step of another thread.
  abbrev pub Continues : (i : ℕ) {p q : Process W} → Step system p q → Type 0
  Continues i (call j signal notifier valid idle) = ⊥
  Continues i (arrive j signal is_set open') = ⊥
  Continues i (lock j f fs e ph free) = j ≡ i
  Continues i (work j f fs table e ph done) = j ≡ i
  Continues i (unlock j f fs e ph) = j ≡ i
  Continues i (leave j f fs e ph) = j ≡ i

  abbrev pub ByItself : (i : ℕ) {p q : Process W} → Steps system p q → Type 0
  ByItself i here = Unit {0}
  ByItself i (next steps step) = ByItself i steps × Continues i step

  -- The work of a call does not panic where `sigaction` accepts the handler.
  work_of_returns :
      (job : Activity) (d : SignalDispatch W) (mask old_mask : ℕ → Bool) (below : List Frame)
      (under : Type 0)
      → ((signal : ℕ) (world : W) → (system.sigaction signal world).0 ≡ none)
      → ((s : ℕ) → d.setup s ≡ true → ltb s system.nsig ≡ true)
      → FineCall system.nsig job d.setup mask old_mask below under
      → (d' : SignalDispatch W) × (work_of system job d ≡ returns tt d')
  unfolding register install dispatch put_registered ◌>>=◌
  work_of_returns (registering signal notifier) d mask old_mask below under accepts known
        (valid, all, empty) =
      let added =
        λ (d : SignalDispatch W). put_registered signal (d.registered signal ++ notifier ∷ []) d in
      elim (Bool-cases (d.setup signal)) [
        | inl e ↦ (added d, ground (arith, valid, e))
        | inr e ↦ (
          added (record d {
            world = (system.sigaction signal d.world).1;
            setup = λ s. if s == signal then true else d.setup s;
          }),
          ground (arith, valid, e, accepts signal d.world),
        )
      ]
  work_of_returns (handling signal) d mask old_mask below under accepts known
        (own, open', is_set, u) =
      let (d', done, flagged, same_flags, same_registered) =
        dispatch_lem system signal d (known signal is_set) in
      (d', done)

  -- The call on top of the stack that has the mutex gives it back.
  top_frees :
      (p : Process W) (i : ℕ) (f : Frame) (fs : List Frame) (phase : Phase)
      → ((signal : ℕ) (world : W) → (system.sigaction signal world).0 ≡ none)
      → Inv system.nsig p
      → (p.threads i).stack ≡ f ∷ fs
      → f.phase ≡ phase
      → owns phase ≡ 1
      → (q : Process W) × (run : Steps system p q) × ByItself i run × (q.holder ≡ none)
  top_frees p i f fs waiting accepts inv e ph one = absurd (ground (arith, one))
  top_frees p i f fs released accepts inv e ph one = absurd (ground (arith, one))
  top_frees p i f fs finished accepts inv e ph one =
      (_, next here (unlock i f fs e ph), (tt, refl), refl)
  top_frees p i f fs locked accepts inv e ph one =
      let (d', done) =
        work_of_returns f.job p.table (p.threads i).mask f.old_mask fs _ accepts inv.known
          (subst (IsFine system.nsig p.table.setup (p.threads i).mask) e (inv.fine i)) in
      (
        _,
        next (next here (work i f fs d' e ph done))
            (unlock i (record f { phase = finished }) fs (ground (arith)) refl),
        ((tt, refl), refl),
        refl,
      )

  -- If `sigaction` accepts the handlers, a thread that has the mutex can give it back by its own steps,
  -- with no other thread's step and no signal in between, as long as it is in a registration or no two
  -- different signals are set up.
  pub holder_frees :
      (flags : ℕ → ℕ → Bool) (world : W) (masks : ℕ → ℕ → Bool) (p : Process W)
      → ((signal : ℕ) (world : W) → (system.sigaction signal world).0 ≡ none)
      → Steps system (first_process system flags world masks) p
      → (i : ℕ) → p.holder ≡ some i
      → Registers (p.threads i).stack
        ⊎ ((s t : ℕ) → p.table.setup s ≡ true → p.table.setup t ≡ true → s ≡ t)
      → (q : Process W) × (run : Steps system p q) × ByItself i run × (q.holder ≡ none)
  holder_frees flags world masks p accepts ran i held (inl (above, f, fs, signal, notifier, e, j)) =
      let inv = Steps-Inv system flags world masks ran in
      let (none_above, last, all) =
        registering_alone system flags world masks p ran i above f fs signal notifier e j in
      top_frees p i f fs f.phase accepts inv (e ∙ ap (λ l. l ++ f ∷ fs) none_above) refl
        (ground (arith, inv.counted i, held, e, none_above, last))
  holder_frees flags world masks p accepts ran i held (inr same) = by_stack (p.threads i).stack refl
    where
      inv : Inv system.nsig p
      inv = Steps-Inv system flags world masks ran

      by_stack :
          (stack : List Frame)
          → (p.threads i).stack ≡ stack
          → (q : Process W) × (run : Steps system p q) × ByItself i run × (q.holder ≡ none)
      by_stack [] e = absurd (ground (arith, inv.counted i, held, e))
      by_stack (f ∷ fs) e =
          let empty =
            call_single system.nsig f.job p.table.setup (p.threads i).mask f.old_mask fs same
              (subst (IsFine system.nsig p.table.setup (p.threads i).mask) e (inv.fine i)) in
          top_frees p i f fs f.phase accepts inv e refl
            (ground (arith, inv.counted i, held, e, empty))
