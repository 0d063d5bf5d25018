-- ===== src/Signals/Threads/Registering.antt =====
-- A call of `register` (src/signal_dispatch.rs) is not interrupted.
use eveboros.Base.{ℕ, ◌≡◌, refl, subst, Bool, true, List, [], ◌∷◌, ◌++◌, arith}
use eveboros.Signals.{SignalNotifier, System}
use eveboros.Signals.Threads.{Activity, registering, handling, Frame, Process, Steps}
use eveboros.Signals.Threads.Invariant.{FineCall, IsFine, call_under, first_process, Steps-Inv}

-- A call above one that blocks everything is none of a handler.
call_open :
    (nsig : ℕ) (job : Activity) (setup mask old_mask : ℕ → Bool) (below : List Frame)
    (under : Type 0)
    → FineCall nsig job setup mask old_mask below under
    → ((s : ℕ) → old_mask s ≡ true)
    → below ≡ []
call_open nsig (registering signal notifier) setup mask old_mask below under (valid, all, empty) h =
    empty
call_open nsig (handling signal) setup mask old_mask below under (own, open', known, u) h =
    absurd (ground (arith, open', h signal))

alone_where_fine :
    (nsig : ℕ) (setup mask : ℕ → Bool) (above : List Frame) (f : Frame) (fs : List Frame)
    (signal : ℕ) (notifier : SignalNotifier)
    → f.job ≡ registering signal notifier
    → IsFine nsig setup mask (above ++ f ∷ fs)
    → (above ≡ []) × (fs ≡ []) × ((s : ℕ) → mask s ≡ true)
alone_where_fine nsig setup mask [] f fs signal notifier e h =
    let (valid, all, empty) =
      subst (λ j. FineCall nsig j setup mask f.old_mask fs (IsFine nsig setup f.old_mask fs)) e h in
    (refl, empty, all)
alone_where_fine nsig setup mask (g ∷ above) f fs signal notifier e h =
    let (none_above, last, all) =
      alone_where_fine nsig setup g.old_mask above f fs signal notifier e
        (call_under nsig g.job setup mask g.old_mask (above ++ f ∷ fs) h) in
    let empty = call_open nsig g.job setup mask g.old_mask (above ++ f ∷ fs) _ h all in
    absurd (ground (arith, none_above, empty))

-- A call of `register` is on the stack.
abbrev pub Registers : List Frame → Type 0
Registers stack =
    (above : List Frame) × (f : Frame) × (fs : List Frame) × (signal : ℕ)
    × (notifier : SignalNotifier) × (stack ≡ above ++ f ∷ fs)
    × (f.job ≡ registering signal notifier)

module _ {W : Type 0} (system : System W) where
  -- A registration cannot be interrupted: in whatever way the threads have run, a call of `register` is
  -- the only call on the stack of its thread, and all signals are blocked there.
  pub registering_alone :
      (flags : ℕ → ℕ → Bool) (world : W) (masks : ℕ → ℕ → Bool) (p : Process W)
      → Steps system (first_process system flags world masks) p
      → (i : ℕ) (above : List Frame) (f : Frame) (fs : List Frame) (signal : ℕ)
        (notifier : SignalNotifier)
      → (p.threads i).stack ≡ above ++ f ∷ fs
      → f.job ≡ registering signal notifier
      → (above ≡ []) × (fs ≡ []) × ((s : ℕ) → (p.threads i).mask s ≡ true)
  registering_alone flags world masks p ran i above f fs signal notifier e j =
      alone_where_fine system.nsig p.table.setup (p.threads i).mask above f fs signal notifier j (
        subst (IsFine system.nsig p.table.setup (p.threads i).mask) e
          ((Steps-Inv system flags world masks ran).fine i))
