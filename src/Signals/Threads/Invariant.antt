-- ===== src/Signals/Threads/Invariant.antt =====
-- What holds of the threads between their steps.
use eveboros.Base.{
  ℕ, ltb, ◌+◌, ◌≡◌, refl, sym, subst, Bool, true, false, Option, none, some, List, [], ◌∷◌, ◌==◌,
  if◌then◌else◌, arith, inl, inr, Bool-cases,
}
use eveboros.Outcome.{returns, ◌>>=◌}
use eveboros.Signals.{System, SignalDispatch, new, register, install, dispatch, put_registered}
use eveboros.Signals.Threads.{
  Activity, registering, handling, Phase, waiting, locked, finished, released, Frame, Thread,
  Process, put_thread, work_of, Step, call, arrive, lock, work, unlock, leave, Steps, here, next,
}

abbrev pub owns : Phase → ℕ
owns waiting = 0
owns locked = 1
owns finished = 1
owns released = 0

-- How many calls of a thread have the mutex.
abbrev pub owned : List Frame → ℕ
owned [] = 0
owned (f ∷ fs) = owns f.phase + owned fs

abbrev pub holds : Option ℕ → ℕ → ℕ
holds none j = 0
holds (some i) j = if j == i then 1 else 0

-- The stack of a thread that blocks the signals `mask`: a registration is at the bottom and blocks
-- everything, and a handler is one of a signal that is set up, that was not blocked when it arrived and
-- that is blocked while the handler runs.
abbrev pub FineCall :
    ℕ → Activity → (setup mask old_mask : ℕ → Bool) (below : List Frame) → Type 0 → Type 0
FineCall nsig (registering signal notifier) setup mask old_mask below under =
    (ltb signal nsig ≡ true) × ((s : ℕ) → mask s ≡ true) × (below ≡ [])
FineCall nsig (handling signal) setup mask old_mask below under =
    (mask signal ≡ true) × (old_mask signal ≡ false) × (setup signal ≡ true) × under

abbrev pub IsFine : (nsig : ℕ) (setup mask : ℕ → Bool) → List Frame → Type 0
IsFine nsig setup mask [] = Unit {0}
IsFine nsig setup mask (f ∷ fs) =
    FineCall nsig f.job setup mask f.old_mask fs (IsFine nsig setup f.old_mask fs)

pub record Inv {W : Type 0} (nsig : ℕ) (p : Process W) : Type 0 where
  pub known : (s : ℕ) → p.table.setup s ≡ true → ltb s nsig ≡ true
  pub counted : (j : ℕ) → owned (p.threads j).stack ≡ holds p.holder j
  pub fine : (j : ℕ) → IsFine nsig p.table.setup (p.threads j).mask (p.threads j).stack

-- Signals are only ever set up.
call_mono :
    (nsig : ℕ) (job : Activity) (setup setup' mask old_mask : ℕ → Bool) (below : List Frame)
    (under under' : Type 0)
    → ((s : ℕ) → setup s ≡ true → setup' s ≡ true)
    → (under → under')
    → FineCall nsig job setup mask old_mask below under
    → FineCall nsig job setup' mask old_mask below under'
call_mono nsig (registering signal notifier) setup setup' mask old_mask below under under' more rest
      h =
    h
call_mono nsig (handling signal) setup setup' mask old_mask below under under' more rest
      (own, open', known, u) =
    (own, open', more signal known, rest u)

IsFine-mono :
    (nsig : ℕ) (setup setup' mask : ℕ → Bool) (fs : List Frame)
    → ((s : ℕ) → setup s ≡ true → setup' s ≡ true)
    → IsFine nsig setup mask fs
    → IsFine nsig setup' mask fs
IsFine-mono nsig setup setup' mask [] more h = tt
IsFine-mono nsig setup setup' mask (f ∷ fs) more h =
    call_mono nsig f.job setup setup' mask f.old_mask fs (IsFine nsig setup f.old_mask fs)
      (IsFine nsig setup' f.old_mask fs) more (IsFine-mono nsig setup setup' f.old_mask fs more) h

-- The call on top returns.
pub call_under :
    (nsig : ℕ) (job : Activity) (setup mask old_mask : ℕ → Bool) (below : List Frame)
    → FineCall nsig job setup mask old_mask below (IsFine nsig setup old_mask below)
    → IsFine nsig setup old_mask below
call_under nsig (registering signal notifier) setup mask old_mask below (valid, all, empty) =
    subst (IsFine nsig setup old_mask) (sym empty) tt
call_under nsig (handling signal) setup mask old_mask below (own, open', known, u) = u

put_thread-IsFine :
    (nsig : ℕ) (setup : ℕ → Bool) (i : ℕ) (thread : Thread) (threads : ℕ → Thread)
    → IsFine nsig setup thread.mask thread.stack
    → ((j : ℕ) → IsFine nsig setup (threads j).mask (threads j).stack)
    → (j : ℕ)
    → IsFine nsig setup (put_thread i thread threads j).mask (put_thread i thread threads j).stack
put_thread-IsFine nsig setup i thread threads there rest j =
    let both = λ (b : Bool). if b then thread else threads j in
    let Fine = λ (t : Thread). IsFine nsig setup t.mask t.stack in
    elim (Bool-cases (j == i)) [
      | inl e ↦ subst (λ (b : Bool). Fine (both b)) (sym e) there
      | inr e ↦ subst (λ (b : Bool). Fine (both b)) (sym e) (rest j)
    ]

module _ {W : Type 0} (system : System W) where
  -- No work under the mutex takes a handler back.
  work_of_mono :
      (job : Activity) (d d' : SignalDispatch W)
      → work_of system job d ≡ returns tt d'
      → (s : ℕ) → d.setup s ≡ true
      → d'.setup s ≡ true
  unfolding register install dispatch put_registered ◌>>=◌
  work_of_mono (registering signal notifier) d d' e s h = ground (arith, e, h)
  work_of_mono (handling signal) d d' e s h = ground (arith, e, h)

  -- Only signals below `NSIG` are set up.
  work_of_known :
      (job : Activity) (d d' : SignalDispatch W)
      → work_of system job d ≡ returns tt d'
      → ((s : ℕ) → d.setup s ≡ true → ltb s system.nsig ≡ true)
      → (s : ℕ) → d'.setup s ≡ true
      → ltb s system.nsig ≡ true
  unfolding register install dispatch put_registered ◌>>=◌
  work_of_known (registering signal notifier) d d' e known s h = ground (arith, e, h, known s)
  work_of_known (handling signal) d d' e known s h = ground (arith, e, h, known s)

  pub Step-Inv : {p q : Process W} → Step system p q → Inv system.nsig p → Inv system.nsig q
  Step-Inv {p} (call i signal notifier valid idle) inv = record {
    known = inv.known;
    counted = λ j. ground (arith, inv.counted j, inv.counted i, idle);
    fine = λ j.
        put_thread-IsFine system.nsig p.table.setup i _ p.threads (valid, (λ s. refl), refl)
          inv.fine j;
  }
  Step-Inv {p} (arrive i signal known open') inv = record {
    known = inv.known;
    counted = λ j. ground (arith, inv.counted j, inv.counted i);
    fine = λ j.
        put_thread-IsFine system.nsig p.table.setup i _ p.threads
          (ground (arith), open', known, inv.fine i) inv.fine j;
  }
  Step-Inv {p} (lock i f fs e ph free) inv = record {
    known = inv.known;
    counted = λ j. ground (arith, inv.counted j, inv.counted i, e, ph, free);
    fine = λ j.
        put_thread-IsFine system.nsig p.table.setup i _ p.threads
          (subst (IsFine system.nsig p.table.setup (p.threads i).mask) e (inv.fine i)) inv.fine j;
  }
  Step-Inv {p} (work i f fs table e ph done) inv = record {
    known = work_of_known f.job p.table table done inv.known;
    counted = λ j. ground (arith, inv.counted j, inv.counted i, e, ph);
    fine = λ j.
        put_thread-IsFine system.nsig table.setup i _ p.threads
          (subst (IsFine system.nsig table.setup (p.threads i).mask) e (
            IsFine-mono system.nsig p.table.setup table.setup (p.threads i).mask (p.threads i).stack
              (work_of_mono f.job p.table table done) (inv.fine i)))
          (λ j.
            IsFine-mono system.nsig p.table.setup table.setup (p.threads j).mask (p.threads j).stack
              (work_of_mono f.job p.table table done) (inv.fine j))
          j;
  }
  Step-Inv {p} (unlock i f fs e ph) inv = record {
    known = inv.known;
    counted = λ j. ground (arith, inv.counted j, inv.counted i, e, ph);
    fine = λ j.
        put_thread-IsFine system.nsig p.table.setup i _ p.threads
          (subst (IsFine system.nsig p.table.setup (p.threads i).mask) e (inv.fine i)) inv.fine j;
  }
  Step-Inv {p} (leave i f fs e ph) inv = record {
    known = inv.known;
    counted = λ j. ground (arith, inv.counted j, inv.counted i, e, ph);
    fine = λ j.
        put_thread-IsFine system.nsig p.table.setup i _ p.threads
          (call_under system.nsig f.job p.table.setup (p.threads i).mask f.old_mask fs
            (subst (IsFine system.nsig p.table.setup (p.threads i).mask) e (inv.fine i)))
          inv.fine j;
  }

  pub Steps-Inv-from : {p q : Process W} → Steps system p q → Inv system.nsig p → Inv system.nsig q
  Steps-Inv-from here inv = inv
  Steps-Inv-from (next ss s) inv = Step-Inv s (Steps-Inv-from ss inv)

  -- Nothing runs yet, and the threads block what they block.
  abbrev pub first_process : (ℕ → ℕ → Bool) → W → (ℕ → ℕ → Bool) → Process W
  first_process flags world masks = record {
    table = new flags world;
    holder = none;
    threads = λ i. record { mask = masks i; stack = [] };
  }

  pub Steps-Inv :
      (flags : ℕ → ℕ → Bool) (world : W) (masks : ℕ → ℕ → Bool) {p : Process W}
      → Steps system (first_process flags world masks) p
      → Inv system.nsig p
  unfolding new
  Steps-Inv flags world masks run =
      Steps-Inv-from run
        (record { known = λ s h. ground (arith, h); counted = λ j. refl; fine = λ j. tt })
