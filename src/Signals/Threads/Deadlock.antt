-- ===== src/Signals/Threads/Deadlock.antt =====
-- How a thread comes to wait for a mutex of src/signal_dispatch.rs that it has itself.
use eveboros.Base.{
  ℕ, ◌≡◌, ◌≢◌, refl, sym, ap, ◌∙◌, Bool, true, false, none, some, List, ◌∷◌, ◌==◌, arith, inl, inr,
  Bool-cases,
}
use eveboros.Signals.{System}
use eveboros.Signals.Threads.{
  handling, waiting, Frame, Process, Step, call, arrive, lock, work, unlock, leave, Steps, here,
  next,
}
use eveboros.Signals.Threads.Invariant.{Inv, Step-Inv, first_process, Steps-Inv, Steps-Inv-from}

module _ {W : Type 0} (system : System W) where
  -- A thread that has the mutex and waits for it.
  record Jam (i : ℕ) (p : Process W) : Type 0 where
    held : p.holder ≡ some i
    top : Frame
    below : List Frame
    is : (p.threads i).stack ≡ top ∷ below
    waits : top.phase ≡ waiting

  Step-Jam :
      {p q : Process W} {i : ℕ}
      → Step system p q
      → Inv system.nsig p
      → Jam i p
      → Jam i q × (q.table ≡ p.table)
  Step-Jam {p} {i} (call j signal notifier valid idle) inv jam = (
    record {
      held = jam.held;
      top = jam.top;
      below = jam.below;
      is = ground (arith, idle, jam.is);
      waits = jam.waits;
    },
    refl,
  )
  Step-Jam {p} {i} (arrive j signal known open') inv jam = elim (Bool-cases (i == j)) [
    | inl here' ↦ (
      record {
        held = jam.held;
        top = record { job = handling signal; phase = waiting; old_mask = (p.threads j).mask };
        below = (p.threads j).stack;
        is = ground (arith, here');
        waits = refl;
      },
      refl,
    )
    | inr elsewhere ↦ (
      record {
        held = jam.held;
        top = jam.top;
        below = jam.below;
        is = ground (arith, elsewhere, jam.is);
        waits = jam.waits;
      },
      refl,
    )
  ]
  Step-Jam {p} {i} (lock j f fs e ph free) inv jam = absurd (ground (arith, free, jam.held))
  Step-Jam {p} {i} (work j f fs table e ph done) inv jam =
      absurd (ground (arith, e, ph, inv.counted j, jam.held, jam.is, jam.waits))
  Step-Jam {p} {i} (unlock j f fs e ph) inv jam =
      absurd (ground (arith, e, ph, inv.counted j, jam.held, jam.is, jam.waits))
  Step-Jam {p} {i} (leave j f fs e ph) inv jam = (
    record {
      held = jam.held;
      top = jam.top;
      below = jam.below;
      is = ground (arith, e, ph, jam.is, jam.waits);
      waits = jam.waits;
    },
    refl,
  )

  Steps-Jam :
      {p q : Process W} {i : ℕ}
      → Steps system p q
      → Inv system.nsig p
      → Jam i p
      → Inv system.nsig q × Jam i q × (q.table ≡ p.table)
  Steps-Jam here inv jam = (inv, jam, refl)
  Steps-Jam (next ss s) inv jam =
      let (inv', jam', same) = Steps-Jam ss inv jam in
      let (jam'', same') = Step-Jam s inv' jam' in (Step-Inv system s inv', jam'', same' ∙ same)

  -- A signal arrives and its handler gets the mutex.
  handler_acquires :
      (p : Process W) (i a : ℕ)
      → p.table.setup a ≡ true
      → (p.threads i).mask a ≡ false
      → p.holder ≡ none
      → (q : Process W) × Steps system p q
        × (q.holder ≡ some i)
        × (q.table ≡ p.table)
        × ((s : ℕ) → s ≢ a → (p.threads i).mask s ≡ false → (q.threads i).mask s ≡ false)
  handler_acquires p i a set_a open_a free = (
    _,
    next (next here (arrive i a set_a open_a)) (
        lock i (record { job = handling a; phase = waiting; old_mask = (p.threads i).mask })
          (p.threads i).stack (ground (arith)) refl free),
    refl,
    refl,
    λ s differ e. ground (arith, differ, e),
  )

  -- A signal arrives at the thread that has the mutex.
  interrupted-Jam :
      (p : Process W) (i b : ℕ)
      → p.table.setup b ≡ true
      → (p.threads i).mask b ≡ false
      → p.holder ≡ some i
      → (q : Process W) × Step system p q × Jam i q × (q.table ≡ p.table)
  interrupted-Jam p i b set_b open_b held = (
    _,
    arrive i b set_b open_b,
    record {
      held = held;
      top = record { job = handling b; phase = waiting; old_mask = (p.threads i).mask };
      below = (p.threads i).stack;
      is = ground (arith);
      waits = refl;
    },
    refl,
  )

  -- A deadlock: if the mutex is free, and a thread blocks neither of two signals that are set up, there
  -- are steps of the program after which the mutex is never free again and the table never changes
  -- again, whatever the threads do.
  pub self_deadlock :
      (flags : ℕ → ℕ → Bool) (world : W) (masks : ℕ → ℕ → Bool) (p : Process W)
      → Steps system (first_process system flags world masks) p
      → (i a b : ℕ) → a ≢ b
      → p.table.setup a ≡ true
      → p.table.setup b ≡ true
      → (p.threads i).mask a ≡ false
      → (p.threads i).mask b ≡ false
      → p.holder ≡ none
      → (q : Process W) × Steps system p q
        × ((r : Process W) → Steps system q r → (r.holder ≡ some i) × (r.table ≡ p.table))
  self_deadlock flags world masks p ran i a b differ set_a set_b open_a open_b free =
      let (q, to_q, held, same, opens) = handler_acquires p i a set_a open_a free in
      let (r, to_r, jam, same') =
        interrupted-Jam q i b (ap (λ t. t.setup b) same ∙ set_b)
          (opens b (λ e. differ (sym e)) open_b) held in
      (
        r,
        next to_q to_r,
        λ t to_t.
            let (inv, jam', same'') =
              Steps-Jam to_t
                (Step-Inv system to_r
                  (Steps-Inv-from system to_q (Steps-Inv system flags world masks ran)))
                jam in
            (jam'.held, same'' ∙ (same' ∙ same)),
      )
