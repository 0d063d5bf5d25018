-- ===== src/Signals/Wakeup/Notify.antt =====
-- The handler of src/signal_dispatch.rs, going through the notifiers of a signal, does the steps of a
-- handler for each loop.
use eveboros.Base.{
  ℕ, ◌≡◌, refl, sym, ap, subst, ◌∙◌, Bool, true, false, none, List, [], ◌∷◌, ◌++◌, arith, ◌==◌,
  Bool-cases, if◌then◌else◌, inl, inr,
}
use mathlib.Core.List.{append-nil, append_assoc}
use mathlib.Core.Path.{fun_ext}
use eveboros.Signals.{SignalNotifier, System, set_flag, notify}
use eveboros.Signals.Dispatch.{All}
use eveboros.Signals.Wakeup.{Shared, write_flag, mark, try_send, Step, Steps, here, next}
use eveboros.Signals.Wakeup.Seen.{both}

-- Sending to one loop leaves a wake-up in its channel, and sending to others does not touch that channel.
-- `found` are the loop's flags at each of the sends to it so far, in order, as one who wakes up at the send
-- finds them.
pub record Ours {W : Type 0} (system : System W) (sender array : ℕ) : Type 0 where
  pub wakeup_of : W → Bool
  pub sent : (flags : ℕ → ℕ → Bool) (w : W) → wakeup_of (system.try_send sender flags w).1 ≡ true
  pub others :
      (other : ℕ) (flags : ℕ → ℕ → Bool) (w : W)
      → (other == sender) ≡ false
      → wakeup_of (system.try_send other flags w).1 ≡ wakeup_of w
  pub found : W → List (ℕ → Bool)
  pub finds :
      (flags : ℕ → ℕ → Bool) (w : W)
      → found (system.try_send sender flags w).1 ≡ found w ++ flags array ∷ []
  pub found_others :
      (other : ℕ) (flags : ℕ → ℕ → Bool) (w : W)
      → (other == sender) ≡ false
      → found (system.try_send other flags w).1 ≡ found w

-- The flags at each step of a run that sends the wake-up.
abbrev pub sends_of : {sig_count : ℕ} {p q : Shared} → Step sig_count p q → List (ℕ → Bool)
sends_of {p = p} (try_send signal sending) = p.flags ∷ []
sends_of _ = []

unfoldable pub sends : {sig_count : ℕ} {p q : Shared} → Steps sig_count p q → List (ℕ → Bool)
sends here = []
sends (next steps step) = sends steps ++ sends_of step

sends-both :
    {sig_count : ℕ} {p q r : Shared} (before : Steps sig_count p q) (after : Steps sig_count q r)
    → sends (both before after) ≡ sends before ++ sends after
unfolding sends both
sends-both before here = sym (append-nil (sends before))
sends-both before (next after step) =
    ap (λ l. l ++ sends_of step) (sends-both before after)
    ∙ append_assoc (sends before) (sends after) (sends_of step)

-- The signal, once for each notifier of the loop.
abbrev pub once_each : ℕ → ℕ → List SignalNotifier → List ℕ
once_each sender snum [] = []
once_each sender snum (n ∷ ns) =
    if n.sender == sender then snum ∷ once_each sender snum ns else once_each sender snum ns

module _ {W : Type 0} (system : System W) (sender array sig_count snum : ℕ)
    (ours : Ours system sender array) where
  abbrev pub Belongs : SignalNotifier → Type 0
  Belongs n = (n.flags == array) ≡ (n.sender == sender)

  abbrev pub Sees : Shared → (ℕ → ℕ → Bool) → W → Type 0
  Sees p flags w = (p.flags ≡ flags array) × (p.wakeup ≡ ours.wakeup_of w)

  -- After the two steps of a handler for one notifier of the loop.
  abbrev handled : Shared → Shared
  handled p = record p {
    flags = write_flag snum true p.flags;
    wakeup = true;
    sending = none;
    raised = p.raised ++ snum ∷ [];
  }

  abbrev handling : (p : Shared) → p.sending ≡ none → Steps sig_count p (handled p)
  handling p free = next (next here (mark snum free)) (try_send snum refl)

  -- The flags that the loop sees once the notifier's flag is set.
  flags-mine :
      (n : SignalNotifier) (flags : ℕ → ℕ → Bool) (p : Shared)
      → Belongs n
      → (n.sender == sender) ≡ true
      → p.flags ≡ flags array
      → write_flag snum true p.flags ≡ set_flag n.flags snum flags array
  unfolding set_flag
  flags-mine n flags p own mine f = fun_ext (λ s. ground (arith, own, mine, ap (λ g. g s) f))

  handled-Sees :
      (n : SignalNotifier) (flags : ℕ → ℕ → Bool) (w : W) (p : Shared)
      → Belongs n
      → (n.sender == sender) ≡ true
      → p.flags ≡ flags array
      → Sees
          (handled p)
          (set_flag n.flags snum flags)
          (system.try_send n.sender (set_flag n.flags snum flags) w).1
  handled-Sees n flags w p own mine f = (
    flags-mine n flags p own mine f,
    sym (
        subst (λ x. ours.wakeup_of (system.try_send x (set_flag n.flags snum flags) w).1 ≡ true)
          (ground (arith, mine)) (ours.sent (set_flag n.flags snum flags) w)),
  )

  handled-found :
      (n : SignalNotifier) (flags : ℕ → ℕ → Bool) (w : W) (p : Shared)
      → Belongs n
      → (n.sender == sender) ≡ true
      → p.flags ≡ flags array
      → ours.found (system.try_send n.sender (set_flag n.flags snum flags) w).1
        ≡ ours.found w ++ write_flag snum true p.flags ∷ []
  handled-found n flags w p own mine f =
      subst
        (λ x.
          ours.found (system.try_send x (set_flag n.flags snum flags) w).1
          ≡ ours.found w ++ set_flag n.flags snum flags array ∷ [])
        (ground (arith, mine)) (ours.finds (set_flag n.flags snum flags) w)
      ∙ ap (λ g. ours.found w ++ g ∷ []) (sym (flags-mine n flags p own mine f))

  sends-handling :
      (p : Shared) (free : p.sending ≡ none) {q : Shared} (run : Steps sig_count (handled p) q)
      → sends (both (handling p free) run) ≡ write_flag snum true p.flags ∷ sends run
  unfolding sends
  sends-handling p free run = sends-both (handling p free) run

  -- The closure over the notifiers of a signal, run from the first to the last, does to the flags and
  -- the channel of one loop what a run of the handlers' steps does: the flags and the channel end as in that
  -- run, in which the signal comes once for each notifier of that loop, and at each send to the loop its flags
  -- are those of the run at the step that sends, so that the flag is set before. The loop's own look at the
  -- flags is not touched.
  pub notify-Steps :
      (ns : List SignalNotifier) (flags : ℕ → ℕ → Bool) (w : W) (p : Shared)
      → All Belongs ns
      → p.sending ≡ none
      → Sees p flags w
      → (q : Shared) × (run : Steps sig_count p q) × (ours.found (notify system snum ns flags w).2
          ≡ ours.found w ++ sends run)
        × (q.raised ≡ p.raised ++ once_each sender snum ns)
        × Sees q (notify system snum ns flags w).1 (notify system snum ns flags w).2
        × (q.sending ≡ none)
        × (q.reader ≡ p.reader)
        × (q.taken ≡ p.taken)
        × (q.failed ≡ p.failed)
  unfolding notify set_flag sends
  notify-Steps [] flags w p all free sees = (
    p,
    here,
    sym (append-nil (ours.found w)),
    sym (append-nil p.raised),
    sees,
    free,
    refl,
    refl,
    refl,
  )
  notify-Steps (n ∷ ns) flags w p (own, all) free (f, k) =
      let flags' = set_flag n.flags snum flags in
      let w' = (system.try_send n.sender flags' w).1 in
      elim (Bool-cases (n.sender == sender)) [
        | inl mine ↦
            let (q, run, met, raised, rest, free', back, taken, failed) =
              notify-Steps ns flags' w' (handled p) all refl
                (handled-Sees n flags w p own mine f) in
            let steps = both (handling p free) run in
            (
              q,
              steps,
              met
                  ∙ ap (λ x. x ++ sends run) (handled-found n flags w p own mine f)
                  ∙ append_assoc (ours.found w) (write_flag snum true p.flags ∷ []) (sends run)
                  ∙ ap (λ x. ours.found w ++ x) (sym (sends-handling p free run)),
              raised
                  ∙ ground
                      (arith, mine, append_assoc p.raised (snum ∷ []) (once_each sender snum ns)),
              rest,
              free',
              back,
              taken,
              failed,
            )
        | inr other ↦
            let (q, run, met, raised, rest, free', back, taken, failed) =
              notify-Steps ns flags' w' p all free (
                fun_ext (λ s. ground (arith, own, other, ap (λ g. g s) f)),
                k ∙ sym (ours.others n.sender flags' w other),
              ) in
            (
              q,
              run,
              met ∙ ap (λ x. x ++ sends run) (ours.found_others n.sender flags' w other),
              raised ∙ ground (arith, other),
              rest,
              free',
              back,
              taken,
              failed,
            )
      ]
