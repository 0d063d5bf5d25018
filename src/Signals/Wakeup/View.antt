-- ===== src/Signals/Wakeup/View.antt =====
-- The state that a loop shares with the handlers, as a part of the world of the loop (src/core.rs).
use mathlib.Core.List.{append_assoc}
use eveboros.Base.{
  ℕ, ◌≡◌, refl, sym, ap, subst, ap₂, ◌∙◌, Bool, true, false, List, [], ◌∷◌, ◌++◌, map,
}
use eveboros.Handle.{Handle}
use eveboros.Outcome.{Outcome, returns, fails, panic, out_of_fuel}
use eveboros.Loop.{Types, Loop, Env}
use eveboros.Loop.Gather.Signals.{signal_tasks}
use eveboros.Signals.Wakeup.{away, Shared, write_flag, Step, Steps, here, next}
use eveboros.Signals.Wakeup.Seen.{both}

-- The flags and the channel as parts of the world: what the loop's accesses do to them, and that
-- `waitpid` does nothing.
pub record View {P : Types} (env : Env P) : Type 0 where
  pub flags_of : P.World → ℕ → Bool
  pub wakeup_of : P.World → Bool
  pub swap_answer : (n : ℕ) (w : P.World) → (env.swap_flag n w).0 ≡ flags_of w n
  pub swap_flags :
      (n : ℕ) (w : P.World) → flags_of (env.swap_flag n w).1 ≡ write_flag n false (flags_of w)
  pub swap_wakeup : (n : ℕ) (w : P.World) → wakeup_of (env.swap_flag n w).1 ≡ wakeup_of w
  pub clear_flags : (w : P.World) → flags_of (env.clear_wakeup w) ≡ flags_of w
  pub cleared : (w : P.World) → wakeup_of (env.clear_wakeup w) ≡ false
  pub wait_flags : (w : P.World) → flags_of (env.waits w).1 ≡ flags_of w
  pub wait_wakeup : (w : P.World) → wakeup_of (env.waits w).1 ≡ wakeup_of w

-- The recipients of the signals, in the order of the signals.
abbrev pub told : (ℕ → List Handle) → List ℕ → List (Handle × ℕ)
told recipients [] = []
told recipients (n ∷ ns) = map (λ h. (h, n)) (recipients n) ++ told recipients ns

told-append :
    (recipients : ℕ → List Handle) (xs ys : List ℕ)
    → told recipients (xs ++ ys) ≡ told recipients xs ++ told recipients ys
told-append recipients [] ys = refl
told-append recipients (x ∷ xs) ys =
    ap (λ l. map (λ h. (h, x)) (recipients x) ++ l) (told-append recipients xs ys)
    ∙ sym
        (append_assoc (map (λ h. (h, x)) (recipients x)) (told recipients xs) (told recipients ys))

module _ {P : Types} (env : Env P) (view : View env) where
  -- The shared state is the one in the world of the loop.
  abbrev pub Shows : Shared → Loop P → Type 0
  Shows p l = (p.flags ≡ view.flags_of l.world) × (p.wakeup ≡ view.wakeup_of l.world)

  -- Steps of the loop lead there, and the tasks tell the recipients of what was found.
  abbrev pub Arrives : Shared → Loop P → Bool → Loop P → Type 0
  Arrives p l failed l' =
      (q : Shared) × Steps env.sig_count p q
      × Shows q l'
      × (q.reader ≡ away)
      × (q.failed ≡ failed)
      × (q.raised ≡ p.raised)
      × (q.sending ≡ p.sending)
      × (found : List ℕ) × (q.taken ≡ p.taken ++ found)
      × (signal_tasks l'.scheduled ≡ signal_tasks l.scheduled ++ told l.signal_recipients found)

  abbrev pub Follows : Shared → Loop P → Outcome (Loop P) (Unit {0}) → Type 0
  Follows p l (returns a l') = Arrives p l p.failed l'
  Follows p l (fails e l') = Arrives p l true l'
  Follows p l panic = Unit {0}
  Follows p l out_of_fuel = Unit {0}

  -- One step more at the front.
  Step-Arrives :
      (p p' : Shared) (l l' l'' : Loop P) (found : List ℕ) (failed : Bool)
      → Step env.sig_count p p'
      → p'.raised ≡ p.raised
      → p'.sending ≡ p.sending
      → p'.taken ≡ p.taken ++ found
      → signal_tasks l'.scheduled ≡ signal_tasks l.scheduled ++ told l.signal_recipients found
      → l'.signal_recipients ≡ l.signal_recipients
      → Arrives p' l' failed l''
      → Arrives p l failed l''
  Step-Arrives p p' l l' l'' found failed step raised sending taken tasks recipients
        (q, run, shows, back, f, r, x, more, t, ts) =
      (
        q,
        both (next here step) run,
        shows,
        back,
        f,
        r ∙ raised,
        x ∙ sending,
        found ++ more,
        t ∙ (ap (λ u. u ++ more) taken ∙ append_assoc p.taken found more),
        ts
            ∙ (ap₂ (λ u v. u ++ told v more) tasks recipients
                ∙ (append_assoc (signal_tasks l.scheduled) (told l.signal_recipients found)
                      (told l.signal_recipients more)
                    ∙ ap (λ u. signal_tasks l.scheduled ++ u)
                        (sym (told-append l.signal_recipients found more)))),
      )

  pub Step-Follows :
      (p p' : Shared) (l l' : Loop P) (found : List ℕ) (o : Outcome (Loop P) (Unit {0}))
      → Step env.sig_count p p'
      → p'.failed ≡ p.failed
      → p'.raised ≡ p.raised
      → p'.sending ≡ p.sending
      → p'.taken ≡ p.taken ++ found
      → signal_tasks l'.scheduled ≡ signal_tasks l.scheduled ++ told l.signal_recipients found
      → l'.signal_recipients ≡ l.signal_recipients
      → Follows p' l' o
      → Follows p l o
  Step-Follows p p' l l' found (returns a s) step failed raised sending taken tasks recipients h =
      Step-Arrives p p' l l' s found p.failed step raised sending taken tasks recipients
        (subst (λ b. Arrives p' l' b s) failed h)
  Step-Follows p p' l l' found (fails e s) step failed raised sending taken tasks recipients h =
      Step-Arrives p p' l l' s found true step raised sending taken tasks recipients h
  Step-Follows p p' l l' found panic step failed raised sending taken tasks recipients h = tt
  Step-Follows p p' l l' found out_of_fuel step failed raised sending taken tasks recipients h = tt
