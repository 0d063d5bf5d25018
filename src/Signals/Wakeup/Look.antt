-- ===== src/Signals/Wakeup/Look.antt =====
-- The code under `SIGNAL_TOK` (src/core.rs, `tasks_gather_io`) does the steps of the loop.
use mathlib.Core.List.{append-nil}
use mathlib.Core.Path.{fun_ext}
use eveboros.Base.{
  ℕ, zero, suc, ◌+◌, ◌-◌, ◌<◌, ◌≡◌, refl, sym, ap, ap₂, ◌∙◌, Bool, true, false, Option, none, some,
  List, [], ◌∷◌, ◌++◌, map, arith, ◌==◌, if◌then◌else◌,
}
use eveboros.Error.{NixError}
use eveboros.Handle.{Handle}
use eveboros.Outcome.{Outcome, returns, fails, panic, out_of_fuel, pure, continue, ◌>>=◌, ◌>>◌}
use eveboros.Outcome.Safe.{Safe}
use eveboros.Loop.{Types, Loop, Env, signal}
use eveboros.Loop.Gather.{children_gather, check_signal, take_signal, take_signals, take_flags}
use eveboros.Loop.Gather.Signals.{signal_tasks, signal_tasks-append, Kept, children_gather-Kept}
use eveboros.Signals.Wakeup.{
  away, scanning, Shared, write_flag, try_recv, swap_clear, swap_set, fail, finish, here, next,
}
use eveboros.Signals.Wakeup.View.{View, Shows, Follows, Step-Follows}

signal_tasks-map :
    (hs : List Handle) (n : ℕ)
    → signal_tasks (map (λ h. record { recipient = h; param = signal n }) hs) ≡ map (λ h. (h, n)) hs
signal_tasks-map [] n = refl
signal_tasks-map (h ∷ hs) n = ap (λ l. (h, n) ∷ l) (signal_tasks-map hs n)

write_flag-unset : (n : ℕ) (f : ℕ → Bool) → f n ≡ false → f ≡ write_flag n false f
write_flag-unset n f e = fun_ext (λ s. ground (arith, e))

module _ {P : Types} (env : Env P) (view : View env) where
  -- A signal whose flag was set is handled.
  abbrev Handled : ℕ → Loop P → Outcome (Loop P) (Unit {0}) → Type 0
  Handled n l (returns a l') =
      (signal_tasks l'.scheduled
        ≡ signal_tasks l.scheduled ++ map (λ h. (h, n)) (l.signal_recipients n))
      × (l'.signal_recipients ≡ l.signal_recipients)
      × (view.flags_of l'.world ≡ view.flags_of l.world)
      × (view.wakeup_of l'.world ≡ view.wakeup_of l.world)
  Handled n l (fails e l') =
      (signal_tasks l'.scheduled ≡ signal_tasks l.scheduled)
      × (view.flags_of l'.world ≡ view.flags_of l.world)
      × (view.wakeup_of l'.world ≡ view.wakeup_of l.world)
  Handled n l panic = Unit {0}
  Handled n l out_of_fuel = Unit {0}

  tell : ℕ → Loop P → Outcome (Loop P) (Unit {0})
  tell n l = returns tt (record l {
    scheduled =
        l.scheduled
        ++ map (λ h. record { recipient = h; param = signal n }) (l.signal_recipients n);
  })

  gathered-Handled :
      (n : ℕ) (l : Loop P) (w : P.World) (o : Outcome (Loop P) (Unit {0}))
      → view.flags_of w ≡ view.flags_of l.world
      → view.wakeup_of w ≡ view.wakeup_of l.world
      → Safe (Kept (record l { world = w })) o
      → Handled n l (continue o (λ _. tell n))
  unfolding tell
  gathered-Handled n l w (returns a s) flags wakeup (tasks, recipients, world) = (
    signal_tasks-append s.scheduled _
        ∙ ap₂ (λ x y. x ++ y) tasks
            (signal_tasks-map (s.signal_recipients n) n
              ∙ ap (λ r. map (λ h. (h, n)) (r n)) recipients),
    recipients,
    ap view.flags_of world ∙ flags,
    ap view.wakeup_of world ∙ wakeup,
  )
  gathered-Handled n l w (fails e s) flags wakeup (tasks, recipients, world) =
      (tasks, ap view.flags_of world ∙ flags, ap view.wakeup_of world ∙ wakeup)
  gathered-Handled n l w panic flags wakeup h = tt
  gathered-Handled n l w out_of_fuel flags wakeup h = tt

  checked-Handled :
      (n : ℕ) (l : Loop P) (answer : Option NixError) (is_child : Bool)
      → Handled n l
          ((do check_signal answer; (if is_child then children_gather env else pure tt); tell n) l)
  unfolding check_signal ◌>>=◌
  checked-Handled n l (some e) is_child = (refl, refl, refl)
  checked-Handled n l none true =
      gathered-Handled n l (env.waits l.world).1 (children_gather env l) (view.wait_flags l.world)
        (view.wait_wakeup l.world) (children_gather-Kept env l)
  checked-Handled n l none false =
      gathered-Handled n l l.world (returns tt l) refl refl (refl, refl, refl)

  take_signal-Handled : (n : ℕ) (l : Loop P) → Handled n l (take_signal env n l)
  unfolding take_signal tell
  take_signal-Handled n l = checked-Handled n l (env.from_c_int n) (n == env.sigchld)

  -- A signal that was found, and then the rest of the flags.
  set-Follows :
      (n : ℕ) (p : Shared) (l : Loop P) (o : Outcome (Loop P) (Unit {0}))
      (rest : Loop P → Outcome (Loop P) (Unit {0}))
      → p.reader ≡ scanning n
      → n < env.sig_count
      → p.flags n ≡ true
      → write_flag n false p.flags ≡ view.flags_of l.world
      → p.wakeup ≡ view.wakeup_of l.world
      → Handled n l o
      → ((p' : Shared) (l' : Loop P)
          → p'.reader ≡ scanning (suc n)
          → Shows env view p' l'
          → Follows env view p' l' (rest l'))
      → Follows env view p l (continue o (λ _. rest))
  set-Follows n p l (returns a s) rest e below set flags wakeup (tasks, recipients, f, w) go =
      let p' : Shared = record p {
        flags = write_flag n false p.flags;
        reader = scanning (suc n);
        taken = p.taken ++ n ∷ [];
      } in
      Step-Follows env view p p' l s (n ∷ []) (rest s) (swap_set n e below set) refl refl refl refl
        (tasks
          ∙ ap (λ u. signal_tasks l.scheduled ++ u)
              (sym (append-nil (map (λ h. (h, n)) (l.signal_recipients n)))))
        recipients (go p' s refl (flags ∙ sym f, wakeup ∙ sym w))
  set-Follows n p l (fails x s) rest e below set flags wakeup (tasks, f, w) go = (
    _,
    next here (fail n e below set),
    (flags ∙ sym f, wakeup ∙ sym w),
    refl,
    refl,
    refl,
    refl,
    [],
    sym (append-nil p.taken),
    tasks ∙ sym (append-nil (signal_tasks l.scheduled)),
  )
  set-Follows n p l panic rest e below set flags wakeup h go = tt
  set-Follows n p l out_of_fuel rest e below set flags wakeup h go = tt

  -- The access to one flag, and then the rest of the flags.
  swap-Follows :
      (n : ℕ) (p : Shared) (l : Loop P) (rest : Loop P → Outcome (Loop P) (Unit {0})) (set : Bool)
      → p.reader ≡ scanning n
      → n < env.sig_count
      → Shows env view p l
      → p.flags n ≡ set
      → ((p' : Shared) (l' : Loop P)
          → p'.reader ≡ scanning (suc n)
          → Shows env view p' l'
          → Follows env view p' l' (rest l'))
      → Follows env view p l (
          ((if set then take_signal env n else pure tt) >> rest)
            (record l { world = (env.swap_flag n l.world).1 }))
  unfolding ◌>>=◌
  swap-Follows n p l rest true e below (flags, wakeup) set go =
      let swapped : Loop P = record l { world = (env.swap_flag n l.world).1 } in
      set-Follows n p swapped (take_signal env n swapped) rest e below set
        (ap (write_flag n false) flags ∙ sym (view.swap_flags n l.world))
        (wakeup ∙ sym (view.swap_wakeup n l.world)) (take_signal-Handled n swapped) go
  swap-Follows n p l rest false e below (flags, wakeup) clear go =
      let swapped : Loop P = record l { world = (env.swap_flag n l.world).1 } in
      let p' : Shared = record p { reader = scanning (suc n) } in
      Step-Follows env view p p' l swapped [] (rest swapped) (swap_clear n e below clear) refl refl
        refl (sym (append-nil p.taken)) (sym (append-nil (signal_tasks l.scheduled))) refl
        (go p' swapped refl (
          write_flag-unset n p.flags clear
              ∙ (ap (write_flag n false) flags ∙ sym (view.swap_flags n l.world)),
          wakeup ∙ sym (view.swap_wakeup n l.world),
        ))

  take_signals-Follows :
      (left n : ℕ) (p : Shared) (l : Loop P)
      → left ≡ env.sig_count - n
      → p.reader ≡ scanning n
      → Shows env view p l
      → Follows env view p l (take_signals env left n l)
  unfolding take_signals ◌>>=◌
  take_signals-Follows zero n p l all e (flags, wakeup) = (
    _,
    next here (finish n e (omega (arith, all))),
    (flags, wakeup),
    refl,
    refl,
    refl,
    refl,
    [],
    sym (append-nil p.taken),
    sym (append-nil (signal_tasks l.scheduled)),
  )
  take_signals-Follows (suc left) n p l all e (flags, wakeup) =
      swap-Follows n p l (take_signals env left (n + 1)) (env.swap_flag n l.world).0 e
        (omega (arith, all)) (flags, wakeup)
        (ap (λ f. f n) flags ∙ sym (view.swap_answer n l.world))
        (λ p' l' e' shows.
          take_signals-Follows left (n + 1) p' l' (omega (arith, all))
            (e' ∙ ap (λ k. scanning k) (omega arith)) shows)

  -- One look of the loop at its signals, as the code does it, is made of the steps of the loop: it
  -- clears the channel, goes through all flags and clears those that were set, and the tasks it
  -- schedules are those of the recipients of exactly the signals that it found. An error on the way
  -- leaves the rest of the flags as they are.
  pub take_flags-Follows :
      (p : Shared) (l : Loop P)
      → p.reader ≡ away
      → p.wakeup ≡ true
      → Shows env view p l
      → Follows env view p l (take_flags env l)
  unfolding take_flags ◌>>=◌
  take_flags-Follows p l e woken (flags, wakeup) =
      let p' : Shared = record p { wakeup = false; reader = scanning 0 } in
      let l' : Loop P = record l { world = env.clear_wakeup l.world } in
      Step-Follows env view p p' l l' [] (take_signals env env.sig_count 0 l') (try_recv e woken)
        refl refl refl (sym (append-nil p.taken)) (sym (append-nil (signal_tasks l.scheduled))) refl
        (take_signals-Follows env.sig_count 0 p' l' (omega arith) refl
          (flags ∙ sym (view.clear_flags l.world), sym (view.cleared l.world)))
