-- ===== src/Loop/Run/Progress.antt =====
-- What the loops of src/core.rs have reached when they return: `run_until_complete` and `run`.
use eveboros.Base.{ℕ, zero, suc, ◌≡◌, subst, Bool, true, false, some, [], arith}
use eveboros.Error.{dead_lock, empty}
use eveboros.Handle.{Handle}
use eveboros.Outcome.{returns, fails, M, attempt, ◌>>=◌, ◌>>◌}
use eveboros.Outcome.Ensures.{Ensures, Ensures-anything, bind-Ensures, if-Ensures}
use eveboros.Recycler
use eveboros.Recycler.{Recycler, view}
use eveboros.Recycler.Invariant.{index-view}
use eveboros.Loop.{Types, Loop, Env, EvHolder, Op, Reply}
use eveboros.Loop.Gather.{tasks_gather, drain_released}
use eveboros.Loop.Timers.{event_alive}
use eveboros.Loop.Run.{
  check_deadlock, wait_round, active_round, wait_for, run_active, run_loop, run_until_empty,
  run_next, loop_run_until_complete, loop_run, loop_run_until_empty, pick_task, forgive_empty,
  perform,
}

module _ {P : Types} where
  abbrev pub Gone : Handle → Unit {0} → Loop P → Type 0
  Gone target _ l = event_alive l target ≡ false

  abbrev pub Stopped : Unit {0} → Loop P → Type 0
  Stopped _ l = l.active ≡ false

module _ {P : Types} (env : Env P) (scope_of : Handle → Op P → M (Loop P) Reply) where
  wait_for-Gone :
      (n : ℕ) (checked : Bool) (target : Handle) (l : Loop P)
      → Ensures (Gone target) (wait_for env n checked scope_of target l)
  unfolding wait_for wait_round
  wait_for-Gone zero checked target l = tt
  wait_for-Gone (suc n) checked target l =
      if-Ensures (Gone target) (event_alive l target) _ _
        (λ _.
          bind-Ensures (λ _ _. Unit {0}) (Gone target) (check_deadlock checked target)
            (λ _. run_next env n scope_of >> wait_for env n true scope_of target) l
            (Ensures-anything (check_deadlock checked target l))
            (λ _ l₁ _.
              bind-Ensures (λ _ _. Unit {0}) (Gone target) (run_next env n scope_of)
                (λ _. wait_for env n true scope_of target) l₁
                (Ensures-anything (run_next env n scope_of l₁))
                (λ _ l₂ _. wait_for-Gone n true target l₂)))
        (λ dead. dead)

  run_active-Stopped : (n : ℕ) (l : Loop P) → Ensures Stopped (run_active env n scope_of l)
  unfolding run_active active_round
  run_active-Stopped zero l = tt
  run_active-Stopped (suc n) l =
      if-Ensures Stopped l.active _ _
        (λ _.
          bind-Ensures (λ _ _. Unit {0}) Stopped (run_next env n scope_of)
            (λ _. run_active env n scope_of) l (Ensures-anything (run_next env n scope_of l))
            (λ _ l₁ _. run_active-Stopped n l₁))
        (λ off. off)

module _ {P : Types} (env : Env P) where
  -- When `run_until_complete` returns without an error, its event is gone.
  pub loop_run_until_complete-Gone :
      (n : ℕ) (target : Handle) (l l' : Loop P)
      → loop_run_until_complete env n target l ≡ returns tt l'
      → event_alive l' target ≡ false
  unfolding loop_run_until_complete
  loop_run_until_complete-Gone n target l l' e =
      subst (Ensures (Gone target)) e (wait_for-Gone env (perform env n) n false target l)

  -- `run_until_complete` on an event whose callback is running fails with `DeadLock`, before anything
  -- else is done.
  loop_run_until_complete-dead_lock :
      (n : ℕ) (target : Handle) (holder : EvHolder P.Ev) (l : Loop P)
      → view l.events target.id ≡ some holder
      → event_alive l target ≡ true
      → holder.event.stolen ≡ true
      → loop_run_until_complete env (suc n) target l ≡ fails dead_lock l
  unfolding loop_run_until_complete wait_for wait_round check_deadlock ◌>>=◌
  loop_run_until_complete-dead_lock n target holder l there alive locked =
      ground (arith, there, alive, locked, index-view l.events target.id)

  -- `run` returns without an error only once the loop was told to stop.
  loop_run-Stopped : (n : ℕ) (l l' : Loop P) → loop_run env n l ≡ returns tt l' → l'.active ≡ false
  unfolding loop_run run_loop ◌>>=◌
  loop_run-Stopped n l l' e =
      subst (Ensures Stopped) e
        (run_active-Stopped env (perform env n) n (record l { active = true }))

  -- A loop without events, tasks and released IOs cannot run: `run` fails with `Empty`, which
  -- `run_until_empty` takes for success.
  loop_run-empty :
      (n : ℕ) (l : Loop P)
      → l.scheduled ≡ []
      → l.ios_released ≡ []
      → Recycler.is_empty l.events ≡ true
      → (loop_run env (suc (suc n)) l ≡ fails empty (record l { active = true }))
        × (loop_run_until_empty env (suc (suc n)) l ≡ returns tt (record l { active = true }))
  unfolding loop_run loop_run_until_empty run_loop run_until_empty run_active active_round run_next
      pick_task tasks_gather drain_released forgive_empty attempt ◌>>=◌
  loop_run-empty n l hs hr he = (ground (arith, hs, hr, he), ground (arith, hs, hr, he))
