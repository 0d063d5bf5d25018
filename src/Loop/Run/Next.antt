-- ===== src/Loop/Run/Next.antt =====
-- What `run_one` runs (src/core.rs).
use eveboros.Base.{ℕ, zero, suc, ◌<◌, ◌≡◌, refl, true, false, List, [], ◌∷◌, ◌++◌, length, arith}
use eveboros.Handle.{Handle}
use eveboros.Outcome.{M}
use eveboros.Loop.{Types, Loop, Env, Op, Reply, Task}
use eveboros.Loop.Timers.{event_alive}
use eveboros.Loop.Run.{run_task, pick_task, run_next, perform, loop_run_one}

module _ {P : Types} where
  -- None of the tasks is for a living event.
  abbrev pub AllDead : Loop P → List Task → Type 0
  AllDead l [] = Unit {0}
  AllDead l (t ∷ ts) = (event_alive l t.recipient ≡ false) × AllDead l ts

  AllDead-scheduled :
      (l : Loop P) (queue ts : List Task)
      → AllDead l ts
      → AllDead (record l { scheduled = queue }) ts
  AllDead-scheduled l queue [] h = tt
  AllDead-scheduled l queue (t ∷ ts) h = (h.0, AllDead-scheduled l queue ts h.1)

module _ {P : Types} (env : Env P) where
  run_next_lem :
      (scope_of : Handle → Op P → M (Loop P) Reply) (n : ℕ) (dead : List Task) (task : Task)
      (rest : List Task) (l : Loop P)
      → length dead < n
      → l.scheduled ≡ dead ++ task ∷ rest
      → AllDead l dead
      → event_alive l task.recipient ≡ true
      → run_next env n scope_of l
        ≡ run_task env scope_of task.recipient task.param (record l { scheduled = rest })
  unfolding run_next pick_task
  run_next_lem scope_of zero dead task rest l enough queue gone alive = absurd (omega arith)
  run_next_lem scope_of (suc n) [] task rest l enough queue gone alive =
      ground (arith, queue, alive)
  run_next_lem scope_of (suc n) (t ∷ dead) task rest l enough queue gone alive =
      let l' : Loop P = record l { scheduled = dead ++ task ∷ rest } in
      ground (
        arith,
        queue,
        gone.0,
        run_next_lem scope_of n dead task rest l' (omega arith) refl
            (AllDead-scheduled l (dead ++ task ∷ rest) dead gone.1) alive,
      )

  -- As long as a task for a living event is scheduled, `run_one` ends its search: it drops the tasks for
  -- events that are gone in front of it, and runs the first task whose event is alive, with the tasks behind
  -- it still scheduled. One round for each task that is dropped and one more are enough.
  pub loop_run_one_lem :
      (n : ℕ) (dead : List Task) (task : Task) (rest : List Task) (l : Loop P)
      → length dead < n
      → l.scheduled ≡ dead ++ task ∷ rest
      → AllDead l dead
      → event_alive l task.recipient ≡ true
      → loop_run_one env n l
        ≡ run_task env (perform env n) task.recipient task.param (record l { scheduled = rest })
  unfolding loop_run_one
  loop_run_one_lem n dead task rest l enough queue gone alive =
      run_next_lem (perform env n) n dead task rest l enough queue gone alive
