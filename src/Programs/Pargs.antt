-- ===== src/Programs/Pargs.antt =====
-- src/examples/pargs.rs: runs the commands that it reads from its input, several at once.
pub mod Runners
pub mod Examples
use Prim.Native.String.{String}
use eveboros.Base.{ℕ, zero, suc, Bool, true, false, Option, none, some, if◌then◌else◌}
use eveboros.Error.{Result, ok, err, io, user_str}
use eveboros.Outcome.{M, returns, fails, lift, ◌>>=◌, ◌>>◌}
use eveboros.Loop.{
  Types, Loop, Env, Event, Callback, respond, ask, effect, abort, with_defaults, track_child,
  ChildExit,
}
use eveboros.Loop.Iface.{or_return, with_context}
use eveboros.Loop.Run.{loop_insert, loop_run_until_empty}
use eveboros.Programs.{IoResult, done, failed}

-- What the program uses of the system: the lines of its input, processes, and its error output, where a
-- message is written or not.
pub record System (World : Type 0) : Type 1 where
  pub Lines : Type 0
  pub next : Lines → Option (IoResult String) × Lines
  pub spawn : String → World → IoResult ℕ × World
  pub exited_with : String → ℕ → World → Bool × World
  pub killed_by : String → ℕ → World → Bool × World

pub record Context (Lines : Type 0) : Type 0 where
  pub errors : Bool
  pub commands : Lines

pub record Runner : Type 0 where
  pub command : Option String

-- `pargs` as the types that the loop works with.
abbrev pub types_of : {World : Type 0} → System World → Type 0 → Type 0 → Type 0 → Types
types_of {World} system Handler Job Idle = record {
  Context = Context system.Lines;
  Ev = Runner;
  Handler = Handler;
  Job = Job;
  Idle = Idle;
  World = World;
}

module _ {World : Type 0} (system : System World) {Handler Job Idle : Type 0} where
  -- The child that was started is registered, and the command kept.
  unfoldable pub started :
      Runner → String → IoResult ℕ → Callback (types_of system Handler Job Idle) Runner
  started r cmd (failed e) = respond r (err (io e))
  started r cmd (done pid) =
      ask (track_child pid) (λ _. respond (record { command = some cmd }) (ok true))

  -- The match on the next command.
  unfoldable pub launch :
      Runner → Option (IoResult String) → Callback (types_of system Handler Job Idle) Runner
  unfolding started
  launch r none = respond r (ok false)
  launch r (some (failed e)) = respond r (err (io e))
  launch r (some (done cmd)) =
      effect (λ w. (system.spawn cmd w).1) (λ w. started r cmd (system.spawn cmd w).0)

  -- `Runner::run`
  unfoldable pub run : Runner → Callback (types_of system Handler Job Idle) Runner
  unfolding launch with_context or_return
  run r =
      with_context
        (λ c. (ok (system.next c.commands).0, record c { commands = (system.next c.commands).1 }))
        (or_return r (launch r))

  -- A message on the error output, and the mark that a command failed.
  unfoldable pub complain :
      Runner → (World → Bool × World) → Callback (types_of system Handler Job Idle) Runner
  unfolding run with_context or_return
  complain r write =
      effect (λ w. (write w).1)
        λ w.
          if (write w).0
          then with_context (λ c. (ok tt, record c { errors = true }))
              (or_return r (λ (_ : Unit {0}). run r))
          else abort

  -- `Runner::child`; `take` has left nothing in the runner.
  unfoldable pub finished : String → ChildExit → Callback (types_of system Handler Job Idle) Runner
  unfolding run complain
  finished cmd (ChildExit.exited zero) = run (record { command = none })
  finished cmd (ChildExit.exited (suc code)) =
      complain (record { command = none }) (system.exited_with cmd (suc code))
  finished cmd (ChildExit.signaled signum) =
      complain (record { command = none }) (system.killed_by cmd signum)

  unfoldable pub runner_child :
      ChildExit → Runner → Callback (types_of system Handler Job Idle) Runner
  unfolding finished
  runner_child exit r = elim r.command [ none ↦ abort | some cmd ↦ finished cmd exit ]

  unfoldable pub runner_event : Event (types_of system Handler Job Idle) Runner
  unfolding run runner_child
  runner_event = record (with_defaults run) { child = λ pid exit r. runner_child exit r }

  module _ (env : Env (types_of system Handler Job Idle)) where
    -- The loop over the number of jobs.
    unfoldable pub insert_runners : ℕ → ℕ → M (Loop (types_of system Handler Job Idle)) (Unit {0})
    insert_runners n zero = λ l. returns tt l
    insert_runners n (suc jobs) = do
      loop_insert env n (record { command = none })
      insert_runners n jobs

    -- The end of the program, by what the runners left in the context.
    unfoldable pub verdict : M (Loop (types_of system Handler Job Idle)) (Unit {0})
    verdict l = if l.context.errors then fails (user_str "A command failed") l else returns tt l

    -- The function `run` of the program, after it has made the loop.
    unfoldable pub pargs : ℕ → Result ℕ → M (Loop (types_of system Handler Job Idle)) (Unit {0})
    unfolding insert_runners verdict
    pargs n num_jobs = do
      jobs ← lift num_jobs
      insert_runners n jobs
      loop_run_until_empty env n
      verdict
