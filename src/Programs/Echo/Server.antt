-- ===== src/Programs/Echo/Server.antt =====
-- The events of src/examples/echo.rs in one loop, and the program itself.
use eveboros.Base.{ℕ}
use eveboros.Error.{Error, Result, ok, err}
use eveboros.Outcome.{M, lift, modify, ◌>>=◌, ◌>>◌}
use eveboros.Loop.{Types, Loop, Env, Event, error_handler_set}
use eveboros.Loop.Run.{loop_insert, loop_run}
use eveboros.Adapt.{Choice, from, combined}
use eveboros.Programs.Echo.{
  Net, Listener, Connection, Shutdown, shutdown_event, listener_event, connection_event,
}

-- The variants of `AllEvents`.
pub data Variant : Type 0 where
  s l c : Variant

abbrev pub Inside : Variant → Type 0
Inside s = Shutdown
Inside l = Listener
Inside c = Connection

abbrev pub AllEvents : Type 0
AllEvents = Choice Inside

-- The error handlers: the one that a loop starts with, and that of this program, which drops connections
-- and passes other errors on.
pub data Handler : Type 0 where
  pass_through : Handler
  drop_connections : Handler

abbrev pub handle_error : Handler → AllEvents → Error → Result (Unit {0}) × Handler
handle_error pass_through ev e = (err e, pass_through)
handle_error drop_connections ev e = elim ev.name [
  | c ↦ (ok tt, drop_connections)
  | s ↦ (err e, drop_connections)
  | l ↦ (err e, drop_connections)
]

abbrev pub types_of : Type 0 → Type 0 → Type 0 → Types
types_of Job Idle World = record {
  Context = Unit {0};
  Ev = AllEvents;
  Handler = Handler;
  Job = Job;
  Idle = Idle;
  World = World;
}

module _ {Job Idle World : Type 0} (net : Net World) where
  abbrev pub events : (v : Variant) → Event (types_of Job Idle World) (Inside v)
  events s = shutdown_event net
  events l = listener_event net (from c)
  events c = connection_event net

  -- The surroundings with the callbacks and handlers of the program.
  abbrev pub serving : Env (types_of Job Idle World) → Env (types_of Job Idle World)
  serving env = record env {
    event = combined events;
    handle_error = handle_error;
    pass_through = pass_through;
  }

  -- The function `run` of the program, after it has made the loop; `address` is what the port on the command
  -- line gives.
  unfoldable pub echo :
      Env (types_of Job Idle World) → ℕ → Result ℕ → M (Loop (types_of Job Idle World)) (Unit {0})
  unfolding loop_insert
  echo env n address = do
    at ← lift address
    loop_insert (serving env) n (from s (record {}))
    loop_insert (serving env) n (from l (record { address = at }))
    modify (λ l. error_handler_set drop_connections l)
    loop_run (serving env) n
