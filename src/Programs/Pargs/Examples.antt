-- ===== src/Programs/Pargs/Examples.antt =====
-- A run of src/examples/pargs.rs, and the theorem on its runners at one of them.
use eveboros.Base.{
  count, get_elem?, ℕ, zero, suc, ◌≡◌, refl, true, false, Option, none, some, List, [], ◌∷◌, ◌==◌,
  nat_eq,
}
use Prim.Native.String.{String}
use eveboros.Error.{Result, ok, err, user_str}
use eveboros.Handle.{Handle}
use eveboros.Outcome.{Outcome, returns, fails}
use eveboros.Loop.{Loop, Env, EvHolder, polled, new, WaitStatus, status, still_alive, ChildExit}
use eveboros.Loop.Iface
use eveboros.Loop.Events.{run_script}
use eveboros.Loop.Run.{perform}
use eveboros.Loop.Gather
use eveboros.Loop.Scope
use eveboros.Loop.Examples.{running}
use eveboros.Loop.Examples.Quiet.{quiet}
use eveboros.Programs.{done}
use eveboros.Programs.Pargs
use eveboros.Programs.Pargs.Runners.{CanTrack, Ends, runner_child-Ends}
use eveboros.Recycler.Slots.{vacant}
use eveboros.Programs.Pargs.{System, Runner, pargs, runner_event}

abbrev client : Handle
client = record { id = 0; generation = 0 }

-- A system whose input has these lines, which numbers its processes.
abbrev system : System ℕ
system = record {
  Lines = List String;
  next = λ lines. elim lines [ [] ↦ (none, []) | cmd ∷ rest ↦ (some (done cmd), rest) ];
  spawn = λ cmd w. (done w, suc w);
  exited_with = λ cmd code w. (true, w);
  killed_by = λ cmd signum w. (true, w);
}

abbrev jobs_env : Env (Pargs.types_of system (Unit {0}) (Unit {0}) (List Handle))
jobs_env = record (quiet {World = ℕ} (runner_event system) (λ h r e. (err e, h)) tt) {
  poll = λ wakeup w. (polled (record { token = 1; kind = 1 } ∷ []), w);
  swap_flag = λ s w. (s == 2, w);
  waits = λ w. (
    status (WaitStatus.exited 0 0)
        ∷ status (WaitStatus.exited 1 0)
        ∷ status (WaitStatus.exited 2 1)
        ∷ status still_alive
        ∷ [],
    w,
  );
}

abbrev launched :
    {A : Type 0}
    → Outcome (Loop (Pargs.types_of system (Unit {0}) (Unit {0}) (List Handle))) A
    → Option (Result (Unit {0}) × ℕ)
launched (returns a l) = some (ok tt, l.world)
launched (fails e l) = some (err e, l.world)
launched _ = none

-- Two runners run three commands; the third one fails, and so does the program.
pargs_lem :
    launched (
      pargs system jobs_env 20
        (ok 2)
        (new jobs_env (record { errors = false; commands = "a" ∷ "b" ∷ "c" ∷ [] }) 0))
    ≡ some (err (user_str "A command failed"), 3)
unfolding running pargs Pargs.insert_runners Pargs.verdict Pargs.runner_event Pargs.runner_child
    Pargs.finished Pargs.complain Pargs.run Pargs.launch Pargs.started Iface.or_return
    Iface.with_context Scope.signal_enable Scope.track_child Gather.take_flags Gather.take_signals
    Gather.take_signal Gather.check_signal Gather.children_gather Gather.reap Gather.push_child
    Gather.push_found Gather.release_child
pargs_lem = refl

-- A loop with one runner, whose command has ended.
abbrev runner_holder : EvHolder Runner
runner_holder = record {
  event = record { content = record { command = some "a" }; stolen = true };
  generation = 0;
  timeouts = 0;
  ios = [];
  expected_messages = [];
  children = [];
}

abbrev jobs_loop : Loop (Pargs.types_of system (Unit {0}) (Unit {0}) (List Handle))
jobs_loop = record (new jobs_env (record { errors = false; commands = "b" ∷ [] }) 1) {
  events = record {
    slots = some runner_holder ∷ [];
    free = [];
    block = record { buffer = 1; capacity = 8 };
  };
}

jobs_free : (i : ℕ) → count i [] ≡ vacant (get_elem? jobs_loop.events.slots i)
jobs_free zero = refl
jobs_free (suc i) = refl

can_track : CanTrack jobs_env jobs_loop client
can_track = record {
  valid = record { free_once = jobs_free; free_size = refl };
  holder = runner_holder;
  there = refl;
  known = refl;
}

runner_child_example :
    Ends system jobs_env 5 client
      (some (done "b"))
      (system.exited_with "a" 1 1).1
      (record { command = none })
      (record { errors = true; commands = [] })
      (run_script
        (perform jobs_env 6 client)
        (Pargs.runner_child system (ChildExit.exited 1) (record { command = some "a" }))
        jobs_loop)
unfolding running
runner_child_example =
    runner_child-Ends system jobs_env 5 client (ChildExit.exited 1) "a" jobs_loop can_track refl
      (λ pid started. refl)
