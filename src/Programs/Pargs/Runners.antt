-- ===== src/Programs/Pargs/Runners.antt =====
-- What the runners of src/examples/pargs.rs do when their command ends.
use Prim.Native.String.{String}
use eveboros.Base.{
  ℕ, zero, suc, ◌≡◌, refl, sym, subst, Bool, true, false, ◌||◌, Option, none, some, ◌==◌,
  if◌then◌else◌, lookup, put, List, contains_key, lookup-put, arith, nat_eq, add, ltb,
}
use eveboros.Error.{Result, ok, err, io}
use eveboros.Handle.{Handle}
use eveboros.Outcome.{Outcome, returns, attempt, ◌>>=◌}
use eveboros.Recycler.{view}
use eveboros.Recycler.Invariant.{IsValid, index_mut-Updated}
use eveboros.Loop.{Types, Loop, Env, EvHolder, abort, ChildExit, track_child, Reply}
use eveboros.Loop.Events.{run_script}
use eveboros.Loop.Scope
use eveboros.Loop.Run.{perform, request}
use eveboros.Loop.Iface.{or_return, with_context}
use eveboros.Programs.{IoResult, done, failed}
use eveboros.Programs.Pargs
use eveboros.Programs.Pargs.{
  System, Runner, Context, types_of, started, launch, complain, finished, runner_child,
}

-- A child of an event can be registered: the event is there, and SIGCHLD is one of the signals.
pub record CanTrack {P : Types} (env : Env P) (l : Loop P) (h : Handle) : Type 0 where
  pub valid : IsValid l.events
  pub holder : EvHolder P.Ev
  pub there : view l.events h.id ≡ some holder
  pub known : ltb env.sigchld env.sig_count ≡ true

module _ {P : Types} (env : Env P) (n : ℕ) (h : Handle) (l : Loop P) (can : CanTrack env l h) where
  signal_enable_lem :
      (w' : P.World) × (enabled : ℕ → Bool) × (Scope.signal_enable env env.sigchld l
        ≡ returns tt (record l { world = w'; signals_enabled = enabled }))
  unfolding Scope.signal_enable
  signal_enable_lem = rw can.known (by_flag (l.signals_enabled env.sigchld))
    where
      by_flag :
          (b : Bool)
          → (w' : P.World) × (enabled : ℕ → Bool) × ((if b
                then returns tt l
                else returns tt (record l {
                  world = env.sig_register env.sigchld l.world;
                  signals_enabled = λ s. if s == env.sigchld then true else l.signals_enabled s;
                }))
              ≡ returns tt (record l { world = w'; signals_enabled = enabled }))
      by_flag true = (l.world, l.signals_enabled, refl)
      by_flag false = (_, _, refl)

  -- A child that is not tracked yet is registered.
  track_child_lem :
      (pid : ℕ)
      → contains_key pid l.children ≡ false
      → (l' : Loop P) × (attempt (perform env (suc n) h (track_child pid)) l
          ≡ returns (ok Reply.done) l')
        × (l'.context ≡ l.context)
        × (lookup pid l'.children ≡ some h)
  unfolding perform request attempt Scope.track_child Scope.update_holder ◌>>=◌
  track_child_lem pid new =
      let (e', w, _) =
        index_mut-Updated l.events h.id (λ x. record x { children = add pid x.children }) can.valid
          can.there in
      let here : lookup pid (put pid h l.children) ≡ some h =
        ground (arith, lookup-put pid pid h l.children) in
      let (w', enabled, e) = signal_enable_lem in
      (
        record l {
          world = w';
          signals_enabled = enabled;
          events = e';
          children = put pid h l.children;
        },
        rw (e, new, w) refl,
        refl,
        here,
      )

abbrev pub is_failure : ChildExit → Bool
is_failure (ChildExit.exited zero) = false
is_failure (ChildExit.exited (suc code)) = true
is_failure (ChildExit.signaled signum) = true

module _ {World : Type 0} (system : System World) {Handler Job Idle : Type 0}
    (env : Env (types_of system Handler Job Idle)) (n : ℕ) (h : Handle) where
  -- How a runner goes on, by what the start of its command answered: it passes on the error, or stays with
  -- the command, while the loop tracks just the child that was started.
  abbrev pub StartedAs :
      String
      → Runner
      → IoResult ℕ
      → Runner
      → Result Bool
      → Loop (types_of system Handler Job Idle)
      → Type 0
  StartedAs cmd before (failed e) r resp l = (resp ≡ err (io e)) × (r ≡ before)
  StartedAs cmd before (done pid) r resp l =
      (resp ≡ ok true) × (r ≡ record { command = some cmd }) × (lookup pid l.children ≡ some h)

  -- How a runner goes on, by the next line of the input and the world in which it starts a command: it ends
  -- when there is no line, passes on an error of the input, and otherwise goes by the start of the command.
  abbrev pub GoesOn :
      Option (IoResult String)
      → World
      → Runner
      → Runner
      → Result Bool
      → Loop (types_of system Handler Job Idle)
      → Type 0
  GoesOn none w before r resp l = (resp ≡ ok false) × (r ≡ before)
  GoesOn (some (failed e)) w before r resp l = (resp ≡ err (io e)) × (r ≡ before)
  GoesOn (some (done cmd)) w before r resp l = StartedAs cmd before (system.spawn cmd w).0 r resp l

  -- A process that is started is none that the loop tracks already.
  abbrev pub Fresh : Option (IoResult String) → World → List (ℕ × Handle) → Type 0
  Fresh (some (done cmd)) w children =
      (pid : ℕ) → (system.spawn cmd w).0 ≡ done pid → contains_key pid children ≡ false
  Fresh _ w children = Unit {0}

  -- The callback returns, with the context as given, and goes on.
  abbrev pub Ends :
      Option (IoResult String)
      → World
      → Runner
      → Context system.Lines
      → Outcome (Loop (types_of system Handler Job Idle)) (Runner × Result Bool)
      → Type 0
  Ends next w before context o =
      (r : Runner) × (resp : Result Bool) × (l' : Loop (types_of system Handler Job Idle)) × (o
        ≡ returns (r, resp) l')
      × (l'.context ≡ context)
      × GoesOn next w before r resp l'

  started-Ends :
      (r : Runner) (cmd : String) (o : IoResult ℕ) (l : Loop (types_of system Handler Job Idle))
      → CanTrack env l h
      → ((pid : ℕ) → o ≡ done pid → contains_key pid l.children ≡ false)
      → (r' : Runner) × (resp : Result Bool) × (l' : Loop (types_of system Handler Job Idle))
        × (run_script (perform env (suc n) h) (started system r cmd o) l ≡ returns (r', resp) l')
        × (l'.context ≡ l.context)
        × StartedAs cmd r o r' resp l'
  unfolding started run_script ◌>>=◌
  started-Ends r cmd (failed e) l can new = (r, err (io e), l, refl, refl, (refl, refl))
  started-Ends r cmd (done pid) l can new =
      let (l', e, same, tracked) = track_child_lem env n h l can pid (new pid refl) in
      (record { command = some cmd }, ok true, l', rw e refl, same, (refl, refl, tracked))

  launch-Ends :
      (r : Runner) (next : Option (IoResult String)) (l : Loop (types_of system Handler Job Idle))
      → CanTrack env l h
      → Fresh next l.world l.children
      → Ends next l.world r l.context (run_script (perform env (suc n) h) (launch system r next) l)
  unfolding launch run_script
  launch-Ends r none l can fresh = (r, ok false, l, refl, refl, (refl, refl))
  launch-Ends r (some (failed e)) l can fresh = (r, err (io e), l, refl, refl, (refl, refl))
  launch-Ends r (some (done cmd)) l can fresh =
      started-Ends r cmd (system.spawn cmd l.world).0
        (record l { world = (system.spawn cmd l.world).1 })
        (record { valid = can.valid; holder = can.holder; there = can.there; known = can.known })
        fresh

  run-Ends :
      (r : Runner) (l : Loop (types_of system Handler Job Idle))
      → CanTrack env l h
      → Fresh (system.next l.context.commands).0 l.world l.children
      → Ends
          (system.next l.context.commands).0
          l.world
          r
          (record l.context { commands = (system.next l.context.commands).1 })
          (run_script (perform env (suc n) h) (Pargs.run system r) l)
  unfolding Pargs.run with_context or_return run_script
  run-Ends r l can fresh =
      launch-Ends r (system.next l.context.commands).0
        (record l { context = record l.context { commands = (system.next l.context.commands).1 } })
        (record { valid = can.valid; holder = can.holder; there = can.there; known = can.known })
        fresh

  -- What the end of a command makes the runner write, if anything.
  abbrev pub noticed : ChildExit → String → World → Bool × World
  noticed (ChildExit.exited zero) cmd w = (true, w)
  noticed (ChildExit.exited (suc code)) cmd w = system.exited_with cmd (suc code) w
  noticed (ChildExit.signaled signum) cmd w = system.killed_by cmd signum w

  complain-Ends :
      (r : Runner) (write : World → Bool × World) (l : Loop (types_of system Handler Job Idle))
      → CanTrack env l h
      → (write l.world).0 ≡ true
      → Fresh (system.next l.context.commands).0 (write l.world).1 l.children
      → Ends
          (system.next l.context.commands).0
          (write l.world).1
          r
          (record { errors = true; commands = (system.next l.context.commands).1 })
          (run_script (perform env (suc n) h) (complain system r write) l)
  unfolding complain with_context or_return run_script
  complain-Ends r write l can written fresh =
      subst
        (λ b.
          Ends (system.next l.context.commands).0 (write l.world).1 r
            (record { errors = true; commands = (system.next l.context.commands).1 })
            (run_script (perform env (suc n) h)
              (if b
                then with_context (λ c. (ok tt, record c { errors = true }))
                    (or_return r (λ (_ : Unit {0}). Pargs.run system r))
                else abort)
              (record l { world = (write l.world).1 })))
        (sym written)
        (run-Ends r
          (record l { context = record l.context { errors = true }; world = (write l.world).1 })
          (record { valid = can.valid; holder = can.holder; there = can.there; known = can.known })
          fresh)

  -- When the command of a runner ends and its message, if there is one, can be written, the callback does not
  -- panic. That a command failed is noted in the context and never forgotten, exactly one more line is read
  -- from the input, and the runner goes on by this line: with none it ends, an error of the input is passed
  -- on, and else the command is started, in the world as the message left it. If that fails, its error is
  -- passed on; if it answers a process, the callback answers to go on, the runner stays with that command,
  -- and the loop tracks that very process for it. In the other cases the runner has no command. This takes it that the
  -- event is in the loop and that a new process is not one that the loop still tracks.
  pub runner_child-Ends :
      (exit : ChildExit) (cmd : String) (l : Loop (types_of system Handler Job Idle))
      → CanTrack env l h
      → (noticed exit cmd l.world).0 ≡ true
      → Fresh (system.next l.context.commands).0 (noticed exit cmd l.world).1 l.children
      → Ends
          (system.next l.context.commands).0
          (noticed exit cmd l.world).1
          (record { command = none })
          (record {
            errors = l.context.errors || is_failure exit;
            commands = (system.next l.context.commands).1;
          })
          (run_script
            (perform env (suc n) h)
            (runner_child system exit (record { command = some cmd }))
            l)
  unfolding runner_child finished
  runner_child-Ends (ChildExit.exited zero) cmd l can written fresh =
      let same : (l.context.errors || false) ≡ l.context.errors = ground arith in
      rw same (run-Ends (record { command = none }) l can fresh)
  runner_child-Ends (ChildExit.exited (suc code)) cmd l can written fresh =
      let noted : (l.context.errors || true) ≡ true = ground arith in
      rw noted (
        complain-Ends (record { command = none }) (system.exited_with cmd (suc code)) l can written
          fresh)
  runner_child-Ends (ChildExit.signaled signum) cmd l can written fresh =
      let noted : (l.context.errors || true) ≡ true = ground arith in
      rw noted (
        complain-Ends (record { command = none }) (system.killed_by cmd signum) l can written fresh)
