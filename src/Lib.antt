-- ===== src/Lib.antt =====
-- Verification of eveboros, an event loop over mio: events live in a loop, ask their scope for
-- timeouts, messages, IOs, signals, children, idle time and background tasks, and are called back
-- when what they wait for happens.
--
-- The parts and their files. Names are those of the code; where a function of the code is long, the
-- model has a definition for each stage of it, with the whole under the function's own name.
--   * src/recycler.rs, the slots that hold events and IO registrations: Recycler.antt. The laws, with
--     `view` as the finite map that a recycler stands for, are in Recycler/Invariant.antt.
--   * src/stolen_cell.rs, the cell that lends its content out by a raw pointer: StolenCell.antt. An
--     address is a memory block and an index in it; a vector that grows beyond its capacity moves to
--     the block that the allocator hands out.
--   * src/error.rs: Error.antt. `Box<Any>`: Any.antt. The identifiers of src/lib.rs: Handle.antt.
--   * Messages, channels and background tasks of src/core.rs: Message.antt, Message/Get.antt and
--     Message/Background.antt; Loop/Gather/Channel.antt follows a value from `Channel::send` in another
--     thread to `Message::get`.
--   * The state of the loop (`Loop`, `EvHolder`, `Task`, `TimeoutHolder` in src/core.rs), what a
--     callback may ask for (`Op`, the methods of `LoopIfaceObjSafe` and `ScopeObjSafe`), and what lies
--     outside (`Env`): Loop.antt.
--   * `event_call`, `event_kill`, `insert_exact`, `send` and `post`: Loop/Events.antt.
--   * The heap of timeouts: Loop/Timers.antt.
--   * `tasks_gather` and its parts: Loop/Gather.antt.
--   * The scope of a callback (`LoopScope`): Loop/Scope.antt.
--   * `run_one`, `run_until_complete`, `run`, `run_until_empty`: Loop/Run.antt, with `perform`, the
--     scope that ties callbacks and run loops together.
--   * src/signal_dispatch.rs, the process-wide table of signals: Signals.antt, with its laws in
--     Signals/Dispatch.antt. The threads that take its mutex, in `register` or in a handler that
--     interrupts, are steps of Signals/Threads.antt; the flags and the wake-up channel between
--     the handlers and a loop are those of Signals/Wakeup.antt. The loop reaches it through the field `sig_register` of `Env`, and the flags
--     through `swap_flag`.
--   * The trait `Event` of src/core.rs, with its default callbacks: Loop.antt. A loop gets its type of
--     events as the field `event` of `Env`; `react` is the dispatch of `run_one` on the task.
--   * src/adapt.rs, events composed of events, statically by `combined!` or dynamically by trait objects
--     and `DynScope`: Adapt.antt, with the laws in Adapt/Dispatch.antt and Adapt/Dynamic.antt.
--   * Loop/Keeps.antt is the interface for invariants: a condition that each operation keeps (`Rules`)
--     is carried through callbacks that nest to any depth and through all run loops. Loop/Local.antt is
--     the narrower one for conditions on the tables of the loop: what each elementary change of a table
--     has to keep; Loop/Local/Calls.antt makes `Rules` of it. Loop/Held.antt and Loop/Sound.antt use it.
--   * The methods with a body of `LoopIface`, `ScopeObjSafe` and `Scope`, as code of callbacks:
--     Loop/Iface.antt.
--   * examples/echo.rs: Programs/Echo.antt, with the events in one loop and the program itself in
--     Programs/Echo/Server.antt. examples/pargs.rs: Programs/Pargs.antt.
--   * Tests of src/core.rs: Loop/Examples/Suite.antt and below; those of src/adapt.rs: Adapt/Examples.antt;
--     those of src/recycler.rs: Recycler/Suite.antt; that of src/signal_dispatch.rs: Signals/Suite.antt;
--     tests/signal-handling.rs: Programs/Handling.antt.
--   * Loop/Owner.antt: the calls of the owner of a loop, and the states that they lead to.
--   * Examples modules: small programs, and each theorem at a concrete one.
--
-- How the code is rendered. Stateful code is a function on the loop's state with an `Outcome`: it
-- returns, fails with an error (both with the state reached), or panics. Subtractions of `usize` are
-- checked, and panic below 0 as in a debug build; the counts of timeouts (`timeouts` of an event,
-- `timeouts_inserted`, `timeouts_dead`, `timeouts_fired`) are taken not to reach 2 ^ 64. The `Wrapping`
-- counters wrap at 2 ^ 64. A callback is a `Callback`:
-- it reads and writes the context, asks its scope, looks at the answers, acts on what is outside
-- of the loop, and ends with the event and its response, or with a panic. The binary heap is the
-- list of its elements in the order in which they are popped, where equal instants keep the order
-- of insertion, of which std says nothing; hash maps and sets are lists. The error handler of the loop is a
-- function of its own state that neither panics nor acts on what is outside, and the registration of a
-- signal (`sig_register`) is taken not to panic, where the code unwraps the answer of `sigaction`; in
-- Signals.antt that panic is modelled. Exit codes are natural numbers, so a negative one has no image.
--
-- Fuel. `perform` counts the nesting of callbacks, the run loops count their rounds. A loop that
-- waits for events that never happen does not end in the code either, so no fuel is enough for all
-- runs; `out_of_fuel` is a run that has not ended yet, it is never an error or a result of the
-- code, and no handler of the model catches it. Outcome/Below.antt orders runs by their fuel, and
-- Loop/Run/Fuel.antt and Loop/Run/Settled.antt compare runs of the loop with different fuel. The
-- loops over finite data (heap, queues, signals) have no fuel.
--
-- Threads. A step relation has a constructor for each access that one thread makes to what is
-- shared, and a run is any sequence of steps. A mutex that the thread has itself is waited for (std
-- says only that such a `lock` does not return). The other tables of a loop are used by one thread.
--
-- Not modelled: the command lines of the examples, the texts of foreign errors, and the crates that the code calls
-- (mio, nix, threadpool, linked_hash_map, the clock, the allocator), which are the fields of
-- `Env`, with no assumption on them unless a theorem states one.
pub mod Base
pub mod Error
pub mod Any
pub mod Outcome
pub mod StolenCell
pub mod Handle
pub mod Message
pub mod Recycler
pub mod Signals
pub mod Loop
pub mod Adapt
pub mod Programs
