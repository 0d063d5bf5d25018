-- ===== src/Loop/Examples.antt =====
-- A small program for the loop: a few kinds of events, a world that is a counter, and short runs of the
-- loop of src/core.rs over them.
pub mod Scenario
pub mod Runs
pub mod Tables
pub mod Parts
pub mod Whole
pub mod Quiet
pub mod Letters
pub mod Suite
use eveboros.Base.{
  ℕ, zero, suc, ◌+◌, ◌≡◌, refl, Bool, true, false, not, Option, none, some, List, [], ◌∷◌, ◌++◌,
  ◌==◌, ◌||◌, if◌then◌else◌, lookup, without, put, contains_key, member, add, remove, is_nil,
}
use eveboros.Recycler
use eveboros.StolenCell
use eveboros.Loop.Events
use eveboros.Loop.Timers
use eveboros.Loop.Gather
use eveboros.Loop.Scope
use eveboros.Loop.Run
use eveboros.Error.{Error, Result, ok, err, IoError, user}
use eveboros.Any.{Any, Ty, nominal, box}
use eveboros.Handle.{Handle, handle_eq, IoId, BackgroundId}
use eveboros.Message.{RemoteMessage}
use eveboros.Recycler.{Block}
use eveboros.Outcome.{Outcome, returns, fails, ◌>>=◌, or_panic, attempt}
use eveboros.Loop.{
  Event, react, io_ready, signal, child, idle, Types, Loop, Env, new, IoHolder, TaskParam, timeout,
  message, Op, insert_exact, timeout_at, expect_message, want_idle, stop, io_register_any,
  io_remove, Reply, of_io, Script, respond, ask, MioEvent, PollAnswer, polled, WaitAnswer, status,
  still_alive,
}

abbrev pub types : Types
types = record { Context = ℕ; Ev = ℕ; Handler = ℕ; Job = ℕ; Idle = List Handle; World = ℕ }

abbrev pub greeting : Ty
greeting = nominal 7

-- 1 inserts another event, 2 waits for a timeout and for messages, 3 and 6 wait for idle time, 4 watches
-- an IO.
abbrev pub init_of : ℕ → Script types
init_of ev =
    if ev == 1
    then ask (insert_exact 0) (λ _. respond ev (ok true))
    else if ev == 2
    then ask (timeout_at 5) (λ _. ask (expect_message greeting) (λ _. respond ev (ok true)))
    else if (ev == 3) || (ev == 6)
    then ask want_idle (λ _. respond ev (ok true))
    else if ev == 4
    then ask
        (io_register_any
          (record { recipient = record { id = 0; generation = 0 }; io = box greeting 1 }) 1 0)
        (λ _. respond ev (ok true))
    else respond ev (ok true)

-- An event that is called ends; 4 removes its IO and stays, 6 stops the loop and stays, 5 fails.
abbrev pub react_to : TaskParam → ℕ → Script types
react_to param ev =
    if ev == 4
    then ask (io_remove (record { token = 2 })) (λ _. respond ev (ok true))
    else if ev == 6
    then ask stop (λ _. respond ev (ok true))
    else if ev == 5
    then respond ev (err (user none))
    else respond ev (ok false)

abbrev pub event_of : Event types ℕ
event_of = record {
  init = init_of;
  io = λ id ready. react_to (io_ready id ready);
  timeout = λ id. react_to (timeout id);
  signal = λ signum. react_to (signal signum);
  idle = react_to idle;
  message = λ m. react_to (message m);
  child = λ pid exit. react_to (child pid exit);
}

abbrev pub pop_first : List Handle → Option (Handle × List Handle)
pop_first [] = none
pop_first (h ∷ hs) = some (h, hs)

-- `capacity` is what the allocator grants, `events` what the poll reports.
abbrev pub env_of : ℕ → List MioEvent → Env types
env_of capacity events = record {
  event = event_of;
  handle_error = λ h ev e. (err e, h);
  pass_through = 0;
  idle_new = [];
  idle_is_empty = is_nil;
  idle_insert = λ h hs. remove h hs ++ h ∷ [];
  idle_remove = remove;
  idle_pop_front = pop_first;
  register = λ io token interest opts w. (none, w);
  reregister = λ io token interest opts w. (none, w);
  deregister = λ io w. (none, w);
  poll = λ wakeup w. (polled events, w);
  receive = λ w. ([], w);
  clear_wakeup = λ w. w;
  sig_count = 3;
  sigchld = 2;
  swap_flag = λ s w. (false, w);
  sig_register = λ s w. w;
  from_c_int = λ s. none;
  waits = λ w. (status still_alive ∷ [], w);
  set_threads = λ n w. w;
  execute = λ id job w. w;
  instant_now = λ w. (w, w + 3);
  fresh_block = λ w. (record { buffer = w; capacity = capacity }, suc w);
}

abbrev pub roomy : Env types
roomy = env_of 8 []

-- A freshly made loop.
abbrev pub start : Env types → Loop types
start env = new env 0 0

-- The state in which a run ends, and what it returns, or what is given for a run that does not end so.
abbrev pub state_of : {A : Type 0} → Loop types → Outcome (Loop types) A → Loop types
state_of l (returns a l') = l'
state_of l (fails e l') = l'
state_of l _ = l

abbrev pub value_of : {A : Type 0} → A → Outcome (Loop types) A → A
value_of a (returns b l) = b
value_of a _ = a

-- What a run of the loop computes with, for the `unfolding` lines of runs.
unfoldable pub running : Unit {0}
unfolding new Recycler.new Recycler.store Recycler.release Recycler.valid Recycler.len
    Recycler.is_empty Recycler.index Recycler.index_mut StolenCell.into_inner StolenCell.steal
    StolenCell.unsteal lookup without put contains_key member add remove ◌>>=◌ or_panic attempt
    Events.outside Events.run_script Events.steal_event Events.unsteal_event Events.msg_type_check
    Events.release_ios Events.forget_children Events.bury Events.event_kill Events.report
    Events.conclude Events.perform_call Events.call_found Events.event_call Events.store_event
    Events.insert_exact Events.send_impl_sender Events.post_impl_sender Timers.alive_in
    Timers.push_timeout Timers.drop_dead Timers.keep_alive Timers.due Timers.not_due
    Timers.timeout_at Timers.timeout_min Timers.prune Timers.timers_cleanup
    Timers.tasks_gather_timers Gather.tasks_gather Gather.drain_released Gather.after_poll
    Gather.tasks_gather_io Gather.take_event Gather.take_io Gather.schedule_idle Scope.update_holder
    Scope.expect_message Scope.io_idx Scope.io_at Scope.want_idle Scope.io_register_any
    Scope.finish_register Scope.io_remove Run.count_fired Run.run_io Run.run_timeout Run.run_task
    Run.pick_task Run.run_next Run.check_deadlock Run.wait_round Run.wait_for Run.active_round
    Run.run_active Run.run_loop Run.request Run.perform Run.loop_insert Run.loop_run_one
    Run.loop_run Run.loop_run_until_complete Run.forgive_empty Run.run_until_empty
    Run.loop_run_until_empty
running = tt
