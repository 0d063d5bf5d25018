-- ===== src/Loop/Examples/Suite/Outside.antt =====
-- The surroundings of the tests of src/core.rs that need another thread, a thread pool or a socket:
-- what the thread and the pool send is there before the loop polls, and a socket that somebody has
-- connected to is readable.
use eveboros.Base.{
  ℕ, Bool, true, false, none, List, [], ◌∷◌, ◌++◌, ◌==◌, if◌then◌else◌, is_nil, remove,
}
use eveboros.Error.{ok, err}
use eveboros.Any.{Ty, nominal}
use eveboros.Handle.{Handle, handle_eq, BackgroundId, channel_tok}
use eveboros.Message.{
  RemoteMessage, SendAnswer, sent, finished, panicked, run_background, run_background_iter,
}
use eveboros.Outcome.{Outcome, returns, fails, panic, out_of_fuel}
use eveboros.Loop.{Types, Loop, Env, Event, new, polled, status, still_alive, MioEvent}
use eveboros.Loop.Examples.{pop_first}

-- A task for the pool, with its requestor: 0 panics, 1 returns 42 of the type `u8`, and 2 is an
-- iterator over three items `()`.
pub record Work : Type 0 where
  pub requestor : Handle
  pub task : ℕ

-- The channel of the loop, how often the other thread got an answer, the token of the registered
-- socket, how often somebody has connected to it, and how many greetings were written.
pub record Surroundings : Type 0 where
  pub queue : List RemoteMessage
  pub answered : ℕ
  pub socket : ℕ
  pub connected : ℕ
  pub greeted : ℕ

abbrev pub nothing : Ty
nothing = nominal 0

abbrev pub byte : Ty
byte = nominal 1

abbrev pub done_by : BackgroundId → Work → List RemoteMessage
done_by id work =
    if work.task == 0
    then run_background work.requestor nothing id panicked
    else if work.task == 1
    then run_background work.requestor byte id (finished (ok 42))
    else run_background_iter work.requestor nothing id
        (finished (ok (record { items = 0 ∷ 0 ∷ 0 ∷ []; ends = true })))

abbrev pub Around : Type 0 → Type 0 → Types
Around Context E = record {
  Context = Context;
  Ev = E;
  Handler = Unit {0};
  Job = Work;
  Idle = List Handle;
  World = Surroundings;
}

-- What the poll reports of the channel, and of the socket.
abbrev pub ready_channel : Surroundings → List MioEvent
ready_channel w = if is_nil w.queue then [] else record { token = channel_tok; kind = 1 } ∷ []

abbrev pub ready_socket : Surroundings → List MioEvent
ready_socket w = if w.connected == 0 then [] else record { token = w.socket; kind = 1 } ∷ []

abbrev pub queue_up : RemoteMessage → Surroundings → SendAnswer × Surroundings
queue_up m w = (sent, record w { queue = w.queue ++ m ∷ [] })

module _ {Context E : Type 0} where
  abbrev pub around : Event (Around Context E) E → Env (Around Context E)
  around event = record {
    event = event;
    handle_error = λ h ev e. (err e, h);
    pass_through = tt;
    idle_new = [];
    idle_is_empty = is_nil;
    idle_insert = λ h hs. remove h hs ++ h ∷ [];
    idle_remove = remove;
    idle_pop_front = pop_first;
    register = λ io token interest opts w. (none, record w { socket = token });
    reregister = λ io token interest opts w. (none, w);
    deregister = λ io w. (none, w);
    poll = λ wakeup w. (polled (ready_channel w ++ ready_socket w), w);
    receive = λ w. (w.queue, record w { queue = [] });
    clear_wakeup = λ w. w;
    sig_count = 3;
    sigchld = 2;
    swap_flag = λ s w. (false, w);
    sig_register = λ s w. w;
    from_c_int = λ s. none;
    waits = λ w. (status still_alive ∷ [], w);
    set_threads = λ n w. w;
    execute = λ id work w. record w { queue = w.queue ++ done_by id work };
    instant_now = λ w. (0, w);
    fresh_block = λ w. (record { buffer = 1; capacity = 8 }, w);
  }

  -- The test ran to its end, with no assertion failing.
  abbrev pub passes : Outcome (Loop (Around Context E)) (Unit {0}) → Bool
  passes (returns a l) = true
  passes (fails e l) = false
  passes panic = false
  passes out_of_fuel = false

  abbrev pub fresh : Event (Around Context E) E → Context → Loop (Around Context E)
  fresh event context =
      new (around event) context
        (record { queue = []; answered = 0; socket = 0; connected = 0; greeted = 0 })
