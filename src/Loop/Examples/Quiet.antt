-- ===== src/Loop/Examples/Quiet.antt =====
-- The surroundings of a loop in which nothing happens, to start examples from: the poll reports no event,
-- no signal and no child, and the clock stands still.
use eveboros.Base.{◌++◌, false, none, List, [], ◌∷◌, is_nil, remove}
use eveboros.Error.{Error, Result}
use eveboros.Handle.{Handle, handle_eq}
use eveboros.Loop.{Types, Env, Event, polled, status, still_alive}
use eveboros.Loop.Examples.{pop_first}

abbrev pub quiet_types : Type 0 → Type 0 → Type 0 → Type 0 → Types
quiet_types Context Ev Handler World = record {
  Context = Context;
  Ev = Ev;
  Handler = Handler;
  Job = Unit {0};
  Idle = List Handle;
  World = World;
}

abbrev pub quiet :
    {Context Ev Handler World : Type 0}
    → Event (quiet_types Context Ev Handler World) Ev
    → (Handler → Ev → Error → Result (Unit {0}) × Handler)
    → Handler
    → Env (quiet_types Context Ev Handler World)
quiet event handle_error pass_through = record {
  event = event;
  handle_error = handle_error;
  pass_through = pass_through;
  idle_new = [];
  idle_is_empty = is_nil;
  idle_insert = λ h hs. remove h hs ++ h ∷ [];
  idle_remove = remove;
  idle_pop_front = pop_first;
  register = λ io token interest opts w. (none, w);
  reregister = λ io token interest opts w. (none, w);
  deregister = λ io w. (none, w);
  poll = λ wakeup w. (polled [], w);
  receive = λ w. ([], w);
  clear_wakeup = λ w. w;
  sig_count = 3;
  sigchld = 2;
  swap_flag = λ s w. (false, w);
  sig_register = λ s w. w;
  from_c_int = λ s. none;
  waits = λ w. (status still_alive ∷ [], w);
  set_threads = λ n w. w;
  execute = λ id job w. w;
  instant_now = λ w. (0, w);
  fresh_block = λ w. (record { buffer = 1; capacity = 8 }, w);
}
