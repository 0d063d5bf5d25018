-- ===== src/Programs/Handling.antt =====
-- tests/signal-handling.rs: signals and children of the process reach the events that wait for them. A
-- signal that is raised is handled at once, and a forked child has exited before the loop polls.
use eveboros.Base.{
  ℕ, zero, suc, ◌+◌, ◌≡◌, refl, Bool, true, false, none, List, [], ◌∷◌, ◌++◌, ◌==◌, if◌then◌else◌,
  ltb, is_nil, remove, map,
}
use eveboros.Error.{ok, err, sys, echild}
use eveboros.Handle.{Handle, handle_eq, signal_tok}
use eveboros.Outcome.{Outcome, returns, fails, panic, out_of_fuel, M, assert, modify, ◌>>=◌, ◌>>◌}
use eveboros.Recycler
use eveboros.Loop.Timers
use eveboros.Loop.Scope
use eveboros.Loop.{
  Types, Loop, Env, Event, respond, ask, abort, with_defaults, want_signal, track_child, ChildExit,
  new, polled, WaitAnswer, WaitStatus, status, wait_error,
}
use eveboros.Loop.Run.{loop_insert, loop_run_one, loop_run_until_complete}
use eveboros.Loop.Examples.{running, pop_first}

abbrev sigusr1 : ℕ
sigusr1 = 10

abbrev sigusr2 : ℕ
sigusr2 = 12

abbrev sigchld : ℕ
sigchld = 17

-- The signals that the dispatcher of the process knows the loop for, the flags and the channel of the
-- loop, the children that nobody has waited for, and the next process id.
record Outer : Type 0 where
  known : ℕ → Bool
  flags : ℕ → Bool
  wakeup : Bool
  zombies : List ℕ
  next_pid : ℕ

abbrev at_start : Outer
at_start = record {
  known = λ _. false;
  flags = λ _. false;
  wakeup = false;
  zombies = [];
  next_pid = 100;
}

-- `raise(signal)`, with the handler if there is one.
abbrev raised : ℕ → Outer → Outer
raised signal w =
    if w.known signal
    then record w { flags = λ s. if s == signal then true else w.flags s; wakeup = true }
    else w

-- `fork_child`
abbrev forked : Outer → ℕ × Outer
forked w = (
  w.next_pid,
  raised sigchld (record w { zombies = w.zombies ++ w.next_pid ∷ []; next_pid = w.next_pid + 1 }),
)

abbrev exit_answer : ℕ → WaitAnswer
exit_answer pid = status (WaitStatus.exited pid 42)

abbrev Handling : Type 0 → Types
Handling E = record {
  Context = Unit {0};
  Ev = E;
  Handler = Unit {0};
  Job = Unit {0};
  Idle = List Handle;
  World = Outer;
}

module _ {E : Type 0} where
  abbrev handling : Event (Handling E) E → Env (Handling E)
  handling event = record {
    event = event;
    handle_error = λ h ev e. (err e, h);
    pass_through = tt;
    idle_new = [];
    idle_is_empty = is_nil;
    idle_insert = λ h hs. remove h hs ++ h ∷ [];
    idle_remove = remove;
    idle_pop_front = pop_first;
    register = λ io token interest opts w. (none, w);
    reregister = λ io token interest opts w. (none, w);
    deregister = λ io w. (none, w);
    poll = λ timeout w.
        (polled (if w.wakeup then record { token = signal_tok; kind = 1 } ∷ [] else []), w);
    receive = λ w. ([], w);
    clear_wakeup = λ w. record w { wakeup = false };
    sig_count = 20;
    sigchld = sigchld;
    swap_flag = λ n w. (w.flags n, record w { flags = λ s. if s == n then false else w.flags s });
    sig_register = λ n w. record w { known = λ s. if s == n then true else w.known s };
    from_c_int = λ n. none;
    waits =
        λ w. (map exit_answer w.zombies ++ wait_error (sys echild) ∷ [], record w { zombies = [] });
    set_threads = λ n w. w;
    execute = λ id job w. w;
    instant_now = λ w. (0, w);
    fresh_block = λ w. (record { buffer = 1; capacity = 16 }, w);
  }

  abbrev passes : Outcome (Loop (Handling E)) (Unit {0}) → Bool
  passes (returns a l) = true
  passes (fails e l) = false
  passes panic = false
  passes out_of_fuel = false

  abbrev fresh : Event (Handling E) E → Loop (Handling E)
  fresh event = new (handling event) tt at_start

  abbrev raise_signal : ℕ → M (Loop (Handling E)) (Unit {0})
  raise_signal signal = modify λ l. record l { world = raised signal l.world }

  abbrev fork_child : M (Loop (Handling E)) ℕ
  fork_child l = let (pid, w) = forked l.world in returns pid (record l { world = w })

-- Thing that terminates once the correct signal is received.
record SigRecipient : Type 0 where
  signal : ℕ

abbrev sig_recipient : Event (Handling SigRecipient) SigRecipient
sig_recipient = record (with_defaults λ ev. ask (want_signal ev.signal) λ _. respond ev (ok true)) {
  signal = λ signum ev. if ev.signal == signum then respond ev (ok false) else abort;
}

-- `for _ in 0..count { l.insert(SigRecipient(signal)) }`
inserts : ℕ → ℕ → M (Loop (Handling SigRecipient)) (Unit {0})
inserts zero signal = λ l. returns tt l
inserts (suc count) signal = do
  loop_insert (handling sig_recipient) 9 (record { signal = signal })
  inserts count signal

-- `while l.event_count() > 1 { l.run_one() }`, at most so often.
while_more : ℕ → M (Loop (Handling SigRecipient)) (Unit {0})
while_more zero = λ l. out_of_fuel
while_more (suc rounds) = λ l. elim (ltb 1 (Recycler.len l.events)) [
  | true ↦ (loop_run_one (handling sig_recipient) 9 >> while_more rounds) l
  | false ↦ returns tt l
]

signal_test : M (Loop (Handling SigRecipient)) (Unit {0})
unfolding inserts while_more
signal_test = do
  handle ← loop_insert (handling sig_recipient) 9 (record { signal = sigusr1 })
  inserts 10 sigusr2
  (λ l. assert (Recycler.len l.events == 11) l)
  raise_signal sigusr2
  while_more 11
  (λ l. assert (Timers.event_alive l handle) l)
  raise_signal sigusr1
  loop_run_until_complete (handling sig_recipient) 9 handle

signal_test_lem : passes (signal_test (fresh sig_recipient)) ≡ true
unfolding running signal_test Scope.want_signal
signal_test_lem = refl

-- Wait for a given child to terminate with exit code 42.
record ChildWatcher : Type 0 where
  pid : ℕ

abbrev exited_with : ChildExit → ℕ → Bool
exited_with (ChildExit.exited code) n = code == n
exited_with (ChildExit.signaled signum) n = false

abbrev child_watcher : Event (Handling ChildWatcher) ChildWatcher
child_watcher = record (with_defaults λ ev. ask (track_child ev.pid) λ _. respond ev (ok true)) {
  child = λ pid exit ev.
      if ev.pid == pid
      then (if exited_with exit 42 then respond ev (ok false) else abort)
      else abort;
}

child_test : M (Loop (Handling ChildWatcher)) (Unit {0})
child_test = do
  Scope.signal_enable (handling child_watcher) sigchld
  pid ← fork_child
  handle ← loop_insert (handling child_watcher) 9 (record { pid = pid })
  loop_run_until_complete (handling child_watcher) 9 handle

child_test_lem : passes (child_test (fresh child_watcher)) ≡ true
unfolding running child_test Scope.signal_enable Scope.track_child
child_test_lem = refl

child_multiple_test : M (Loop (Handling ChildWatcher)) Handle
child_multiple_test = do
  Scope.signal_enable (handling child_watcher) sigchld
  pid ← fork_child
  loop_insert (handling child_watcher) 9 (record { pid = pid })
  loop_insert (handling child_watcher) 9 (record { pid = pid })

child_multiple_test_lem : child_multiple_test (fresh child_watcher) ≡ panic
unfolding running child_multiple_test Scope.signal_enable Scope.track_child
child_multiple_test_lem = refl
