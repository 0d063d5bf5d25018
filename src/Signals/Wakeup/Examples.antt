-- ===== src/Signals/Wakeup/Examples.antt =====
-- A loop and the handlers of signals (src/signal_dispatch.rs and src/core.rs) where signals come at an
-- inconvenient time.
use eveboros.Base.{
  ℕ, ◌+◌, ◌≤◌, ◌≡◌, refl, ap, ◌++◌, Bool, true, false, none, some, List, [], ◌∷◌, ◌==◌, count,
  arith, if◌then◌else◌,
}
use eveboros.Error.{err}
use eveboros.Handle.{Handle}
use eveboros.Loop.{
  Types, Loop, Env, default_callback, with_defaults, polled, new, status, still_alive,
}
use eveboros.Loop.Gather.{take_flags}
use eveboros.Signals.{SignalNotifier, pushed, full, System, notify}
use eveboros.Signals.Wakeup.Notify.{Ours, Sees, sends, notify-Steps}
use eveboros.Signals.Wakeup.{
  away, scanning, Shared, write_flag, mark, try_send, try_recv, swap_clear, Steps, here, next, calm,
}
use eveboros.Signals.Wakeup.Seen.{Taken, flag-Taken, taken_raised}
use eveboros.Signals.Wakeup.View.{View, Follows}
use eveboros.Signals.Wakeup.Look.{take_flags-Follows}

-- Signal 2 came, the loop has passed flag 1, and a handler has set flag 1 and not sent its wake-up yet.
abbrev late : Shared
late = record {
  flags = λ s. if s == 1 then true else if s == 2 then true else false;
  wakeup = false;
  sending = some 1;
  reader = scanning 2;
  raised = 2 ∷ 1 ∷ [];
  taken = [];
  failed = false;
}

late_run : Steps 3 calm late
late_run =
    next
      (next
        (next (next (next (next here (mark 2 refl)) (try_send 2 refl)) (try_recv refl refl))
          (swap_clear 0 refl (omega arith) refl))
        (swap_clear 1 refl (omega arith) refl))
      (mark 1 refl)

flag-Taken_example : Taken 3 1 late
flag-Taken_example = flag-Taken late late_run refl 1 (omega arith) refl

taken_raised_example : count 1 late.taken + 1 ≤ count 1 late.raised
taken_raised_example = taken_raised late_run 1

-- Outside of the loop there are the flags and the channel only.
record Outside : Type 0 where
  flags : ℕ → Bool
  wakeup : Bool

abbrev types : Types
types = record { Context = ℕ; Ev = ℕ; Handler = ℕ; Job = ℕ; Idle = List Handle; World = Outside }

abbrev env : Env types
env = record {
  event = with_defaults default_callback;
  handle_error = λ h ev e. (err e, h);
  pass_through = 0;
  idle_new = [];
  idle_is_empty = λ l. true;
  idle_insert = λ h l. l;
  idle_remove = λ h l. l;
  idle_pop_front = λ l. none;
  register = λ io token interest opts w. (none, w);
  reregister = λ io token interest opts w. (none, w);
  deregister = λ io w. (none, w);
  poll = λ wakeup w. (polled [], w);
  receive = λ w. ([], w);
  clear_wakeup = λ w. record w { wakeup = false };
  sig_count = 3;
  sigchld = 2;
  swap_flag = λ n w. (w.flags n, record w { flags = write_flag n false w.flags });
  sig_register = λ n w. w;
  from_c_int = λ n. none;
  waits = λ w. (status still_alive ∷ [], w);
  set_threads = λ n w. w;
  execute = λ id job w. w;
  instant_now = λ w. (0, w);
  fresh_block = λ w. (record { buffer = 0; capacity = 4 }, w);
}

abbrev view : View env
view = record {
  flags_of = λ w. w.flags;
  wakeup_of = λ w. w.wakeup;
  swap_answer = λ n w. refl;
  swap_flags = λ n w. refl;
  swap_wakeup = λ n w. refl;
  clear_flags = λ w. refl;
  cleared = λ w. refl;
  wait_flags = λ w. refl;
  wait_wakeup = λ w. refl;
}

-- Two flags are set, and everybody is interested in both.
abbrev both_set : Shared
both_set = record late { wakeup = true; sending = none; reader = away }

abbrev interested : Loop types
interested = record (new env 0 (record { flags = both_set.flags; wakeup = true })) {
  signal_recipients = λ s. record { id = s; generation = 0 } ∷ [];
}

look_example : Follows env view both_set interested (take_flags env interested)
unfolding new
look_example = take_flags-Follows env view both_set interested refl refl (refl, refl)

-- Two loops: the world is the channel of loop 0, with the flags that its sends found, and the notifiers of
-- loop 0 have array 0.
record Channel : Type 0 where
  holds : Bool
  met : List (ℕ → Bool)

abbrev senders : System Channel
senders = record {
  nsig = 65;
  sigaction = λ s w. (none, w);
  try_send = λ sender flags w.
      if sender == 0
      then (if w.holds then full else pushed, record { holds = true; met = w.met ++ flags 0 ∷ [] })
      else (pushed, w);
}

elsewhere :
    (sender : ℕ) (flags : ℕ → ℕ → Bool) (w : Channel)
    → (sender == 0) ≡ false
    → (senders.try_send sender flags w).1 ≡ w
elsewhere sender flags w e = ground (arith, e)

abbrev ours : Ours senders 0 0
ours = record {
  wakeup_of = λ w. w.holds;
  sent = λ flags w. refl;
  others = λ sender flags w e. ap (λ v. v.holds) (elsewhere sender flags w e);
  found = λ w. w.met;
  finds = λ flags w. refl;
  found_others = λ sender flags w e. ap (λ v. v.met) (elsewhere sender flags w e);
}

abbrev silent : Channel
silent = record { holds = false; met = [] }

abbrev notifiers : List SignalNotifier
notifiers = record { sender = 4; flags = 4 } ∷ record { sender = 0; flags = 0 } ∷ []

notify_example :
    (q : Shared) × (run : Steps 3 calm q) × ((notify senders 1 notifiers
        (λ a s. false)
        silent).2.met
      ≡ sends run)
    × (q.raised ≡ 1 ∷ [])
    × Sees senders 0 0 3 1 ours q
        (notify senders 1 notifiers (λ a s. false) silent).1
        (notify senders 1 notifiers (λ a s. false) silent).2
    × (q.sending ≡ none)
    × (q.reader ≡ away)
    × (q.taken ≡ [])
    × (q.failed ≡ false)
notify_example =
    notify-Steps senders 0 0 3 1 ours notifiers (λ a s. false) silent calm (refl, (refl, tt)) refl
      (refl, refl)
