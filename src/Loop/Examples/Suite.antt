-- ===== src/Loop/Examples/Suite.antt =====
-- The tests at the end of src/core.rs, run on the model: what they assert holds of it.
pub mod Messages
pub mod Timing
pub mod Outside
pub mod Threads
pub mod Sockets
use eveboros.Base.{
  ℕ, ◌+◌, ◌≡◌, refl, Bool, true, false, not, Option, none, some, List, [], ◌∷◌, ◌==◌, if◌then◌else◌,
  length, leb, ◌-◌, ◌&&◌,
}
use eveboros.Error.{Error, Result, ok, err, missing, msg_unexpected, busy, default_impl, dead_lock}
use eveboros.Any.{Ty, nominal, ty_beq, box, downcast}
use eveboros.Handle.{Handle, handle_eq, TimeoutId}
use eveboros.Message.{Message, get, get_by, squash}
use eveboros.Message
use eveboros.Outcome.{
  Outcome, returns, fails, panic, out_of_fuel, M, attempt, assert, modify, ◌>>=◌, ◌>>◌,
}
use eveboros.Recycler
use eveboros.Loop.{
  Types, Loop, Env, Event, Callback, respond, ask, abort, with_defaults, Reply, of_handle,
  of_timeout, handle, expect_message, want_idle, stop, new, error_handler_set, polled,
}
use eveboros.Loop.Iface.{or_return, with_context, send, post, at_now, timeout_after}
use eveboros.Loop.Timers
use eveboros.Loop.Run.{
  loop_insert, loop_run, loop_run_one, loop_run_until_complete, loop_run_until_empty,
  loop_send_impl, loop_post_impl,
}
use eveboros.Loop.Examples.{running}
use eveboros.Loop.Examples.Quiet.{quiet_types, quiet}

-- The surroundings of the tests: the clock shows how long the poll has slept, and an error handler is a
-- function of the error.
abbrev pub Testing : Type 0 → Types
Testing E = quiet_types Bool E ℕ ℕ

-- `Box::new(|_, e| ..)` in the test of error handlers: 0 passes the error on, 1 returns `DeadLock`, and 2
-- ignores it.
abbrev pub handled : {E : Type 0} → ℕ → E → Error → Result (Unit {0}) × ℕ
handled h ev e = if h == 1 then (err dead_lock, h) else if h == 2 then (ok tt, h) else (err e, h)

abbrev pub slept : Option ℕ → ℕ → ℕ
slept none w = w
slept (some d) w = w + d

module _ {E : Type 0} where
  abbrev pub env : Event (Testing E) E → Env (Testing E)
  env event = record (quiet event handled 0) {
    poll = λ wakeup w. (polled [], slept wakeup w);
    instant_now = λ w. (w, w);
  }

  -- The test ran to its end, with no assertion failing.
  abbrev pub passes : Event (Testing E) E → M (Loop (Testing E)) (Unit {0}) → Bool
  passes event test = elim (test (new (env event) false 0)) [
    | returns _ l ↦ true
    | fails e l ↦ false
    | panic ↦ false
    | out_of_fuel ↦ false
  ]

  abbrev pub alive : Handle → Bool → M (Loop (Testing E)) (Unit {0})
  alive h expected l = assert (if Timers.event_alive l h then expected else not expected) l

-- `err!`
abbrev pub is_missing : {A : Type 0} → Result A → Bool
is_missing (err missing) = true
is_missing _ = false

abbrev pub is_unexpected : {A : Type 0} → Result A → Bool
is_unexpected (err msg_unexpected) = true
is_unexpected _ = false

abbrev pub is_busy : {A : Type 0} → Result A → Bool
is_busy (err busy) = true
is_busy _ = false

abbrev pub is_default_impl : {A : Type 0} → Result A → Bool
is_default_impl (err default_impl) = true
is_default_impl _ = false

abbrev pub is_dead_lock : {A : Type 0} → Result A → Bool
is_dead_lock (err dead_lock) = true
is_dead_lock _ = false

-- What the tests compute with.
unfoldable pub testing : Unit {0}
unfolding running or_return with_context send post at_now timeout_after get get_by squash downcast
    loop_send_impl loop_post_impl
testing = tt
