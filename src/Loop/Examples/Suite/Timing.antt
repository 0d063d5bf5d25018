-- ===== src/Loop/Examples/Suite/Timing.antt =====
-- The tests `timeout`, `error_handler`, `idle` and `init_and_context` of src/core.rs.
use eveboros.Base.{
  ℕ, ◌+◌, ◌*◌, ◌≡◌, refl, Bool, true, false, Option, none, some, ◌==◌, if◌then◌else◌, length, leb,
  ◌-◌,
}
use eveboros.Error.{Result, ok}
use eveboros.Handle.{handle_eq, TimeoutId}
use eveboros.Outcome.{returns, M, attempt, assert, modify, ◌>>=◌, ◌>>◌}
use eveboros.Recycler
use eveboros.Loop.{
  Loop, Env, Event, Callback, respond, ask, abort, with_defaults, Reply, of_timeout, want_idle,
  stop, error_handler_set,
}
use eveboros.Loop.Iface.{or_return, with_context, timeout_after}
use eveboros.Loop.Run.{
  loop_insert, loop_run, loop_run_one, loop_run_until_complete, loop_run_until_empty,
}
use eveboros.Loop.Examples.Suite.{
  Testing, env, passes, alive, is_default_impl, is_dead_lock, testing,
}

record Timeouter : Type 0 where
  milliseconds : ℕ
  id : Option TimeoutId

-- `self.id = Some(..)`, and another timeout.
abbrev armed : {E : Type 0} → Timeouter → Result Reply → Callback (Testing E) Timeouter
armed ev (ok (of_timeout id)) =
    timeout_after (ev.milliseconds + 1) λ _. respond (record ev { id = some id }) (ok true)
armed ev _ = abort

abbrev timed : Timeouter → TimeoutId → Bool
timed ev id = elim ev.id [ none ↦ false | some first ↦ first.number == id.number ]

abbrev timeouter : {E : Type 0} → Event (Testing E) Timeouter
timeouter = record (with_defaults λ ev. timeout_after ev.milliseconds (armed ev)) {
  timeout = λ id ev. if timed ev id then respond ev (ok false) else abort;
}

abbrev at : Env (Testing Timeouter)
at = env timeouter

timeout_test : M (Loop (Testing Timeouter)) (Unit {0})
timeout_test = do
  h ← loop_insert at 9 (record { milliseconds = 0; id = none })
  alive h true
  loop_run_until_complete at 9 h
  alive h false
  waiting ← loop_insert at 9 (record { milliseconds = 500; id = none })
  alive h false
  alive waiting true
  before ← (λ l. returns l.now l)
  loop_run_one at 9
  alive waiting false
  (λ l. assert (leb 500 (l.now - before)) l)
  (λ l. assert (l.timeouts_inserted == 2) l)
  (λ l. assert (l.timeouts_fired == 1) l)
  (λ l. assert (l.timeouts_dead == 1) l)
  (λ l. assert (length l.timeouts + length l.scheduled == 1) l)

timeout_test_lem : passes timeouter timeout_test ≡ true
unfolding testing timeout_test
timeout_test_lem = refl

record ErrorTimeout : Type 0 where

-- `timeout` is the default.
abbrev error_timeout : {E : Type 0} → Event (Testing E) ErrorTimeout
error_timeout = with_defaults λ ev. timeout_after 0 λ _. respond ev (ok true)

abbrev failing : Env (Testing ErrorTimeout)
failing = env error_timeout

error_handler_test : M (Loop (Testing ErrorTimeout)) (Unit {0})
error_handler_test = do
  h ← loop_insert failing 9 (record {})
  alive h true
  r ← attempt (loop_run failing 9)
  assert (is_default_impl r)
  alive h false
  modify (error_handler_set 1)
  h ← loop_insert failing 9 (record {})
  r ← attempt (loop_run failing 9)
  assert (is_dead_lock r)
  alive h false
  h ← loop_insert failing 9 (record {})
  modify (error_handler_set 2)
  loop_run_until_complete failing 9 h
  alive h false
  loop_insert failing 9 (record {})
  loop_run_until_empty failing 9

error_handler_test_lem : passes error_timeout error_handler_test ≡ true
unfolding testing error_handler_test error_handler_set
error_handler_test_lem = refl

record Idle : Type 0 where

-- The timeout is not implemented and would fail.
abbrev idle_event : {E : Type 0} → Event (Testing E) Idle
idle_event =
    record (with_defaults
      λ ev. timeout_after (10 * 1000000000) λ _. ask want_idle λ _. respond ev (ok true)) {
        idle = λ ev. ask stop λ _. respond ev (ok false);
      }

idle_test : M (Loop (Testing Idle)) (Unit {0})
idle_test = do loop_insert (env idle_event) 9 (record {}); loop_run (env idle_event) 9

idle_test_lem : passes idle_event idle_test ≡ true
unfolding testing idle_test
idle_test_lem = refl

record InitAndContextEvent : Type 0 where

abbrev init_and_context_event : {E : Type 0} → Event (Testing E) InitAndContextEvent
init_and_context_event =
    with_defaults λ ev.
      with_context (λ c. (ok tt, true)) (or_return ev (λ (_ : Unit {0}). respond ev (ok false)))

-- That the event is dropped is not seen here.
init_and_context_test : M (Loop (Testing InitAndContextEvent)) (Unit {0})
init_and_context_test = do
  h ← loop_insert (env init_and_context_event) 9 (record {})
  (λ l. assert l.context l)
  alive h false
  loop_run_until_complete (env init_and_context_event) 9 h
  (λ l. assert (Recycler.len l.events == 0) l)

init_and_context_test_lem : passes init_and_context_event init_and_context_test ≡ true
unfolding testing init_and_context_test
init_and_context_test_lem = refl
