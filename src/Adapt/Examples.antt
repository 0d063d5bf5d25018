-- ===== src/Adapt/Examples.antt =====
-- The tests of src/adapt.rs: an idle event and a timeout event in one loop, composed statically,
-- dynamically and both ways.
use eveboros.Base.{ℕ, ◌+◌, ◌≡◌, refl, Bool, true, false, ◌==◌}
use eveboros.Error.{ok, err}
use eveboros.Handle.{Handle}
use eveboros.Outcome.{Outcome, returns, M, assert, ◌>>◌}
use eveboros.Recycler
use eveboros.Loop.{
  Types, Loop, Env, Event, respond, ask, with_defaults, want_idle, stop, new, timeout, react,
}
use eveboros.Loop.Iface.{at_now, timeout_after, with_context, or_return}
use eveboros.Loop.Events.{run_script}
use eveboros.Loop.Run.{perform, loop_run}
use eveboros.Loop.Examples.{running}
use eveboros.Loop.Examples.Quiet.{quiet_types, quiet}
use eveboros.Adapt.{Choice, from, combined, dyn_event, in_place, insert, dyn_scope, dyn_op, wrapper}
use eveboros.Adapt.Dispatch.{run_script-combined, placed}
use eveboros.Adapt.Dynamic.{dyn_event-combined}

-- `combined!(IdleTimeout, bool, T(TimeoutEvent), I(IdleEvent), );`
data Variant : Type 0 where
  t i : Variant

record TimeoutEvent : Type 0 where

record IdleEvent : Type 0 where

abbrev Inside : Variant → Type 0
Inside t = TimeoutEvent
Inside i = IdleEvent

-- The types of a loop whose events are of the type `E`.
abbrev Holding : Type 0 → Types
Holding E = quiet_types Bool E (Unit {0}) ℕ

module _ {E : Type 0} where
  abbrev timeout_event : Event (Holding E) TimeoutEvent
  timeout_event = record (with_defaults λ ev. timeout_after 0 (λ _. respond ev (ok true))) {
    timeout = λ id ev. respond ev (ok false);
  }

  abbrev idle_event : Event (Holding E) IdleEvent
  idle_event = record (with_defaults λ ev. ask want_idle (λ _. respond ev (ok true))) {
    idle = λ ev. ask stop λ _.
        with_context (λ c. (ok tt, true)) (or_return ev (λ (_ : Unit {0}). respond ev (ok false)));
  }

  abbrev events : (v : Variant) → Event (Holding E) (Inside v)
  events t = timeout_event
  events i = idle_event

  -- The clock advances by three with each look at it.
  abbrev env : Event (Holding E) E → Env (Holding E)
  env event = record (quiet event (λ h ev e. (err e, h)) tt) { instant_now = λ w. (w, w + 3) }

  -- The body of each test.
  composed :
      (e : Event (Holding E) E) → ((v : Variant) → Inside v → E) → M (Loop (Holding E)) (Unit {0})
  composed e into = do
    insert (env e) (into i) 9 (record {})
    insert (env e) (into t) 9 (record {})
    loop_run (env e) 9
    (λ l. assert l.context l)
    (λ l. assert (Recycler.len l.events == 0) l)

  -- The test ran to its end, with no assertion failing.
  abbrev passes : Outcome (Loop (Holding E)) (Unit {0}) → Bool
  passes (returns _ l) = true
  passes _ = false

  abbrev start : Event (Holding E) E → Loop (Holding E)
  start e = new (env e) false 0

abbrev IdleTimeout : Type 0
IdleTimeout = Choice Inside

abbrev static_events : Event (Holding IdleTimeout) IdleTimeout
static_events = combined events

-- `SelfDynEvent` over the two types.
abbrev dynamic_events : Event (Holding IdleTimeout) IdleTimeout
dynamic_events = dyn_event events

-- `combined!(Both, bool, D(AnyDynEvent<bool, Both>), );`
abbrev Dynamic : Unit {0} → Type 0
Dynamic d = IdleTimeout

abbrev Both : Type 0
Both = Choice Dynamic

abbrev both_events : Event (Holding Both) Both
both_events = combined (λ _. dyn_event events)

-- What the tests compute with.
unfoldable testing : Unit {0}
unfolding composed combined dyn_event in_place wrapper dyn_scope dyn_op insert at_now timeout_after
    with_context or_return running
testing = tt

static_event_test : M (Loop (Holding IdleTimeout)) (Unit {0})
unfolding composed
static_event_test = composed static_events from

dyn_event_test : M (Loop (Holding IdleTimeout)) (Unit {0})
unfolding composed
dyn_event_test = composed dynamic_events from

both_events_test : M (Loop (Holding Both)) (Unit {0})
unfolding composed
both_events_test = composed both_events (λ v ev. from tt (from v ev))

static_event_test_lem : passes (static_event_test (start static_events)) ≡ true
unfolding testing static_event_test
static_event_test_lem = refl

dyn_event_test_lem : passes (dyn_event_test (start dynamic_events)) ≡ true
unfolding testing dyn_event_test
dyn_event_test_lem = refl

both_events_test_lem : passes (both_events_test (start both_events)) ≡ true
unfolding testing both_events_test
both_events_test_lem = refl

abbrev handle : Handle
handle = record { id = 0; generation = 0 }

run_script-combined_example :
    (run_script
        (perform (env static_events) 3 handle)
        (static_events.init (from t (record {})))
        (start static_events)
      ≡ placed (from t) (
          run_script
            (perform (env static_events) 3 handle)
            (timeout_event.init (record {}))
            (start static_events)))
    × (run_script
          (perform (env static_events) 3 handle)
          (react static_events (timeout (record { number = 1 })) (from t (record {})))
          (start static_events)
        ≡ placed (from t) (
            run_script
              (perform (env static_events) 3 handle)
              (timeout_event.timeout (record { number = 1 }) (record {}))
              (start static_events)))
run_script-combined_example =
    run_script-combined (perform (env static_events) 3 handle) events t (record {})
      (timeout (record { number = 1 })) (start static_events)

dyn_event-combined_example : dynamic_events ≡ static_events
dyn_event-combined_example = dyn_event-combined events
