-- ===== src/Adapt.antt =====
-- src/adapt.rs: events made of events. The macro `combined!` makes an enum with one variant for each of
-- several types of events; `SelfDynEvent` and `AnyDynEvent` hold a trait object.
pub mod Dispatch
pub mod Dynamic
pub mod Examples
use eveboros.Base.{ℕ}
use eveboros.Handle.{Handle}
use eveboros.Outcome.{M}
use eveboros.Loop.{
  Types, Loop, Env, Event, Callback, respond, get_context, effect, abort, set_context, ask, Op,
  insert_exact, run_one, run, stop, want_idle, run_until_complete, event_alive, event_count, now,
  handle, send_impl, post_impl, channel, timeout_at, want_signal, expect_message, io_register_any,
  io_update, io_remove, io_mut, io_write, background_submit, track_child,
}
use eveboros.Loop.Run.{loop_insert}

-- A value of one of the types `Sub`, and of which: a variant of the enum that `combined!` generates, where
-- `I` are the names of the variants, and a boxed trait object, where `I` are the types that implement the
-- trait, which a vtable tells.
pub record Choice {I : Type 0} (Sub : I → Type 0) : Type 0 where
  pub name : I
  pub val : Sub name

-- `From` for each variant, and `SelfDynEvent::new` and `AnyDynEvent::new`.
abbrev pub from : {I : Type 0} {Sub : I → Type 0} (i : I) → Sub i → Choice Sub
from i ev = record { name = i; val = ev }

module _ {P : Types} where
  -- A callback on `ref mut val`: what it leaves behind is put where the value stood.
  unfoldable pub in_place : {A B : Type 0} → (A → B) → Callback P A → Callback P B
  in_place f (respond ev response) = respond (f ev) response
  in_place f (get_context k) = get_context (λ c. in_place f (k c))
  in_place f (set_context c s) = set_context c (in_place f s)
  in_place f (ask op k) = ask op (λ r. in_place f (k r))
  in_place f (effect change k) = effect change (λ w. in_place f (k w))
  in_place f abort = abort

  -- The methods of `DynScope`: what each asks of the scope inside.
  unfoldable pub dyn_op : Op P → Op P
  dyn_op (insert_exact event) = insert_exact event
  dyn_op run_one = run_one
  dyn_op (run_until_complete h) = run_until_complete h
  dyn_op run = run
  dyn_op stop = stop
  dyn_op (event_alive h) = event_alive h
  dyn_op event_count = event_count
  dyn_op now = now
  dyn_op (send_impl h data' tp) = send_impl h data' tp
  dyn_op (post_impl h data' tp) = post_impl h data' tp
  dyn_op (channel h) = channel h
  dyn_op handle = handle
  dyn_op (timeout_at when) = timeout_at when
  dyn_op (want_signal signal) = want_signal signal
  dyn_op want_idle = want_idle
  dyn_op (expect_message tp) = expect_message tp
  dyn_op (io_register_any io interest opts) = io_register_any io interest opts
  dyn_op (io_mut id) = io_mut id
  dyn_op (io_write id content) = io_write id content
  dyn_op (io_update id interest opts) = io_update id interest opts
  dyn_op (io_remove id) = io_remove id
  dyn_op (background_submit task) = background_submit task
  dyn_op (track_child pid) = track_child pid

  -- A callback that gets `&mut DynScope(scope)` in the place of the scope.
  unfoldable pub dyn_scope : {E : Type 0} → Callback P E → Callback P E
  unfolding dyn_op
  dyn_scope (respond ev response) = respond ev response
  dyn_scope (get_context k) = get_context (λ c. dyn_scope (k c))
  dyn_scope (set_context c s) = set_context c (dyn_scope s)
  dyn_scope (ask op k) = ask (dyn_op op) (λ r. dyn_scope (k r))
  dyn_scope (effect change k) = effect change (λ w. dyn_scope (k w))
  dyn_scope abort = abort

  -- `EventWrapper`
  unfoldable pub wrapper : {E : Type 0} → Event P E → Event P E
  unfolding dyn_scope
  wrapper event = record {
    init = λ ev. dyn_scope (event.init ev);
    io = λ id ready ev. dyn_scope (event.io id ready ev);
    timeout = λ id ev. dyn_scope (event.timeout id ev);
    signal = λ signum ev. dyn_scope (event.signal signum ev);
    idle = λ ev. dyn_scope (event.idle ev);
    message = λ m ev. dyn_scope (event.message m ev);
    child = λ pid exit ev. dyn_scope (event.child pid exit ev);
  }

module _ {P : Types} {I : Type 0} {Sub : I → Type 0} where
  -- The event that `combined!` generates from the events of its variants.
  unfoldable pub combined : ((i : I) → Event P (Sub i)) → Event P (Choice Sub)
  unfolding in_place
  combined events = record {
    init = λ ev. in_place (from ev.name) ((events ev.name).init ev.val);
    io = λ id ready ev. in_place (from ev.name) ((events ev.name).io id ready ev.val);
    timeout = λ id ev. in_place (from ev.name) ((events ev.name).timeout id ev.val);
    signal = λ signum ev. in_place (from ev.name) ((events ev.name).signal signum ev.val);
    idle = λ ev. in_place (from ev.name) ((events ev.name).idle ev.val);
    message = λ m ev. in_place (from ev.name) ((events ev.name).message m ev.val);
    child = λ pid exit ev. in_place (from ev.name) ((events ev.name).child pid exit ev.val);
  }

  -- `dyn_event!`: the call goes to the object's implementation, which stands in an `EventWrapper`.
  unfoldable pub dyn_event : ((i : I) → Event P (Sub i)) → Event P (Choice Sub)
  unfolding in_place wrapper
  dyn_event events = record {
    init = λ ev. in_place (from ev.name) ((wrapper (events ev.name)).init ev.val);
    io = λ id ready ev. in_place (from ev.name) ((wrapper (events ev.name)).io id ready ev.val);
    timeout = λ id ev. in_place (from ev.name) ((wrapper (events ev.name)).timeout id ev.val);
    signal = λ signum ev. in_place (from ev.name) ((wrapper (events ev.name)).signal signum ev.val);
    idle = λ ev. in_place (from ev.name) ((wrapper (events ev.name)).idle ev.val);
    message = λ m ev. in_place (from ev.name) ((wrapper (events ev.name)).message m ev.val);
    child =
        λ pid exit ev. in_place (from ev.name) ((wrapper (events ev.name)).child pid exit ev.val);
  }

-- `insert`: the loop's own type of events is made from the type of the event that is inserted.
unfoldable pub insert : {P : Types} → Env P → {A : Type 0} → (A → P.Ev) → ℕ → A → M (Loop P) Handle
insert env into n event = loop_insert env n (into event)
