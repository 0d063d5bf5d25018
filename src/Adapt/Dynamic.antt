-- ===== src/Adapt/Dynamic.antt =====
-- Dynamic and static composition are the same (src/adapt.rs).
use eveboros.Base.{◌≡◌, refl, ap, ap₂}
use mathlib.Core.Path.{fun_ext}
use eveboros.Loop.{
  Types, Event, Callback, respond, get_context, effect, abort, set_context, ask, Op, insert_exact,
  run_one, run, stop, want_idle, run_until_complete, event_alive, event_count, now, handle,
  send_impl, post_impl, channel, timeout_at, want_signal, expect_message, io_register_any,
  io_update, io_remove, io_mut, io_write, background_submit, track_child,
}
use eveboros.Adapt.{dyn_op, dyn_scope, wrapper, combined, dyn_event}

module _ {P : Types} where
  -- `DynScope` changes no request.
  dyn_op_lem : (op : Op P) → dyn_op op ≡ op
  unfolding dyn_op
  dyn_op_lem (insert_exact event) = refl
  dyn_op_lem run_one = refl
  dyn_op_lem (run_until_complete h) = refl
  dyn_op_lem run = refl
  dyn_op_lem stop = refl
  dyn_op_lem (event_alive h) = refl
  dyn_op_lem event_count = refl
  dyn_op_lem now = refl
  dyn_op_lem (send_impl h data' tp) = refl
  dyn_op_lem (post_impl h data' tp) = refl
  dyn_op_lem (channel h) = refl
  dyn_op_lem handle = refl
  dyn_op_lem (timeout_at when) = refl
  dyn_op_lem (want_signal signal) = refl
  dyn_op_lem want_idle = refl
  dyn_op_lem (expect_message tp) = refl
  dyn_op_lem (io_register_any io interest opts) = refl
  dyn_op_lem (io_mut id) = refl
  dyn_op_lem (io_write id content) = refl
  dyn_op_lem (io_update id interest opts) = refl
  dyn_op_lem (io_remove id) = refl
  dyn_op_lem (background_submit task) = refl
  dyn_op_lem (track_child pid) = refl

  dyn_scope_lem : {E : Type 0} (s : Callback P E) → dyn_scope s ≡ s
  unfolding dyn_scope
  dyn_scope_lem (respond ev response) = refl
  dyn_scope_lem (get_context k) = ap get_context (fun_ext λ c. dyn_scope_lem (k c))
  dyn_scope_lem (effect change k) = ap (effect change) (fun_ext λ w. dyn_scope_lem (k w))
  dyn_scope_lem abort = refl
  dyn_scope_lem (set_context c s) = ap (set_context c) (dyn_scope_lem s)
  dyn_scope_lem (ask op k) = ap₂ ask (dyn_op_lem op) (fun_ext λ r. dyn_scope_lem (k r))

  wrapper_lem : {E : Type 0} (event : Event P E) → wrapper event ≡ event
  unfolding wrapper
  wrapper_lem event = λ i. record {
    init = λ ev. dyn_scope_lem (event.init ev) i;
    io = λ id ready ev. dyn_scope_lem (event.io id ready ev) i;
    timeout = λ id ev. dyn_scope_lem (event.timeout id ev) i;
    signal = λ signum ev. dyn_scope_lem (event.signal signum ev) i;
    idle = λ ev. dyn_scope_lem (event.idle ev) i;
    message = λ m ev. dyn_scope_lem (event.message m ev) i;
    child = λ pid exit ev. dyn_scope_lem (event.child pid exit ev) i;
  }

module _ {P : Types} {I : Type 0} {Sub : I → Type 0} where
  -- An event that is composed dynamically, through a trait object and a `DynScope`, behaves as the one that
  -- `combined!` composes statically from the same events: every callback is the same.
  pub dyn_event-combined : (events : (i : I) → Event P (Sub i)) → dyn_event events ≡ combined events
  unfolding dyn_event combined
  dyn_event-combined events = ap combined (fun_ext λ i. wrapper_lem (events i))
