-- ===== src/Loop/Run.antt =====
-- Running the loop (src/core.rs): `run_one`, `run_until_complete`, `run`, `run_until_empty`, `stop`,
-- and `perform`, which ties the knot: what a callback asks of its scope may run further callbacks.
-- Every loop of the code takes fuel; `out_of_fuel` is a run that has not ended yet.
pub mod Progress
pub mod Fuel
pub mod Settled
pub mod Next
use eveboros.Base.{
  ℕ, zero, suc, ◌+◌, ◌-◌, Bool, true, false, not, ◌&&◌, Option, none, some, List, [], ◌∷◌, ltb,
  ◌==◌, if◌then◌else◌, Eq, nat_eq, contains_key,
}
use eveboros.Error.{Error, Result, dead_lock, empty}
use eveboros.Any.{Any, Ty}
use eveboros.Handle.{Handle, handle_eq, IoId, TimeoutId, token_shift}
use eveboros.Outcome.{
  Outcome, returns, fails, panic, out_of_fuel, M, pure, raise, unwrap, attempt, modify, ◌>>=◌, ◌>>◌,
}
use eveboros.Recycler
use eveboros.Recycler.{Recycler}
use eveboros.Loop.{
  react, Types, Loop, Env, EvHolder, Task, TaskParam, io_ready, timeout, signal, message, child,
  idle, Op, insert_exact, run_one, run, stop, want_idle, run_until_complete, event_alive,
  event_count, now, handle, send_impl, post_impl, channel, timeout_at, want_signal, expect_message,
  io_register_any, io_update, io_remove, io_mut, io_write, background_submit, track_child, Reply,
  done, of_handle, of_bool, of_number, of_timeout, of_io, of_any, of_background,
}
use eveboros.Loop.Timers
use eveboros.Loop.Timers.{checked_sub}
use eveboros.Loop.Events
use eveboros.Loop.Events.{event_call}
use eveboros.Loop.Gather.{tasks_gather}
use eveboros.Loop.Scope
use eveboros.Loop.Scope.{update_holder}

module _ {P : Types} where
  -- `timeouts_fired += 1; events[recipient.id].timeouts -= 1`
  unfoldable pub count_fired : Handle → M (Loop P) (Unit {0})
  count_fired recipient l =
      (do
        holder ← unwrap (Recycler.index l.events recipient.id)
        left ← unwrap (checked_sub holder.timeouts 1)
        modify (λ l. record l { timeouts_fired = l.timeouts_fired + 1 })
        update_holder recipient (λ h. record h { timeouts = left }))
        l

  -- The test for a deadlock, made before the first round only.
  unfoldable pub check_deadlock : Bool → Handle → M (Loop P) (Unit {0})
  check_deadlock true target l = returns tt l
  check_deadlock false target l = elim (Recycler.index l.events target.id) [
    | none ↦ panic
    | some holder ↦ if holder.event.stolen then fails dead_lock l else returns tt l
  ]

  -- One round of the loop of `run_until_complete`.
  unfoldable pub wait_round :
      Bool → M (Loop P) (Unit {0}) → M (Loop P) (Unit {0}) → Handle → M (Loop P) (Unit {0})
  unfolding check_deadlock
  wait_round checked step again target l =
      if Timers.event_alive l target
      then (do check_deadlock checked target; step; again) l
      else returns tt l

  -- One round of the loop of `run`.
  unfoldable pub active_round :
      M (Loop P) (Unit {0}) → M (Loop P) (Unit {0}) → M (Loop P) (Unit {0})
  active_round step again l = if l.active then (do step; again) l else returns tt l

  -- `Err(Error::Empty) => Ok(())`
  unfoldable pub forgive_empty : Result (Unit {0}) → M (Loop P) (Unit {0})
  forgive_empty (Result.ok _) = pure tt
  forgive_empty (Result.err empty) = pure tt
  forgive_empty (Result.err e) = raise e

module _ {P : Types} (env : Env P) where
  -- `TaskParam::Io`: only if the event still has the IO.
  unfoldable pub run_io :
      (Handle → Op P → M (Loop P) Reply) → Handle → IoId → ℕ → M (Loop P) (Unit {0})
  run_io scope_of recipient id ready l =
      if ltb id.token token_shift then panic else (elim (Recycler.index l.events recipient.id) [
        | none ↦ panic
        | some holder ↦
            if contains_key (id.token - token_shift) holder.ios
            then event_call env scope_of recipient (react env.event (io_ready id ready)) l
            else returns tt l
      ])

  unfoldable pub run_timeout :
      (Handle → Op P → M (Loop P) Reply) → Handle → TimeoutId → M (Loop P) (Unit {0})
  unfolding count_fired
  run_timeout scope_of recipient id = do
    count_fired recipient
    event_call env scope_of recipient (react env.event (timeout id))

  -- The match on the parameter of a task.
  unfoldable pub run_task :
      (Handle → Op P → M (Loop P) Reply) → Handle → TaskParam → M (Loop P) (Unit {0})
  unfolding run_io run_timeout
  run_task scope_of recipient (io_ready id ready) = run_io scope_of recipient id ready
  run_task scope_of recipient (timeout id) = run_timeout scope_of recipient id
  run_task scope_of recipient param = event_call env scope_of recipient (react env.event param)

  -- One round of `run_one`: gather if there is nothing to do, or take the first task; `again` is the
  -- next round.
  unfoldable pub pick_task :
      (Handle → Op P → M (Loop P) Reply) → M (Loop P) (Unit {0}) → List Task → M (Loop P) (Unit {0})
  unfolding run_task
  pick_task scope_of again [] l = (do tasks_gather env; again) l
  pick_task scope_of again (task ∷ rest) l =
      if Timers.event_alive l task.recipient
      then run_task scope_of task.recipient task.param (record l { scheduled = rest })
      else again (record l { scheduled = rest })

  -- `run_one`
  unfoldable pub run_next : ℕ → (Handle → Op P → M (Loop P) Reply) → M (Loop P) (Unit {0})
  unfolding pick_task
  run_next zero scope_of l = out_of_fuel
  run_next (suc n) scope_of l = pick_task scope_of (run_next n scope_of) l.scheduled l

  -- The loop of `run_until_complete`.
  unfoldable pub wait_for :
      ℕ → Bool → (Handle → Op P → M (Loop P) Reply) → Handle → M (Loop P) (Unit {0})
  unfolding wait_round run_next
  wait_for zero checked scope_of target l = out_of_fuel
  wait_for (suc n) checked scope_of target l =
      wait_round checked (run_next n scope_of) (wait_for n true scope_of target) target l

  -- The loop of `run`.
  unfoldable pub run_active : ℕ → (Handle → Op P → M (Loop P) Reply) → M (Loop P) (Unit {0})
  unfolding active_round run_next
  run_active zero scope_of l = out_of_fuel
  run_active (suc n) scope_of l = active_round (run_next n scope_of) (run_active n scope_of) l

  unfoldable pub run_loop : ℕ → (Handle → Op P → M (Loop P) Reply) → M (Loop P) (Unit {0})
  unfolding run_active
  run_loop n scope_of = do modify (λ l. record l { active = true }); run_active n scope_of

  unfoldable pub run_until_empty : ℕ → (Handle → Op P → M (Loop P) Reply) → M (Loop P) (Unit {0})
  unfolding run_loop forgive_empty
  run_until_empty n scope_of = do r ← attempt (run_loop n scope_of); forgive_empty r

  -- One request of the callback of `self'`.
  unfoldable pub request : ℕ → (Handle → Op P → M (Loop P) Reply) → Handle → Op P → M (Loop P) Reply
  request n again self' (insert_exact ev) = do
    h ← Events.insert_exact env again ev
    pure (of_handle h)
  request n again self' run_one = do run_next n again; pure done
  request n again self' run = do run_loop n again; pure done
  request n again self' stop = do modify (λ l. record l { active = false }); pure done
  request n again self' want_idle = do Scope.want_idle env self'; pure done
  request n again self' (run_until_complete h) = do wait_for n false again h; pure done
  request n again self' (event_alive h) = λ l. returns (of_bool (Timers.event_alive l h)) l
  request n again self' event_count = λ l. returns (of_number (Recycler.len l.events)) l
  request n again self' now = λ l. returns (of_number l.now) l
  request n again self' handle = pure (of_handle self')
  request n again self' (send_impl h content tp) = do
    Events.send_impl_sender (some self') h content tp
    pure done
  request n again self' (post_impl h content tp) = do
    Events.post_impl_sender env again (some self') h content tp
    pure done
  request n again self' (channel h) = pure (of_handle h)
  request n again self' (timeout_at when) = do
    id ← Timers.timeout_at self' when
    pure (of_timeout id)
  request n again self' (want_signal signum) = do Scope.want_signal env self' signum; pure done
  request n again self' (expect_message tp) = do Scope.expect_message self' tp; pure done
  request n again self' (io_register_any held interest opts) = do
    id ← Scope.io_register_any env self' held interest opts
    pure (of_io id)
  request n again self' (io_update id interest opts) = do
    Scope.io_update env self' id interest opts
    pure done
  request n again self' (io_remove id) = do Scope.io_remove env self' id; pure done
  request n again self' (io_mut id) = do content ← Scope.io_mut self' id; pure (of_any content)
  request n again self' (io_write id content) = do Scope.io_write self' id content; pure done
  request n again self' (background_submit job) = do
    id ← Scope.background_submit env job
    pure (of_background id)
  request n again self' (track_child pid) = do Scope.track_child env self' pid; pure done

  -- The scope of an event, for callbacks nested at most as deep as the fuel.
  unfoldable pub perform : ℕ → Handle → Op P → M (Loop P) Reply
  unfolding request
  perform zero self' op = λ _. out_of_fuel
  perform (suc n) self' op = request n (perform n) self' op

-- The methods of the loop itself, as its owner calls them.
module _ {P : Types} (env : Env P) where
  unfoldable pub loop_insert : ℕ → P.Ev → M (Loop P) Handle
  loop_insert n ev = Events.insert_exact env (perform env n) ev

  unfoldable pub loop_run_one : ℕ → M (Loop P) (Unit {0})
  loop_run_one n = run_next env n (perform env n)

  unfoldable pub loop_run : ℕ → M (Loop P) (Unit {0})
  loop_run n = run_loop env n (perform env n)

  unfoldable pub loop_run_until_complete : ℕ → Handle → M (Loop P) (Unit {0})
  loop_run_until_complete n target = wait_for env n false (perform env n) target

  unfoldable pub loop_run_until_empty : ℕ → M (Loop P) (Unit {0})
  loop_run_until_empty n = run_until_empty env n (perform env n)

  -- `send_impl` and `post_impl` of the loop: nobody sent it.
  unfoldable pub loop_send_impl : Handle → Any → Ty → M (Loop P) (Unit {0})
  loop_send_impl h content tp = Events.send_impl_sender none h content tp

  unfoldable pub loop_post_impl : ℕ → Handle → Any → Ty → M (Loop P) (Unit {0})
  loop_post_impl n h content tp = Events.post_impl_sender env (perform env n) none h content tp
