-- ===== src/Loop/Owner.antt =====
-- The loop as its owner uses it (src/core.rs, the public methods of `Loop` and `LoopIface`): the calls, and
-- the states that calls can lead to.
use eveboros.Base.{ℕ, ◌≡◌}
use eveboros.Error.{Error}
use eveboros.Any.{Any, Ty}
use eveboros.Handle.{Handle}
use eveboros.Outcome.{Outcome, returns, fails, M, modify, ◌>>◌, pure}
use eveboros.Loop.{Types, Loop, Env, new, error_handler_set}
use eveboros.Loop.Scope.{signal_enable, pool_thread_count_set}
use eveboros.Loop.Run.{
  loop_insert, loop_run_one, loop_run, loop_run_until_complete, loop_run_until_empty,
  loop_send_impl, loop_post_impl,
}

-- A call by the owner.
pub data Call (P : Types) : Type 0 where
  insert_exact : P.Ev → Call P
  run_one run run_until_empty : Call P
  run_until_complete : Handle → Call P
  send_impl post_impl : Handle → Any → Ty → Call P
  set_context : P.Context → Call P
  set_error_handler : P.Handler → Call P
  enable_signal set_pool_threads : ℕ → Call P

module _ {P : Types} (env : Env P) where
  -- What a call does; what it returns is left out.
  unfoldable pub perform_call_of : ℕ → Call P → M (Loop P) (Unit {0})
  perform_call_of n (insert_exact ev) = do loop_insert env n ev; pure tt
  perform_call_of n run_one = loop_run_one env n
  perform_call_of n run = loop_run env n
  perform_call_of n run_until_empty = loop_run_until_empty env n
  perform_call_of n (run_until_complete h) = loop_run_until_complete env n h
  perform_call_of n (send_impl h content tp) = loop_send_impl env h content tp
  perform_call_of n (post_impl h content tp) = loop_post_impl env n h content tp
  perform_call_of n (set_context c) = modify (λ l. record l { context = c })
  perform_call_of n (set_error_handler handler) = modify (λ l. error_handler_set handler l)
  perform_call_of n (enable_signal signum) = signal_enable env signum
  perform_call_of n (set_pool_threads cnt) = pool_thread_count_set env cnt

-- The state in which a call ends, with an error or without.
pub data Ends {S A : Type 0} (o : Outcome S A) (s : S) : Type 0 where
  returned : (a : A) → o ≡ returns a s → Ends o s
  failed : (e : Error) → o ≡ fails e s → Ends o s

-- The states of a loop between the calls of its owner, whatever its events do and whatever errors were
-- returned before.
pub data Reach {P : Types} (env : Env P) : Loop P → Type 0 where
  made : (context : P.Context) (world : P.World) → Reach env (new env context world)
  called :
      (n : ℕ) (call : Call P) {l l' : Loop P}
      → Reach env l
      → Ends (perform_call_of env n call l) l'
      → Reach env l'
