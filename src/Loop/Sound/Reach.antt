-- ===== src/Loop/Sound/Reach.antt =====
-- Every state that a loop can reach is well-formed (src/core.rs).
use eveboros.Base.{ℕ, subst, none, arith, lookup}
use eveboros.Outcome.{Outcome}
use eveboros.Outcome.Safe.{Safe, bind-Safe}
use eveboros.Recycler.Invariant.{new-IsValid}
use eveboros.Loop.{Types, Loop, Env, new, error_handler_set}
use eveboros.Loop.Run.{loop_send_impl, loop_post_impl, perform}
use eveboros.Loop.Scope.{pool_thread_count_set}
use eveboros.Loop.Keeps.{
  Rules, perform-Safe, loop_insert-Safe, loop_run_one-Safe, loop_run-Safe,
  loop_run_until_complete-Safe, loop_run_until_empty-Safe, post-Safe,
}
use eveboros.Loop.Local.{On}
use eveboros.Loop.Local.Steps.{signal_enable-Local}
use eveboros.Loop.Local.Calls.{Local-Rules}
use eveboros.Loop.Owner.{
  Call, insert_exact, run_one, run, run_until_empty, run_until_complete, send_impl, post_impl,
  set_context, set_error_handler, enable_signal, set_pool_threads, perform_call_of, Ends, returned,
  failed, Reach, made, called,
}
use eveboros.Loop.Sound.{Sound, Sound-Local}

Ends-Safe : {S A : Type 0} (I : S → Type 0) (o : Outcome S A) (s : S) → Safe I o → Ends o s → I s
Ends-Safe I o s h (returned a e) = subst (Safe I) e h
Ends-Safe I o s h (failed x e) = subst (Safe I) e h

module _ {P : Types} (env : Env P) where
  abbrev J : Loop P → Type 0
  J = On P (Sound P)

  rules : Rules env J
  rules = Local-Rules env (Sound-Local P)

  made-Sound : (context : P.Context) (world : P.World) → J (new env context world)
  unfolding new lookup
  made-Sound context world = record {
    events_valid = new-IsValid;
    ios_valid = new-IsValid;
    in_order = tt;
    tracked = λ pid h known. absurd (ground (arith, known));
  }

  call-Sound : (n : ℕ) (call : Call P) (l : Loop P) → J l → Safe J (perform_call_of env n call l)
  unfolding perform_call_of
  call-Sound n (insert_exact ev) l s =
      bind-Safe J _ _ l (loop_insert-Safe env J rules n ev l s) (λ _ _ s'. s')
  call-Sound n run_one l s = loop_run_one-Safe env J rules n l s
  call-Sound n run l s = loop_run-Safe env J rules n l s
  call-Sound n run_until_empty l s = loop_run_until_empty-Safe env J rules n l s
  call-Sound n (run_until_complete h) l s = loop_run_until_complete-Safe env J rules n h l s
  call-Sound n (send_impl h content tp) l s =
      unfold loop_send_impl in rules.send none h content tp l s
  call-Sound n (post_impl h content tp) l s =
      unfold loop_post_impl in
      post-Safe env J rules (perform env n) (perform-Safe env J rules n) none h content tp l s
  call-Sound n (set_context c) l s = s
  call-Sound n (set_error_handler handler) l s = unfold error_handler_set in s
  call-Sound n (enable_signal signum) l s = signal_enable-Local env (Sound-Local P) signum l s
  call-Sound n (set_pool_threads cnt) l s = unfold pool_thread_count_set in s

  -- In every state that the owner of a loop can bring it to, by any calls, with any events and after any
  -- errors, the storage of the events and that of the IOs are consistent, the timeouts are in firing order,
  -- and every child that the loop tracks belongs to an event that is there and knows of it.
  pub Reach-Sound : (l : Loop P) → Reach env l → Sound P l.events l.ios l.timeouts l.children
  Reach-Sound _ (made context world) = made-Sound context world
  Reach-Sound l (called n call {l = l₀} before ends) =
      Ends-Safe J (perform_call_of env n call l₀) l (call-Sound n call l₀ (Reach-Sound l₀ before))
        ends
