-- ===== src/Loop/Run/Settled.antt =====
-- The fuel of a run is a bound and nothing else (src/core.rs, the public methods of the loop).
use eveboros.Base.{ℕ, zero, suc, ◌+◌, ◌≡◌, ◌≢◌, refl, sym, ap, ◌∙◌, false, some, none, arith}
use eveboros.Handle.{Handle}
use eveboros.Outcome.{out_of_fuel, M, pure, ◌>>=◌}
use eveboros.Outcome.Below.{IsBelow, IsBelow-refl, IsBelow-eq, attempt-IsBelow, bind-IsBelow}
use eveboros.Loop.{
  Types, Loop, Env, Op, insert_exact, run_one, run, stop, want_idle, run_until_complete,
  event_alive, event_count, now, handle, send_impl, post_impl, channel, timeout_at, want_signal,
  expect_message, io_register_any, io_update, io_remove, io_mut, io_write, background_submit,
  track_child, Reply,
}
use eveboros.Loop.Run.{
  run_until_empty, request, perform, loop_insert, loop_run_one, loop_run, loop_run_until_complete,
  loop_run_until_empty, loop_post_impl,
}
use eveboros.Loop.Run.Fuel.{
  ScopeBelow, insert_exact-IsBelow, post-IsBelow, run_next-IsBelow, wait_for-IsBelow,
  run_loop-IsBelow,
}
use eveboros.Loop.Owner
use eveboros.Loop.Owner.{
  Call, perform_call_of, set_context, set_error_handler, enable_signal, set_pool_threads,
}

module _ {P : Types} (env : Env P) where
  -- A request whose answer is made of what an operation returned.
  reply-IsBelow :
      {A B : Type 0} (m m' : M (Loop P) A) (f : A → B) (l : Loop P)
      → IsBelow (m l) (m' l)
      → IsBelow ((m >>= λ x. pure (f x)) l) ((m' >>= λ x. pure (f x)) l)
  reply-IsBelow m m' f l h = bind-IsBelow m m' _ _ l h (λ _ _. refl)

  request-IsBelow :
      (n : ℕ) (a b : Handle → Op P → M (Loop P) Reply)
      → ScopeBelow a b
      → ScopeBelow (request env n a) (request env (suc n) b)
  unfolding request
  request-IsBelow n a b h self' (insert_exact ev) l =
      reply-IsBelow _ _ _ l (insert_exact-IsBelow env a b h ev l)
  request-IsBelow n a b h self' run_one l = reply-IsBelow _ _ _ l (run_next-IsBelow env a b h n l)
  request-IsBelow n a b h self' run l = reply-IsBelow _ _ _ l (run_loop-IsBelow env a b h n l)
  request-IsBelow n a b h self' (run_until_complete t) l =
      reply-IsBelow _ _ _ l (wait_for-IsBelow env a b h n false t l)
  request-IsBelow n a b h self' (post_impl t content tp) l =
      reply-IsBelow _ _ _ l (post-IsBelow env a b h (some self') t content tp l)
  request-IsBelow n a b h self' stop l = IsBelow-refl (request env n a self' stop l)
  request-IsBelow n a b h self' want_idle l = IsBelow-refl (request env n a self' want_idle l)
  request-IsBelow n a b h self' (event_alive t) l =
      IsBelow-refl (request env n a self' (event_alive t) l)
  request-IsBelow n a b h self' event_count l = IsBelow-refl (request env n a self' event_count l)
  request-IsBelow n a b h self' now l = IsBelow-refl (request env n a self' now l)
  request-IsBelow n a b h self' handle l = IsBelow-refl (request env n a self' handle l)
  request-IsBelow n a b h self' (send_impl t content tp) l =
      IsBelow-refl (request env n a self' (send_impl t content tp) l)
  request-IsBelow n a b h self' (channel t) l = IsBelow-refl (request env n a self' (channel t) l)
  request-IsBelow n a b h self' (timeout_at when) l =
      IsBelow-refl (request env n a self' (timeout_at when) l)
  request-IsBelow n a b h self' (want_signal signum) l =
      IsBelow-refl (request env n a self' (want_signal signum) l)
  request-IsBelow n a b h self' (expect_message tp) l =
      IsBelow-refl (request env n a self' (expect_message tp) l)
  request-IsBelow n a b h self' (io_register_any held interest opts) l =
      IsBelow-refl (request env n a self' (io_register_any held interest opts) l)
  request-IsBelow n a b h self' (io_update id interest opts) l =
      IsBelow-refl (request env n a self' (io_update id interest opts) l)
  request-IsBelow n a b h self' (io_remove id) l =
      IsBelow-refl (request env n a self' (io_remove id) l)
  request-IsBelow n a b h self' (io_mut id) l = IsBelow-refl (request env n a self' (io_mut id) l)
  request-IsBelow n a b h self' (io_write id content) l =
      IsBelow-refl (request env n a self' (io_write id content) l)
  request-IsBelow n a b h self' (background_submit job) l =
      IsBelow-refl (request env n a self' (background_submit job) l)
  request-IsBelow n a b h self' (track_child pid) l =
      IsBelow-refl (request env n a self' (track_child pid) l)

  perform-IsBelow : (n : ℕ) → ScopeBelow (perform env n) (perform env (suc n))
  unfolding perform
  perform-IsBelow zero h op l = tt
  perform-IsBelow (suc n) h op l =
      request-IsBelow n (perform env n) (perform env (suc n)) (perform-IsBelow n) h op l

  call-IsBelow :
      (n : ℕ) (call : Call P) (l : Loop P)
      → IsBelow (perform_call_of env n call l) (perform_call_of env (suc n) call l)
  unfolding perform_call_of loop_insert loop_run_one loop_run loop_run_until_complete
      loop_run_until_empty run_until_empty loop_post_impl
  call-IsBelow n (Owner.insert_exact ev) l =
      bind-IsBelow _ _ _ _ l (insert_exact-IsBelow env _ _ (perform-IsBelow n) ev l) (λ _ _. refl)
  call-IsBelow n Owner.run_one l = run_next-IsBelow env _ _ (perform-IsBelow n) n l
  call-IsBelow n Owner.run l = run_loop-IsBelow env _ _ (perform-IsBelow n) n l
  call-IsBelow n Owner.run_until_empty l =
      bind-IsBelow _ _ _ _ l
        (attempt-IsBelow _ _ l (run_loop-IsBelow env _ _ (perform-IsBelow n) n l))
        (λ r l'. IsBelow-refl _)
  call-IsBelow n (Owner.run_until_complete h) l =
      wait_for-IsBelow env _ _ (perform-IsBelow n) n false h l
  call-IsBelow n (Owner.post_impl h content tp) l =
      post-IsBelow env _ _ (perform-IsBelow n) none h content tp l
  call-IsBelow n (Owner.send_impl h content tp) l =
      IsBelow-refl (perform_call_of env n (Owner.send_impl h content tp) l)
  call-IsBelow n (set_context c) l = IsBelow-refl (perform_call_of env n (set_context c) l)
  call-IsBelow n (set_error_handler handler) l =
      IsBelow-refl (perform_call_of env n (set_error_handler handler) l)
  call-IsBelow n (enable_signal signum) l =
      IsBelow-refl (perform_call_of env n (enable_signal signum) l)
  call-IsBelow n (set_pool_threads cnt) l =
      IsBelow-refl (perform_call_of env n (set_pool_threads cnt) l)

  -- A call of the loop's owner that ended with some fuel, by returning, by an error or by a panic, ends in
  -- the same way and in the same state with any more fuel, for the rounds of the loops and for the depth of
  -- callbacks alike.
  call_settled :
      (n k : ℕ) (call : Call P) (l : Loop P)
      → perform_call_of env n call l ≢ out_of_fuel
      → perform_call_of env (k + n) call l ≡ perform_call_of env n call l
  call_settled n zero call l ended = ap (λ m. perform_call_of env m call l) (omega arith)
  call_settled n (suc k) call l ended =
      let before = call_settled n k call l ended in
      ap (λ m. perform_call_of env m call l) (omega arith)
      ∙ IsBelow-eq _ _ (call-IsBelow (k + n) call l) (λ e. ended (sym before ∙ e))
      ∙ before
