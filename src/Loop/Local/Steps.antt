-- ===== src/Loop/Local/Steps.antt =====
-- The single operations of the loop keep a lent holder in its place (src/core.rs).
use eveboros.Base.{
  ℕ, ◌+◌, refl, Option, arith, add, lookup, without, some, ◌≡◌, not, contains_key, nat_eq,
}
use eveboros.Error.{Result, IoError}
use eveboros.Any.{Any, Ty, ty_eq}
use eveboros.Handle.{Handle, handle_eq, IoId, token_shift}
use eveboros.Outcome.Safe.{
  Safe, attempt-Safe, unwrap-Safe, bind-Safe, unwrap-bind-Safe, modify-bind-Safe, assert-bind-Safe,
}
use eveboros.Recycler.{index_mut}
use eveboros.Loop.{Types, Loop, Env, EvHolder, IoHolder}
use eveboros.Loop.Timers.{timeout_at}
use eveboros.Loop.Events.{outside, store_event, send_impl_sender}
use eveboros.Loop.Gather.{release_child}
use eveboros.Loop.Scope.{
  update_holder, expect_message, io_idx, io_at, io_mut, io_write, signal_enable, want_signal,
  io_register_any, io_update, io_remove, background_submit, pool_thread_count_set, track_child,
  finish_register,
}
use eveboros.Loop.Run.{count_fired}
use eveboros.Loop.Keeps.{msg_type_check-Safe}
use eveboros.Loop.Local.{Local, Tables, On, IsGentle}

module _ {P : Types} {Free : ℕ → Type 0} {Q : Tables P} (rules : Local P Free Q) where
  abbrev I : Loop P → Type 0
  I = On P Q

  pub update_holder-Local :
      (h : Handle) (f : EvHolder P.Ev → EvHolder P.Ev) (l : Loop P)
      → IsGentle f
      → I l
      → Safe I (update_holder h f l)
  unfolding update_holder
  update_holder-Local h f l gentle i =
      unwrap-bind-Safe I (index_mut l.events h.id f) _ l (λ events e. rules.touch h.id f gentle e i)

  pub timeout_at-Local : (h : Handle) (when : ℕ) (l : Loop P) → I l → Safe I (timeout_at h when l)
  unfolding timeout_at
  timeout_at-Local h when l i = unwrap-bind-Safe I _ _ l (λ events e.
      modify-bind-Safe I _ _ l (rules.push _ (rules.touch h.id _ (λ x. (refl, refl, refl)) e i)))

  pub count_fired-Local : (h : Handle) (l : Loop P) → I l → Safe I (count_fired h l)
  unfolding count_fired
  count_fired-Local h l i = unwrap-bind-Safe I _ _ l (λ holder e.
      unwrap-bind-Safe I _ _ l (λ left e'. modify-bind-Safe I _ _ l (
        update_holder-Local h _ (record l { timeouts_fired = l.timeouts_fired + 1 })
          (λ x. (refl, refl, refl)) i)))

  pub expect-Local : (h : Handle) (tp : Ty) (l : Loop P) → I l → Safe I (expect_message h tp l)
  unfolding expect_message
  expect-Local h tp l i = update_holder-Local h _ l (λ x. (refl, refl, refl)) i

  pub io_idx-Local : (h : Handle) (id : IoId) (l : Loop P) → I l → Safe I (io_idx h id l)
  unfolding io_idx
  io_idx-Local h id l i = ground arith

  pub io_at-Local : (h : Handle) (k : ℕ) (l : Loop P) → I l → Safe I (io_at h k l)
  unfolding io_at
  io_at-Local h k l i =
      unwrap-bind-Safe I _ _ l (λ holder e. unwrap-Safe I (lookup k holder.ios) l i)

  pub io_mut-Local : (h : Handle) (id : IoId) (l : Loop P) → I l → Safe I (io_mut h id l)
  unfolding io_mut
  io_mut-Local h id l i =
      bind-Safe I _ _ l (io_idx-Local h id l i)
        (λ k l' i'. bind-Safe I _ _ l' (io_at-Local h k l' i') (λ _ _ i''. i''))

  pub io_write-Local :
      (h : Handle) (id : IoId) (content : Any) (l : Loop P) → I l → Safe I (io_write h id content l)
  unfolding io_write
  io_write-Local h id content l i = bind-Safe I _ _ l (io_idx-Local h id l i) (λ k l' i'.
      bind-Safe I _ _ l' (io_at-Local h k l' i')
        (λ held l'' i''. update_holder-Local h _ l'' (λ x. (refl, refl, refl)) i''))

  pub outside-Local :
      (call : P.World → Option IoError × P.World) (l : Loop P) → I l → Safe I (outside call l)
  unfolding outside
  outside-Local call l i = ground arith

  pub send-Local :
      (from : Option Handle) (h : Handle) (content : Any) (tp : Ty) (l : Loop P)
      → I l
      → Safe I (send_impl_sender from h content tp l)
  unfolding send_impl_sender
  send-Local from h content tp l i =
      bind-Safe I _ _ l (msg_type_check-Safe I h tp l i) (λ _ _ i'. i')

  -- The child leaves both tables, whichever is written first.
  pub release_child-Local :
      (pid : ℕ) (h : Handle) (l : Loop P)
      → lookup pid l.children ≡ some h
      → I l
      → Safe I (release_child pid h (record l { children = without pid l.children }))
  unfolding release_child
  release_child-Local pid h l e i = unwrap-bind-Safe I _ _ _ (λ holder _.
      unwrap-bind-Safe I _ _ _
        (λ _ _. unwrap-bind-Safe I _ _ _ (λ events e'. rules.orphan pid h e e' i)))

  pub finish_register-Local :
      (h : Handle) (io : IoHolder) (k : ℕ) (r : Result (Unit {0})) (l : Loop P)
      → I l
      → Safe I (finish_register h io k r l)
  unfolding finish_register
  finish_register-Local h io k (Result.err e) l i =
      unwrap-bind-Safe I _ _ l (λ p e'. modify-bind-Safe I _ _ l (rules.io_release k e' i))
  finish_register-Local h io k (Result.ok _) l i =
      bind-Safe I _ _ l (update_holder-Local h _ l (λ x. (refl, refl, refl)) i) (λ _ _ i'. i')

module _ {P : Types} {Free : ℕ → Type 0} {Q : Tables P} (env : Env P) (rules : Local P Free Q) where
  abbrev J : Loop P → Type 0
  J = On P Q

  pub store-event-Local : (ev : P.Ev) (l : Loop P) → J l → Safe J (store_event env ev l)
  unfolding store_event
  store-event-Local ev l i =
      unwrap-bind-Safe J _ _ l (λ p e. modify-bind-Safe J _ _ l (rules.store _ _ _ e i))

  pub signal_enable-Local : (s : ℕ) (l : Loop P) → J l → Safe J (signal_enable env s l)
  unfolding signal_enable
  signal_enable-Local s l i = ground arith

  pub want_signal-Local : (h : Handle) (s : ℕ) (l : Loop P) → J l → Safe J (want_signal env h s l)
  unfolding want_signal
  want_signal-Local h s l i = bind-Safe J _ _ l (signal_enable-Local s l i) (λ _ _ i'. i')

  pub io_register-Local :
      (h : Handle) (io : IoHolder) (interest opts : ℕ) (l : Loop P)
      → J l
      → Safe J (io_register_any env h io interest opts l)
  unfolding io_register_any
  io_register-Local h io interest opts l i =
      bind-Safe J _ _ l
        (unwrap-bind-Safe J _ _ l (λ p e. modify-bind-Safe J _ _ l (rules.io_store _ h e i)))
        (λ id l₁ i₁.
          bind-Safe J _ _ l₁
            (attempt-Safe J _ l₁
              (outside-Local rules (env.register io.io (id + token_shift) interest opts) l₁ i₁))
            (λ r l₂ i₂. finish_register-Local rules h io id r l₂ i₂))

  pub io_update-Local :
      (h : Handle) (id : IoId) (interest opts : ℕ) (l : Loop P)
      → J l
      → Safe J (io_update env h id interest opts l)
  unfolding io_update
  io_update-Local h id interest opts l i =
      bind-Safe J _ _ l (io_idx-Local rules h id l i) (λ k l' i'.
        bind-Safe J _ _ l' (io_at-Local rules h k l' i') (λ held l'' i''.
          outside-Local rules (env.reregister held.io id.token interest opts) l'' i''))

  pub io_remove-Local : (h : Handle) (id : IoId) (l : Loop P) → J l → Safe J (io_remove env h id l)
  unfolding io_remove
  io_remove-Local h id l i = bind-Safe J _ _ l (io_idx-Local rules h id l i) (λ k l₁ i₁.
      bind-Safe J _ _ l₁ (io_at-Local rules h k l₁ i₁) (λ held l₂ i₂.
        bind-Safe J _ _ l₂ (update_holder-Local rules h _ l₂ (λ x. (refl, refl, refl)) i₂)
          (λ _ l₃ i₃.
            bind-Safe J _ _ l₃ (unwrap-bind-Safe J _ _ l₃ (λ _ e. rules.io_release k e i₃))
              (λ _ l₄ i₄. modify-bind-Safe J _ _ l₄ (
                outside-Local rules (env.deregister held.io)
                  (record l₄ { ios_released = add k l₄.ios_released }) i₄)))))

  pub background-Local : (job : P.Job) (l : Loop P) → J l → Safe J (background_submit env job l)
  unfolding background_submit pool_thread_count_set
  background-Local job l i = bind-Safe J _ _ l (ground arith) (λ _ _ i'. i')

  pub track_child-Local :
      (h : Handle) (pid : ℕ) (l : Loop P) → J l → Safe J (track_child env h pid l)
  unfolding track_child update_holder
  track_child-Local h pid l i = bind-Safe J _ _ l (signal_enable-Local env.sigchld l i) (λ _ l₁ i₁.
      assert-bind-Safe J (λ l'. not (contains_key pid l'.children)) _ l₁
        (λ new.
          modify-bind-Safe J _ _ l₁
            (unwrap-bind-Safe J _ _ _ (λ events e. rules.adopt pid h (ground (arith, new)) e i₁))))
