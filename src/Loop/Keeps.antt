-- ===== src/Loop/Keeps.antt =====
-- Invariants of the running loop. A condition that every single operation keeps (`Rules`) is kept by
-- whatever callbacks do, nested to any depth, and by all the run loops.
use eveboros.Base.{
  ℕ, zero, suc, ◌≡◌, refl, Bool, true, false, Option, some, List, [], ◌∷◌, arith, nat_eq,
}
use eveboros.Error.{Result, empty}
use eveboros.Any.{Any, Ty}
use eveboros.Handle.{Handle, IoId}
use eveboros.Outcome.{returns, M, pure, attempt, ◌>>=◌, ◌>>◌}
use eveboros.Outcome.Safe.{Safe, attempt-Safe, bind-Safe, modify-bind-Safe, if-Safe}
use eveboros.Loop.{
  react, Types, Loop, Env, IoHolder, Task, TaskParam, io_ready, timeout, signal, message, child,
  idle, Op, insert_exact, run_one, run, stop, want_idle, run_until_complete, event_alive,
  event_count, now, handle, send_impl, post_impl, channel, timeout_at, want_signal, expect_message,
  io_register_any, io_update, io_remove, io_mut, io_write, background_submit, track_child, Reply,
  Callback, Script, respond, get_context, effect, abort, set_context, ask,
}
use eveboros.Loop.Timers
use eveboros.Loop.Events
use eveboros.Loop.Events.{event_call, run_script, msg_type_check, store_event, send_impl_sender}
use eveboros.Loop.Gather.{tasks_gather}
use eveboros.Loop.Scope
use eveboros.Loop.Run.{
  run_io, pick_task, wait_round, active_round, count_fired, run_task, run_next, check_deadlock,
  wait_for, run_active, run_loop, request, perform, loop_insert, loop_run_one, loop_run,
  loop_run_until_complete, loop_run_until_empty, run_until_empty, forgive_empty,
}

-- The scope that callbacks get keeps `I`.
abbrev pub ScopeKeeps :
    {P : Types} → (Loop P → Type 0) → (Handle → Op P → M (Loop P) Reply) → Type 0
ScopeKeeps {P} I scope_of = (h : Handle) (op : Op P) (l : Loop P) → I l → Safe I (scope_of h op l)

pub record Rules {P : Types} (env : Env P) (I : Loop P → Type 0) : Type 0 where
  pub call :
      (scope_of : Handle → Op P → M (Loop P) Reply)
      → ScopeKeeps I scope_of
      → (h : Handle) (f : P.Ev → Script P) (l : Loop P) → I l
      → Safe I (event_call env scope_of h f l)
  pub store : (ev : P.Ev) (l : Loop P) → I l → Safe I (store_event env ev l)
  pub active : (l : Loop P) (b : Bool) → I l → I (record l { active = b })
  pub pop :
      (l : Loop P) (t : Task) (ts : List Task)
      → l.scheduled ≡ t ∷ ts
      → I l
      → I (record l { scheduled = ts })
  pub send :
      (from : Option Handle) (h : Handle) (content : Any) (tp : Ty) (l : Loop P)
      → I l
      → Safe I (send_impl_sender from h content tp l)
  pub timer : (h : Handle) (when : ℕ) (l : Loop P) → I l → Safe I (Timers.timeout_at h when l)
  pub idle : (h : Handle) (l : Loop P) → I l → Safe I (Scope.want_idle env h l)
  pub signal : (h : Handle) (s : ℕ) (l : Loop P) → I l → Safe I (Scope.want_signal env h s l)
  pub expect : (h : Handle) (tp : Ty) (l : Loop P) → I l → Safe I (Scope.expect_message h tp l)
  pub io_register :
      (h : Handle) (io : IoHolder) (interest opts : ℕ) (l : Loop P)
      → I l
      → Safe I (Scope.io_register_any env h io interest opts l)
  pub io_update :
      (h : Handle) (id : IoId) (interest opts : ℕ) (l : Loop P)
      → I l
      → Safe I (Scope.io_update env h id interest opts l)
  pub io_remove : (h : Handle) (id : IoId) (l : Loop P) → I l → Safe I (Scope.io_remove env h id l)
  pub io_mut : (h : Handle) (id : IoId) (l : Loop P) → I l → Safe I (Scope.io_mut h id l)
  pub io_write :
      (h : Handle) (id : IoId) (content : Any) (l : Loop P)
      → I l
      → Safe I (Scope.io_write h id content l)
  pub background : (job : P.Job) (l : Loop P) → I l → Safe I (Scope.background_submit env job l)
  pub child : (h : Handle) (pid : ℕ) (l : Loop P) → I l → Safe I (Scope.track_child env h pid l)
  pub gather : (l : Loop P) → I l → Safe I (tasks_gather env l)
  pub fired : (h : Handle) (l : Loop P) → I l → Safe I (count_fired h l)

module _ {P : Types} where
  -- `msg_type_check` changes nothing.
  pub msg_type_check-Safe :
      (I : Loop P → Type 0) (h : Handle) (tp : Ty) (l : Loop P)
      → I l
      → Safe I (msg_type_check h tp l)
  unfolding msg_type_check
  msg_type_check-Safe I h tp l i = ground arith

module _ {P : Types} {I : Loop P → Type 0} where
  -- A callback keeps what its requests keep.
  pub run_script-Safe :
      (req : Op P → M (Loop P) Reply)
      → ((op : Op P) (l : Loop P) → I l → Safe I (req op l))
      → ((l : Loop P) (c : P.Context) (w : P.World) → I l → I (record l { context = c; world = w }))
      → {E : Type 0} (s : Callback P E) (l : Loop P) → I l
      → Safe I (run_script req s l)
  unfolding run_script
  run_script-Safe req keeps context (respond ev r) l i = i
  run_script-Safe req keeps context (get_context k) l i =
      run_script-Safe req keeps context (k l.context) l i
  run_script-Safe req keeps context (set_context c s) l i =
      run_script-Safe req keeps context s (record l { context = c }) (context l c l.world i)
  run_script-Safe req keeps context (effect change k) l i =
      run_script-Safe req keeps context (k l.world) (record l { world = change l.world })
        (context l l.context (change l.world) i)
  run_script-Safe req keeps context abort l i = tt
  run_script-Safe req keeps context (ask op k) l i =
      bind-Safe I (attempt (req op)) (λ r. run_script req (k r)) l
        (attempt-Safe I (req op) l (keeps op l i))
        (λ r l' i'. run_script-Safe req keeps context (k r) l' i')

module _ {P : Types} (env : Env P) (I : Loop P → Type 0) (rules : Rules env I) where
  module _ (scope_of : Handle → Op P → M (Loop P) Reply) (scope : ScopeKeeps I scope_of) where
    insert-Safe : (ev : P.Ev) (l : Loop P) → I l → Safe I (Events.insert_exact env scope_of ev l)
    unfolding Events.insert_exact
    insert-Safe ev l i = bind-Safe I _ _ l (rules.store ev l i) (λ h l' i'.
        bind-Safe I _ _ l' (rules.call scope_of scope h env.event.init l' i') (λ _ _ i. i))

    pub post-Safe :
        (from : Option Handle) (h : Handle) (content : Any) (tp : Ty) (l : Loop P)
        → I l
        → Safe I (Events.post_impl_sender env scope_of from h content tp l)
    unfolding Events.post_impl_sender
    post-Safe from h content tp l i =
        bind-Safe I _ _ l (msg_type_check-Safe I h tp l i)
          (λ _ l' i'. rules.call scope_of scope h _ l' i')

    run_io-Safe :
        (h : Handle) (id : IoId) (ready : ℕ) (l : Loop P)
        → I l
        → Safe I (run_io env scope_of h id ready l)
    unfolding run_io
    run_io-Safe h id ready l i =
        let called = rules.call scope_of scope h (react env.event (io_ready id ready)) l i in
        ground (arith, called)

    run_task-Safe :
        (h : Handle) (p : TaskParam) (l : Loop P) → I l → Safe I (run_task env scope_of h p l)
    unfolding run_task
    run_task-Safe h (io_ready id ready) l i = run_io-Safe h id ready l i
    run_task-Safe h (timeout id) l i =
        bind-Safe I _ _ l (rules.fired h l i) (λ _ l' i'. rules.call scope_of scope h _ l' i')
    run_task-Safe h (signal s) l i = rules.call scope_of scope h _ l i
    run_task-Safe h (message m) l i = rules.call scope_of scope h _ l i
    run_task-Safe h (child pid e) l i = rules.call scope_of scope h _ l i
    run_task-Safe h idle l i = rules.call scope_of scope h _ l i

    pick_task-Safe :
        (again : M (Loop P) (Unit {0}))
        → ((l : Loop P) → I l → Safe I (again l))
        → (ts : List Task) (l : Loop P) → l.scheduled ≡ ts
        → I l
        → Safe I (pick_task env scope_of again ts l)
    unfolding pick_task
    pick_task-Safe again keeps [] l e i =
        bind-Safe I _ _ l (rules.gather l i) (λ _ l' i'. keeps l' i')
    pick_task-Safe again keeps (t ∷ ts) l e i =
        let i' = rules.pop l t ts e i in
        if-Safe I _ _ _ (λ _. run_task-Safe t.recipient t.param _ i') (λ _. keeps _ i')

    pub run_next-Safe : (n : ℕ) (l : Loop P) → I l → Safe I (run_next env n scope_of l)
    unfolding run_next
    run_next-Safe zero l i = tt
    run_next-Safe (suc n) l i = pick_task-Safe _ (run_next-Safe n) l.scheduled l refl i

    check_deadlock-Safe :
        (checked : Bool) (h : Handle) (l : Loop P) → I l → Safe I (check_deadlock checked h l)
    unfolding check_deadlock
    check_deadlock-Safe true h l i = i
    check_deadlock-Safe false h l i = ground arith

    wait_round-Safe :
        (checked : Bool) (step again : M (Loop P) (Unit {0}))
        → ((l : Loop P) → I l → Safe I (step l))
        → ((l : Loop P) → I l → Safe I (again l))
        → (h : Handle) (l : Loop P) → I l
        → Safe I (wait_round checked step again h l)
    unfolding wait_round
    wait_round-Safe checked step again keeps next h l i =
        if-Safe I (Timers.event_alive l h) ((do check_deadlock checked h; step; again) l)
          (returns tt l)
          (λ _.
            bind-Safe I _ _ l (check_deadlock-Safe checked h l i)
              (λ _ l' i'. bind-Safe I _ _ l' (keeps l' i') (λ _ l'' i''. next l'' i'')))
          (λ _. i)

    pub wait_for-Safe :
        (n : ℕ) (checked : Bool) (h : Handle) (l : Loop P)
        → I l
        → Safe I (wait_for env n checked scope_of h l)
    unfolding wait_for
    wait_for-Safe zero checked h l i = tt
    wait_for-Safe (suc n) checked h l i =
        wait_round-Safe checked _ _ (run_next-Safe n) (wait_for-Safe n true h) h l i

    active_round-Safe :
        (step again : M (Loop P) (Unit {0}))
        → ((l : Loop P) → I l → Safe I (step l))
        → ((l : Loop P) → I l → Safe I (again l))
        → (l : Loop P) → I l
        → Safe I (active_round step again l)
    unfolding active_round
    active_round-Safe step again keeps next l i =
        if-Safe I l.active ((do step; again) l) (returns tt l)
          (λ _. bind-Safe I _ _ l (keeps l i) (λ _ l' i'. next l' i')) (λ _. i)

    pub run_active-Safe : (n : ℕ) (l : Loop P) → I l → Safe I (run_active env n scope_of l)
    unfolding run_active
    run_active-Safe zero l i = tt
    run_active-Safe (suc n) l i = active_round-Safe _ _ (run_next-Safe n) (run_active-Safe n) l i

    pub run_loop-Safe : (n : ℕ) (l : Loop P) → I l → Safe I (run_loop env n scope_of l)
    unfolding run_loop
    run_loop-Safe n l i = modify-bind-Safe I _ _ l (run_active-Safe n _ (rules.active l true i))

    -- The end of a request that answers with a value made of what the operation returned.
    reply-Safe :
        {A B : Type 0} (m : M (Loop P) A) (f : A → B) (l : Loop P)
        → Safe I (m l)
        → Safe I ((m >>= λ a. pure (f a)) l)
    reply-Safe m f l h = bind-Safe I _ _ l h (λ _ _ i. i)

    request-Safe : (n : ℕ) → ScopeKeeps I (request env n scope_of)
    unfolding request
    request-Safe n h (insert_exact ev) l i = reply-Safe _ _ l (insert-Safe ev l i)
    request-Safe n h run_one l i = reply-Safe _ _ l (run_next-Safe n l i)
    request-Safe n h run l i = reply-Safe _ _ l (run_loop-Safe n l i)
    request-Safe n h stop l i = modify-bind-Safe I _ _ l (rules.active l false i)
    request-Safe n h want_idle l i = reply-Safe _ _ l (rules.idle h l i)
    request-Safe n h (run_until_complete t) l i = reply-Safe _ _ l (wait_for-Safe n false t l i)
    request-Safe n h (event_alive t) l i = i
    request-Safe n h event_count l i = i
    request-Safe n h now l i = i
    request-Safe n h handle l i = i
    request-Safe n h (send_impl t content tp) l i =
        reply-Safe _ _ l (rules.send (some h) t content tp l i)
    request-Safe n h (post_impl t content tp) l i =
        reply-Safe _ _ l (post-Safe (some h) t content tp l i)
    request-Safe n h (channel t) l i = i
    request-Safe n h (timeout_at when) l i = reply-Safe _ _ l (rules.timer h when l i)
    request-Safe n h (want_signal s) l i = reply-Safe _ _ l (rules.signal h s l i)
    request-Safe n h (expect_message tp) l i = reply-Safe _ _ l (rules.expect h tp l i)
    request-Safe n h (io_register_any io a b) l i =
        reply-Safe _ _ l (rules.io_register h io a b l i)
    request-Safe n h (io_update id a b) l i = reply-Safe _ _ l (rules.io_update h id a b l i)
    request-Safe n h (io_remove id) l i = reply-Safe _ _ l (rules.io_remove h id l i)
    request-Safe n h (io_mut id) l i = reply-Safe _ _ l (rules.io_mut h id l i)
    request-Safe n h (io_write id c) l i = reply-Safe _ _ l (rules.io_write h id c l i)
    request-Safe n h (background_submit job) l i = reply-Safe _ _ l (rules.background job l i)
    request-Safe n h (track_child pid) l i = reply-Safe _ _ l (rules.child h pid l i)

  -- Requests of callbacks keep `I`, however deep the callbacks that they start are nested.
  pub perform-Safe : (n : ℕ) → ScopeKeeps I (perform env n)
  unfolding perform
  perform-Safe zero h op l i = tt
  perform-Safe (suc n) h op l i = request-Safe (perform env n) (perform-Safe n) n h op l i

  pub loop_insert-Safe : (n : ℕ) (ev : P.Ev) (l : Loop P) → I l → Safe I (loop_insert env n ev l)
  unfolding loop_insert
  loop_insert-Safe n ev l i = insert-Safe (perform env n) (perform-Safe n) ev l i

  pub loop_run_one-Safe : (n : ℕ) (l : Loop P) → I l → Safe I (loop_run_one env n l)
  unfolding loop_run_one
  loop_run_one-Safe n l i = run_next-Safe (perform env n) (perform-Safe n) n l i

  pub loop_run-Safe : (n : ℕ) (l : Loop P) → I l → Safe I (loop_run env n l)
  unfolding loop_run
  loop_run-Safe n l i = run_loop-Safe (perform env n) (perform-Safe n) n l i

  pub loop_run_until_complete-Safe :
      (n : ℕ) (h : Handle) (l : Loop P) → I l → Safe I (loop_run_until_complete env n h l)
  unfolding loop_run_until_complete
  loop_run_until_complete-Safe n h l i =
      wait_for-Safe (perform env n) (perform-Safe n) n false h l i

  forgive_empty-Safe : (r : Result (Unit {0})) (l : Loop P) → I l → Safe I (forgive_empty r l)
  unfolding forgive_empty
  forgive_empty-Safe (Result.ok _) l i = i
  forgive_empty-Safe (Result.err empty) l i = i
  forgive_empty-Safe (Result.err _) l i = i

  pub loop_run_until_empty-Safe : (n : ℕ) (l : Loop P) → I l → Safe I (loop_run_until_empty env n l)
  unfolding loop_run_until_empty run_until_empty
  loop_run_until_empty-Safe n l i =
      bind-Safe I _ _ l (attempt-Safe I _ l (run_loop-Safe (perform env n) (perform-Safe n) n l i))
        (λ r l' i'. forgive_empty-Safe r l' i')
