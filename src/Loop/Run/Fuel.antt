-- ===== src/Loop/Run/Fuel.antt =====
-- More fuel changes no run that has ended (src/core.rs, the run loops and nested callbacks).
use eveboros.Base.{
  ℕ, zero, suc, ◌-◌, refl, Bool, true, Option, none, some, List, [], ◌∷◌, contains_key,
  if◌then◌else◌, ltb, nat_eq,
}
use eveboros.Any.{Any, Ty}
use eveboros.Handle.{Handle, IoId, token_shift}
use eveboros.Outcome.{returns, panic, M, attempt, ◌>>=◌}
use eveboros.Outcome.Below.{IsBelow, IsBelow-refl, attempt-IsBelow, if-IsBelow, bind-IsBelow}
use eveboros.Recycler
use eveboros.Recycler.{Recycler}
use eveboros.Loop.{
  Types, Loop, Env, EvHolder, Task, TaskParam, io_ready, timeout, signal, message, child, idle, Op,
  Reply, Callback, Script, respond, get_context, effect, abort, set_context, ask, react,
}
use eveboros.Loop.Timers
use eveboros.Loop.Events
use eveboros.Loop.Events.{
  run_script, found, perform_call, call_found, event_call, steal_event, unsteal_event, conclude,
}
use eveboros.Loop.Run.{
  check_deadlock, wait_round, active_round, run_io, run_timeout, run_task, pick_task, run_next,
  wait_for, run_active, run_loop,
}

-- One scope is below another if each of its answers is.
abbrev pub ScopeBelow :
    {P : Types} → (Handle → Op P → M (Loop P) Reply) → (Handle → Op P → M (Loop P) Reply) → Type 0
ScopeBelow {P} a b = (h : Handle) (op : Op P) (l : Loop P) → IsBelow (a h op l) (b h op l)

module _ {P : Types} where
  run_script-IsBelow :
      {E : Type 0} (r r' : Op P → M (Loop P) Reply)
      → ((op : Op P) (l : Loop P) → IsBelow (r op l) (r' op l))
      → (s : Callback P E) (l : Loop P) → IsBelow (run_script r s l) (run_script r' s l)
  unfolding run_script
  run_script-IsBelow r r' h (respond ev response) l = refl
  run_script-IsBelow r r' h (get_context k) l = run_script-IsBelow r r' h (k l.context) l
  run_script-IsBelow r r' h (effect change k) l =
      run_script-IsBelow r r' h (k l.world) (record l { world = change l.world })
  run_script-IsBelow r r' h abort l = refl
  run_script-IsBelow r r' h (set_context c s) l =
      run_script-IsBelow r r' h s (record l { context = c })
  run_script-IsBelow r r' h (ask op k) l =
      bind-IsBelow (attempt (r op)) (attempt (r' op)) (λ x. run_script r (k x))
        (λ x. run_script r' (k x)) l (attempt-IsBelow (r op) (r' op) l (h op l))
        (λ x l'. run_script-IsBelow r r' h (k x) l')

module _ {P : Types} (env : Env P) (a b : Handle → Op P → M (Loop P) Reply)
    (below : ScopeBelow a b) where
  -- What follows the same first step.
  then-IsBelow :
      {A B : Type 0} (m : M (Loop P) A) (f f' : A → M (Loop P) B) (l : Loop P)
      → ((x : A) (l' : Loop P) → IsBelow (f x l') (f' x l'))
      → IsBelow ((m >>= f) l) ((m >>= f') l)
  then-IsBelow m f f' l k = bind-IsBelow m m f f' l (IsBelow-refl (m l)) k

  call_found-IsBelow :
      (h : Handle) (f : P.Ev → Script P) (o : Option (EvHolder P.Ev)) (l : Loop P)
      → IsBelow (call_found env a h f o l) (call_found env b h f o l)
  unfolding call_found perform_call
  call_found-IsBelow h f none l = refl
  call_found-IsBelow h f (some holder) l = if-IsBelow holder.event.stolen _ _ _ _ refl (
      then-IsBelow (steal_event h.id holder) _ _ l (λ stolen l₁.
        bind-IsBelow _ _ _ _ l₁ (run_script-IsBelow (a h) (b h) (below h) (f stolen.pointee) l₁)
          (λ r l₂. IsBelow-refl _)))

  pub event_call-IsBelow :
      (h : Handle) (f : P.Ev → Script P) (l : Loop P)
      → IsBelow (event_call env a h f l) (event_call env b h f l)
  unfolding event_call
  event_call-IsBelow h f l =
      if-IsBelow (Recycler.valid l.events h.id) _ _ _ _ (call_found-IsBelow h f _ l) refl

  pub insert_exact-IsBelow :
      (ev : P.Ev) (l : Loop P)
      → IsBelow (Events.insert_exact env a ev l) (Events.insert_exact env b ev l)
  unfolding Events.insert_exact
  insert_exact-IsBelow ev l =
      then-IsBelow _ _ _ l
        (λ h l₁. bind-IsBelow _ _ _ _ l₁ (event_call-IsBelow h env.event.init l₁) (λ _ _. refl))

  pub post-IsBelow :
      (from : Option Handle) (h : Handle) (content : Any) (tp : Ty) (l : Loop P)
      → IsBelow
          (Events.post_impl_sender env a from h content tp l)
          (Events.post_impl_sender env b from h content tp l)
  unfolding Events.post_impl_sender
  post-IsBelow from h content tp l = then-IsBelow _ _ _ l (λ _ l₁. event_call-IsBelow h _ l₁)

  run_io-IsBelow :
      (h : Handle) (id : IoId) (ready : ℕ) (l : Loop P)
      → IsBelow (run_io env a h id ready l) (run_io env b h id ready l)
  unfolding run_io
  run_io-IsBelow h id ready l =
      if-IsBelow (ltb id.token token_shift) _ _ _ _ refl (there (Recycler.index l.events h.id))
    where
      there :
          (o : Option (EvHolder P.Ev))
          → IsBelow
              (elim o [
                | none ↦ panic
                | some holder ↦
                    if contains_key (id.token - token_shift) holder.ios
                    then event_call env a h (react env.event (io_ready id ready)) l
                    else returns tt l
              ])
              (elim o [
                | none ↦ panic
                | some holder ↦
                    if contains_key (id.token - token_shift) holder.ios
                    then event_call env b h (react env.event (io_ready id ready)) l
                    else returns tt l
              ])
      there none = refl
      there (some holder) =
          if-IsBelow (contains_key (id.token - token_shift) holder.ios) _ _ _ _
            (event_call-IsBelow h _ l) refl

  run_task-IsBelow :
      (h : Handle) (p : TaskParam) (l : Loop P)
      → IsBelow (run_task env a h p l) (run_task env b h p l)
  unfolding run_task run_timeout
  run_task-IsBelow h (io_ready id ready) l = run_io-IsBelow h id ready l
  run_task-IsBelow h (timeout id) l = then-IsBelow _ _ _ l (λ _ l₁. event_call-IsBelow h _ l₁)
  run_task-IsBelow h (signal s) l = event_call-IsBelow h _ l
  run_task-IsBelow h (message m) l = event_call-IsBelow h _ l
  run_task-IsBelow h (child pid exit) l = event_call-IsBelow h _ l
  run_task-IsBelow h idle l = event_call-IsBelow h _ l

  pick_task-IsBelow :
      (next next' : M (Loop P) (Unit {0}))
      → ((l : Loop P) → IsBelow (next l) (next' l))
      → (ts : List Task) (l : Loop P)
      → IsBelow (pick_task env a next ts l) (pick_task env b next' ts l)
  unfolding pick_task
  pick_task-IsBelow next next' h [] l = then-IsBelow _ _ _ l (λ _ l₁. h l₁)
  pick_task-IsBelow next next' h (t ∷ ts) l =
      if-IsBelow (Timers.event_alive l t.recipient) _ _ _ _ (run_task-IsBelow t.recipient t.param _)
        (h _)

  pub run_next-IsBelow :
      (n : ℕ) (l : Loop P) → IsBelow (run_next env n a l) (run_next env (suc n) b l)
  unfolding run_next
  run_next-IsBelow zero l = tt
  run_next-IsBelow (suc n) l = pick_task-IsBelow _ _ (run_next-IsBelow n) l.scheduled l

  pub wait_for-IsBelow :
      (n : ℕ) (checked : Bool) (h : Handle) (l : Loop P)
      → IsBelow (wait_for env n checked a h l) (wait_for env (suc n) checked b h l)
  unfolding wait_for wait_round
  wait_for-IsBelow zero checked h l = tt
  wait_for-IsBelow (suc n) checked h l =
      if-IsBelow (Timers.event_alive l h) _ _ _ _
        (then-IsBelow (check_deadlock checked h) _ _ l (λ _ l₁.
          bind-IsBelow _ _ _ _ l₁ (run_next-IsBelow n l₁) (λ _ l₂. wait_for-IsBelow n true h l₂)))
        refl

  run_active-IsBelow :
      (n : ℕ) (l : Loop P) → IsBelow (run_active env n a l) (run_active env (suc n) b l)
  unfolding run_active active_round
  run_active-IsBelow zero l = tt
  run_active-IsBelow (suc n) l =
      if-IsBelow l.active _ _ _ _
        (bind-IsBelow _ _ _ _ l (run_next-IsBelow n l) (λ _ l₁. run_active-IsBelow n l₁)) refl

  pub run_loop-IsBelow :
      (n : ℕ) (l : Loop P) → IsBelow (run_loop env n a l) (run_loop env (suc n) b l)
  unfolding run_loop
  run_loop-IsBelow n l = then-IsBelow _ _ _ l (λ _ l₁. run_active-IsBelow n l₁)
