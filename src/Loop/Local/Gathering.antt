-- ===== src/Loop/Local/Gathering.antt =====
-- Collecting work keeps a lent holder in its place (src/core.rs, `tasks_gather` and what it calls).
use eveboros.Base.{
  ℕ, zero, suc, ◌+◌, ◌≡◌, refl, not, Bool, true, false, Option, none, some, List, [], ◌∷◌, arith,
  ◌==◌, if◌then◌else◌, lookup, length, nat_eq,
}
use eveboros.Error.{
  NixError, sys, invalid_path, eagain, echild, other_errno, interrupted, would_block, other_io,
}
use eveboros.Handle.{Handle, channel_tok, signal_tok}
use eveboros.Message.{RemoteMessage, DeliveryMode, background}
use eveboros.Outcome.{returns, ◌>>=◌}
use eveboros.Outcome.Safe.{
  Safe, attempt-Safe, unwrap-Safe, if-Safe, bind-Safe, unwrap-bind-Safe, modify-bind-Safe,
}
use eveboros.Loop.{
  Types, Loop, Env, ChildExit, WaitAnswer, status, wait_error, WaitStatus, still_alive,
  other_status, MioEvent, PollAnswer, polled, poll_error,
}
use eveboros.Loop.Timers.{
  timeout_min, timers_cleanup, tasks_gather_timers, prune, event_alive, drop_dead, time_left,
}
use eveboros.Loop.Gather.{
  push_found, push_child, reap, accept_by, deliver, take_message, take_messages, take_io,
  check_signal, drain_released, children_gather, take_signal, take_signals, take_channel,
  take_flags, take_event, tasks_gather_io, schedule_idle, after_poll, tasks_gather,
}
use eveboros.Loop.Keeps.{msg_type_check-Safe}
use eveboros.Loop.Local.{Local, Tables, On}
use eveboros.Loop.Local.Steps.{release_child-Local}

module _ {P : Types} {Free : ℕ → Type 0} {Q : Tables P} (rules : Local P Free Q) where
  abbrev I : Loop P → Type 0
  I = On P Q

  push_found-Local :
      (pid : ℕ) (exit : ChildExit) (o : Option Handle) (l : Loop P)
      → lookup pid l.children ≡ o
      → I l
      → Safe I (push_found pid exit o l)
  unfolding push_found
  push_found-Local pid exit none l e i = i
  push_found-Local pid exit (some h) l e i =
      modify-bind-Safe I _ _ l
        (bind-Safe I _ _ _ (release_child-Local rules pid h l e i) (λ _ _ i'. i'))

  pub push_child-Local : (pid : ℕ) (e : ChildExit) (l : Loop P) → I l → Safe I (push_child pid e l)
  unfolding push_child
  push_child-Local pid e l i = push_found-Local pid e (lookup pid l.children) l refl i

  reap-Local : (answers : List WaitAnswer) (l : Loop P) → I l → Safe I (reap answers l)
  unfolding reap
  reap-Local [] l i = tt
  reap-Local (wait_error (sys eagain) ∷ rest) l i = i
  reap-Local (wait_error (sys echild) ∷ rest) l i = i
  reap-Local (wait_error (sys (other_errno n)) ∷ rest) l i = i
  reap-Local (wait_error invalid_path ∷ rest) l i = i
  reap-Local (status still_alive ∷ rest) l i = i
  reap-Local (status other_status ∷ rest) l i = reap-Local rest l i
  reap-Local (status (WaitStatus.exited pid code) ∷ rest) l i =
      bind-Safe I _ _ l (push_child-Local pid (ChildExit.exited code) l i)
        (λ _ l' i'. reap-Local rest l' i')
  reap-Local (status (WaitStatus.signaled pid s) ∷ rest) l i =
      bind-Safe I _ _ l (push_child-Local pid (ChildExit.signaled s) l i)
        (λ _ l' i'. reap-Local rest l' i')

  accept_by-Local :
      (mode : DeliveryMode) (m : RemoteMessage) (l : Loop P) → I l → Safe I (accept_by mode m l)
  unfolding accept_by
  accept_by-Local (background id) m l i = i
  accept_by-Local _ m l i =
      bind-Safe I _ _ l (attempt-Safe I _ l (msg_type_check-Safe I m.recipient m.real_type l i))
        (λ _ _ i'. i')

  deliver-Local :
      (passed : Bool) (m : RemoteMessage) (l : Loop P) → I l → Safe I (deliver passed m l)
  unfolding deliver
  deliver-Local true m l i = i
  deliver-Local false m l i = i

  take_message-Local : (m : RemoteMessage) (l : Loop P) → I l → Safe I (take_message m l)
  unfolding take_message
  take_message-Local m l i =
      bind-Safe I _ _ l (accept_by-Local m.mode m l i)
        (λ passed l' i'. deliver-Local passed m l' i')

  take_messages-Local : (ms : List RemoteMessage) (l : Loop P) → I l → Safe I (take_messages ms l)
  unfolding take_messages
  take_messages-Local [] l i = i
  take_messages-Local (m ∷ ms) l i =
      bind-Safe I _ _ l (take_message-Local m l i) (λ _ l' i'. take_messages-Local ms l' i')

  take_io-Local : (ev : MioEvent) (l : Loop P) → I l → Safe I (take_io ev l)
  unfolding take_io ◌>>=◌
  take_io-Local ev l i = ground arith

  check_signal-Local : (o : Option NixError) (l : Loop P) → I l → Safe I (check_signal o l)
  unfolding check_signal
  check_signal-Local none l i = i
  check_signal-Local (some e) l i = i

  drain_released-Local : (ids : List ℕ) (l : Loop P) → I l → Safe I (drain_released ids l)
  unfolding drain_released
  drain_released-Local [] l i = i
  drain_released-Local (id ∷ ids) l i =
      bind-Safe I _ _ l (unwrap-bind-Safe I _ _ l (λ _ e. rules.io_release id e i))
        (λ _ l' i'. drain_released-Local ids l' i')

  choose : (b : Bool) (m n : Loop P) → I m → I n → I (if b then m else n)
  choose true m n hm hn = hm
  choose false m n hm hn = hn

  prune-Local : (a b : ℕ) (l : Loop P) → I l → I (prune a b l)
  unfolding prune
  prune-Local a b l i = choose _ _ _ (rules.keep (event_alive l) i) i

  cleanup-Local : (l : Loop P) → I l → Safe I (timers_cleanup l)
  unfolding timers_cleanup
  cleanup-Local l i = unwrap-bind-Safe I _ _ l (λ a _. unwrap-bind-Safe I _ _ l (λ b _.
      unwrap-bind-Safe I _ _ l (λ c _. unwrap-bind-Safe I _ _ l (λ d _. modify-bind-Safe I _ _ l (
        prune-Local c d
          (record l {
            timeouts_dead = c;
            timeouts_fired = 0;
            timeouts_inserted = length l.timeouts;
          })
          i)))))

  gather_timers-Local : (l : Loop P) → I l → Safe I (tasks_gather_timers l)
  unfolding tasks_gather_timers
  gather_timers-Local l i = rules.later l.now i

module _ {P : Types} {Free : ℕ → Type 0} {Q : Tables P} (env : Env P) (rules : Local P Free Q) where
  abbrev J : Loop P → Type 0
  J = On P Q

  children_gather-Local : (l : Loop P) → J l → Safe J (children_gather env l)
  unfolding children_gather
  children_gather-Local l i =
      reap-Local rules (env.waits l.world).0 (record l { world = (env.waits l.world).1 }) i

  take_signal-Local : (s : ℕ) (l : Loop P) → J l → Safe J (take_signal env s l)
  unfolding take_signal
  take_signal-Local s l i =
      bind-Safe J _ _ l (check_signal-Local rules (env.from_c_int s) l i) (λ _ l₁ i₁.
        bind-Safe J _ _ l₁ (let gathered = children_gather-Local l₁ i₁ in ground (arith, gathered))
          (λ _ _ i₂. i₂))

  take_signals-Local : (left s : ℕ) (l : Loop P) → J l → Safe J (take_signals env left s l)
  unfolding take_signals
  take_signals-Local zero s l i = i
  take_signals-Local (suc left) s l i = bind-Safe J _ _ l i (λ pending l₁ i₁.
      bind-Safe J _ _ l₁ (let taken = take_signal-Local s l₁ i₁ in ground (arith, taken))
        (λ _ l₂ i₂. take_signals-Local left (s + 1) l₂ i₂))

  take_channel-Local : (l : Loop P) → J l → Safe J (take_channel env l)
  unfolding take_channel
  take_channel-Local l i =
      take_messages-Local rules (env.receive l.world).0
        (record l { world = (env.receive l.world).1 }) i

  take_flags-Local : (l : Loop P) → J l → Safe J (take_flags env l)
  unfolding take_flags
  take_flags-Local l i = modify-bind-Safe J _ _ l (take_signals-Local env.sig_count 0 _ i)

  take_event-Local : (ev : MioEvent) (l : Loop P) → J l → Safe J (take_event env ev l)
  unfolding take_event
  take_event-Local ev l i =
      if-Safe J (ev.token == channel_tok) (take_channel env l)
        (if ev.token == signal_tok then take_flags env l else take_io ev l)
        (λ _. take_channel-Local l i)
        (λ _.
          if-Safe J (ev.token == signal_tok) (take_flags env l) (take_io ev l)
            (λ _. take_flags-Local l i) (λ _. take_io-Local rules ev l i))

  gather_io-Local : (evs : List MioEvent) (l : Loop P) → J l → Safe J (tasks_gather_io env evs l)
  unfolding tasks_gather_io
  gather_io-Local [] l i = i
  gather_io-Local (ev ∷ evs) l i =
      bind-Safe J _ _ l (take_event-Local ev l i) (λ _ l' i'. gather_io-Local evs l' i')

  schedule_idle-Local : (l : Loop P) → J l → Safe J (schedule_idle env l)
  unfolding schedule_idle
  schedule_idle-Local l i = ground arith

  after_poll-Local : (answer : PollAnswer) (l : Loop P) → J l → Safe J (after_poll env answer l)
  unfolding after_poll
  after_poll-Local (poll_error interrupted) l i = i
  after_poll-Local (poll_error would_block) l i = i
  after_poll-Local (poll_error (other_io n)) l i = i
  after_poll-Local (polled evs) l i = modify-bind-Safe J _ _ l (
      bind-Safe J _ _ _ (gather_io-Local evs _ i) (λ _ l₁ i₁.
        bind-Safe J _ _ l₁ (cleanup-Local rules l₁ i₁) (λ _ l₂ i₂.
          bind-Safe J _ _ l₂ (gather_timers-Local rules l₂ i₂)
            (λ _ l₃ i₃. schedule_idle-Local l₃ i₃))))

  timeout_min-Local : (l : Loop P) → J l → Safe J (timeout_min env l)
  unfolding timeout_min
  timeout_min-Local l i =
      let l' : Loop P = record l { timeouts = drop_dead (event_alive l) l.timeouts } in
      let kept = rules.drop (event_alive l) i in
      if-Safe J (not (env.idle_is_empty l.want_idle)) (returns (some 0) l')
        (returns (time_left (env.instant_now l.world).0 l'.timeouts)
          (record l' { world = (env.instant_now l.world).1 }))
        (λ _. kept) (λ _. kept)

  pub tasks_gather-Local : (l : Loop P) → J l → Safe J (tasks_gather env l)
  unfolding tasks_gather
  tasks_gather-Local l i = bind-Safe J _ _ l (unwrap-Safe J _ l i) (λ _ l₀ i₀.
      bind-Safe J _ _ l₀ (drain_released-Local rules _ l₀ i₀) (λ _ l₁ i₁.
        bind-Safe J _ _ l₁ (ground arith) (λ _ l₂ i₂.
          bind-Safe J _ _ l₂ (timeout_min-Local l₂ i₂)
            (λ w l₃ i₃. bind-Safe J _ _ l₃ i₃ (λ a l₄ i₄. after_poll-Local a l₄ i₄)))))
