-- ===== src/Loop/Gather.antt =====
-- Collecting work (src/core.rs): `children_gather`, `tasks_gather_io` and `tasks_gather`.
pub mod Messages
pub mod Children
pub mod Signals
pub mod Channel
use eveboros.Base.{
  ℕ, zero, suc, ◌+◌, ◌-◌, Bool, true, false, not, Option, none, some, List, [], ◌∷◌, ◌++◌, map,
  is_nil, ltb, ◌==◌, if◌then◌else◌, Eq, nat_eq, lookup, without, member, remove,
}
use eveboros.Error.{
  Error, IoError, interrupted, NixError, sys, eagain, echild, Errno, Result, io, nix, empty,
}
use eveboros.Handle.{Handle, IoId, BackgroundId, token_shift, channel_tok, signal_tok}
use eveboros.Message.{Message, RemoteMessage, DeliveryMode, background, to_message}
use eveboros.Outcome.{
  Outcome, returns, fails, panic, out_of_fuel, M, pure, raise, assert, unwrap, gets, attempt,
  modify, ◌>>=◌, ◌>>◌,
}
use eveboros.Recycler
use eveboros.Recycler.{Recycler}
use eveboros.Loop.{
  Types, Loop, Env, EvHolder, Task, io_ready, timeout, signal, message, child, idle, ChildExit,
  exited, signaled, MioEvent, WaitStatus, still_alive, other_status, WaitAnswer, status, wait_error,
  PollAnswer, polled, poll_error,
}
use eveboros.Loop.Timers.{timeout_min, timers_cleanup, tasks_gather_timers}
use eveboros.Loop.Events.{msg_type_check}

module _ {P : Types} where
  -- `assert!(events[handle.id].children.remove(&pid))`
  unfoldable pub release_child : ℕ → Handle → M (Loop P) (Unit {0})
  release_child pid handle l =
      (do
        holder ← unwrap (Recycler.index l.events handle.id)
        assert (member pid holder.children)
        events ← unwrap (
            Recycler.index_mut l.events handle.id
              (λ h. record h { children = remove pid h.children }))
        modify (λ l. record l { events = events }))
        l

  -- The closure `push` of `children_gather`, once the child is looked up.
  unfoldable pub push_found : ℕ → ChildExit → Option Handle → M (Loop P) (Unit {0})
  unfolding release_child
  push_found pid exit none = pure tt
  push_found pid exit (some handle) = do
    modify (λ l. record l { children = without pid l.children })
    release_child pid handle
    modify (λ l. record l {
      scheduled = l.scheduled ++ record { recipient = handle; param = child pid exit } ∷ [];
    })

  unfoldable pub push_child : ℕ → ChildExit → M (Loop P) (Unit {0})
  unfolding push_found
  push_child pid exit l = push_found pid exit (lookup pid l.children) l

  -- The loop of `children_gather`, over the answers that `waitpid` gives. It ends with the first answer
  -- that says so; answers that never do are no run of the code.
  unfoldable pub reap : List WaitAnswer → M (Loop P) (Unit {0})
  unfolding push_child
  reap [] = λ _. out_of_fuel
  reap (wait_error (sys eagain) ∷ as') = pure tt
  reap (status still_alive ∷ as') = pure tt
  reap (wait_error (sys echild) ∷ as') = pure tt
  reap (wait_error e ∷ as') = raise (nix e)
  reap (status (WaitStatus.exited pid code) ∷ as') = do
    push_child pid (ChildExit.exited code)
    reap as'
  reap (status (WaitStatus.signaled pid signum) ∷ as') = do
    push_child pid (ChildExit.signaled signum)
    reap as'
  reap (status other_status ∷ as') = reap as'

  -- Results of background tasks pass; other messages must be of a type that the recipient expects.
  unfoldable pub accept_by : DeliveryMode → RemoteMessage → M (Loop P) Bool
  accept_by (background id) m = pure true
  accept_by mode m = do
    checked ← attempt (msg_type_check m.recipient m.real_type)
    pure (elim checked [ Result.ok _ ↦ true | Result.err _ ↦ false ])

  unfoldable pub deliver : Bool → RemoteMessage → M (Loop P) (Unit {0})
  deliver false m = pure tt
  deliver true m = modify λ l. record l {
    scheduled =
        l.scheduled ++ record { recipient = m.recipient; param = message (to_message m) } ∷ [];
  }

  -- One round of the loop over the channel.
  unfoldable pub take_message : RemoteMessage → M (Loop P) (Unit {0})
  unfolding accept_by deliver
  take_message m = do passed ← accept_by m.mode m; deliver passed m

  unfoldable pub take_messages : List RemoteMessage → M (Loop P) (Unit {0})
  unfolding take_message
  take_messages [] = pure tt
  take_messages (m ∷ ms) = do take_message m; take_messages ms

  -- `self.ios[idx]` for the token of an IO.
  unfoldable pub take_io : MioEvent → M (Loop P) (Unit {0})
  take_io ev l =
      if ltb ev.token token_shift
      then panic
      else (do
        recipient ← unwrap (Recycler.index l.ios (ev.token - token_shift))
        modify (λ l. record l {
          scheduled =
              l.scheduled
              ++ record {
                recipient = recipient;
                param = io_ready (record { token = ev.token }) ev.kind;
              }
                ∷ [];
        }))
          l

  -- `Signal::from_c_int(signum)?`
  unfoldable pub check_signal : Option NixError → M (Loop P) (Unit {0})
  check_signal none = pure tt
  check_signal (some e) = raise (nix e)

  -- `for id in self.ios_released.drain() { self.ios.release(id); }`
  unfoldable pub drain_released : List ℕ → M (Loop P) (Unit {0})
  drain_released [] = modify λ l. record l { ios_released = [] }
  drain_released (id ∷ ids) = do
    (λ l.
        (do (_, ios) ← unwrap (Recycler.release l.ios id); modify (λ l. record l { ios = ios })) l)
    drain_released ids

module _ {P : Types} (env : Env P) where
  unfoldable pub children_gather : M (Loop P) (Unit {0})
  unfolding reap
  children_gather l =
      let (answers, world) = env.waits l.world in reap answers (record l { world = world })

  -- A signal whose flag was set.
  unfoldable pub take_signal : ℕ → M (Loop P) (Unit {0})
  unfolding children_gather check_signal
  take_signal signum = do
    check_signal (env.from_c_int signum)
    (if signum == env.sigchld then children_gather else pure tt)
    modify (λ l. record l {
      scheduled =
          l.scheduled
          ++ map (λ h. record { recipient = h; param = signal signum })
              (l.signal_recipients signum);
    })

  -- The flags from `signum` on, `left` of them.
  unfoldable pub take_signals : ℕ → ℕ → M (Loop P) (Unit {0})
  unfolding take_signal
  take_signals zero signum = pure tt
  take_signals (suc left) signum = do
    pending ← (λ l.
        let (set, world) = env.swap_flag signum l.world in returns set (record l { world = world }))
    (if pending then take_signal signum else pure tt)
    take_signals left (signum + 1)

  -- CHANNEL_TOK
  unfoldable pub take_channel : M (Loop P) (Unit {0})
  unfolding take_messages
  take_channel l =
      let (ms, world) = env.receive l.world in take_messages ms (record l { world = world })

  -- SIGNAL_TOK
  unfoldable pub take_flags : M (Loop P) (Unit {0})
  unfolding take_signals
  take_flags = do
    modify (λ l. record l { world = env.clear_wakeup l.world })
    take_signals env.sig_count 0

  -- The match on the token of a mio event.
  unfoldable pub take_event : MioEvent → M (Loop P) (Unit {0})
  unfolding take_channel take_flags take_io
  take_event ev l =
      if ev.token == channel_tok
      then take_channel l
      else if ev.token == signal_tok
      then take_flags l
      else take_io ev l

  unfoldable pub tasks_gather_io : List MioEvent → M (Loop P) (Unit {0})
  unfolding take_event
  tasks_gather_io [] = pure tt
  tasks_gather_io (ev ∷ evs) = do take_event ev; tasks_gather_io evs

  -- One idle task, if nothing else is there to do.
  unfoldable pub schedule_idle : M (Loop P) (Unit {0})
  schedule_idle l =
      if is_nil l.scheduled
      then (elim (env.idle_pop_front l.want_idle) [
        | none ↦ returns tt l
        | some (handle, want_idle) ↦ returns tt (record l {
          want_idle = want_idle;
          scheduled = record { recipient = handle; param = idle } ∷ [];
        })
      ])
      else returns tt l

  -- What follows a poll.
  unfoldable pub after_poll : PollAnswer → M (Loop P) (Unit {0})
  unfolding tasks_gather_io schedule_idle
  after_poll (poll_error interrupted) = pure tt
  after_poll (poll_error e) = raise (io e)
  after_poll (polled evs) = do
    modify (λ l. let (t, world) = env.instant_now l.world in record l { now = t; world = world })
    tasks_gather_io evs
    timers_cleanup
    tasks_gather_timers
    schedule_idle

  unfoldable pub tasks_gather : M (Loop P) (Unit {0})
  unfolding drain_released after_poll
  tasks_gather = do
    (λ l. assert (is_nil l.scheduled) l)
    (λ l. drain_released l.ios_released l)
    (λ l. if Recycler.is_empty l.events then fails empty l else returns tt l)
    wakeup ← timeout_min env
    answer ←
        (λ l. let (a, world) = env.poll wakeup l.world in returns a (record l { world = world }))
    after_poll answer
