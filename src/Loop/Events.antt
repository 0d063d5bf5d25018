-- ===== src/Loop/Events.antt =====
-- The life of an event (src/core.rs): `event_kill`, `event_call`, `insert_exact`, the type check of
-- messages, and the scripts of callbacks.
pub mod Kill
pub mod Insert
pub mod Call
pub mod Moves
use eveboros.Base.{
  ℕ, ◌+◌, ◌-◌, Bool, true, false, ◌&&◌, not, Option, none, some, List, [], ◌∷◌, ◌++◌, ◌==◌,
  if◌then◌else◌, add, remove, without, member, Eq, nat_eq,
}
use eveboros.Error.{Error, IoError, Result, ok, err, io, missing, busy, msg_unexpected}
use eveboros.Any.{Any, Ty, ty_eq}
use eveboros.Handle.{Handle, handle_eq, wrapping_suc}
use eveboros.Message.{Message, DeliveryMode, post, send}
use eveboros.Outcome.{
  Outcome, returns, fails, panic, out_of_fuel, M, pure, raise, lift, panics, unwrap, gets, attempt,
  or_panic, modify, ◌>>=◌, ◌>>◌,
}
use eveboros.Recycler
use eveboros.Recycler.{Recycler, address}
use eveboros.StolenCell
use eveboros.StolenCell.{StolenCell, StolenData}
use eveboros.Loop.{
  react, Types, Loop, Env, EvHolder, IoHolder, Task, message, Op, Reply, Callback, Script, respond,
  get_context, effect, abort, set_context, ask,
}
use eveboros.Loop.Timers.{event_alive, alive_in}

unfoldable pub forget_children : List ℕ → List (ℕ × Handle) → List (ℕ × Handle)
forget_children [] children = children
forget_children (pid ∷ pids) children = forget_children pids (without pid children)

module _ {Ev : Type 0} where
  -- `events[idx].event = …`, for the two writes that change the cell.
  abbrev pub set_event : StolenCell Ev → EvHolder Ev → EvHolder Ev
  set_event cell holder = record holder { event = cell }

  -- The holder that `handle` names, if its generation fits.
  abbrev pub found : Option (EvHolder Ev) → ℕ → Option (EvHolder Ev)
  found none generation = none
  found (some holder) generation = if holder.generation == generation then some holder else none

  abbrev pub new_holder : Ev → ℕ → EvHolder Ev
  new_holder event generation = record {
    event = StolenCell.new event;
    generation = generation;
    timeouts = 0;
    ios = [];
    expected_messages = [];
    children = [];
  }

module _ {P : Types} where
  -- A call of mio's poll that returns an `io::Result<()>`.
  unfoldable pub outside : (P.World → Option IoError × P.World) → M (Loop P) (Unit {0})
  outside call l =
      let (failed, world) = call l.world in
      elim failed [
        | none ↦ returns tt (record l { world = world })
        | some e ↦ fails (io e) (record l { world = world })
      ]

  -- A callback runs: its requests go to `request`, the scope's operations.
  unfoldable pub run_script :
      {E : Type 0} → (Op P → M (Loop P) Reply) → Callback P E → M (Loop P) (E × Result Bool)
  run_script request (respond ev response) l = returns (ev, response) l
  run_script request (get_context k) l = run_script request (k l.context) l
  run_script request (set_context c s) l = run_script request s (record l { context = c })
  run_script request (effect change k) l =
      run_script request (k l.world) (record l { world = change l.world })
  run_script request abort l = panic
  run_script request (ask op k) l = (do r ← attempt (request op); run_script request (k r)) l

  -- Take the event out of its holder, with its address.
  unfoldable pub steal_event : ℕ → EvHolder P.Ev → M (Loop P) (StolenData P.Ev)
  steal_event idx holder l =
      (do
        (stolen, cell) ← unwrap (StolenCell.steal (address l.events idx) holder.event)
        events ← unwrap (Recycler.index_mut l.events idx (set_event cell))
        modify (λ l. record l { events = events })
        pure stolen)
        l

  -- Return the event that was taken out. The holder is found by its index again.
  unfoldable pub unsteal_event : ℕ → StolenData P.Ev → M (Loop P) (Unit {0})
  unsteal_event idx data' l =
      (do
        holder ← unwrap (Recycler.index l.events idx)
        cell ← unwrap (StolenCell.unsteal (address l.events idx) holder.event data')
        events ← unwrap (Recycler.index_mut l.events idx (set_event cell))
        modify (λ l. record l { events = events }))
        l

  -- `msg_type_check`
  unfoldable pub msg_type_check : Handle → Ty → M (Loop P) (Unit {0})
  msg_type_check handle tid l =
      if event_alive l handle
      then (elim (Recycler.index l.events handle.id) [
        | none ↦ panic
        | some holder ↦
            if member tid holder.expected_messages then returns tt l else fails msg_unexpected l
      ])
      else fails missing l

  -- `send_impl_sender`
  unfoldable pub send_impl_sender : Option Handle → Handle → Any → Ty → M (Loop P) (Unit {0})
  unfolding msg_type_check
  send_impl_sender from handle content tp = do
    msg_type_check handle tp
    modify (λ l. record l {
      scheduled =
          l.scheduled
          ++ record {
            recipient = handle;
            param = message (record { content = content; real_type = tp; mode = send from });
          }
            ∷ [];
    })

module _ {P : Types} (env : Env P) where
  -- `self.poll.deregister(v.io()).unwrap(); self.ios_released.insert(k);` for each IO of an event.
  unfoldable pub release_ios : List (ℕ × IoHolder) → M (Loop P) (Unit {0})
  unfolding outside
  release_ios [] = pure tt
  release_ios ((k, v) ∷ ios) = do
    or_panic (outside (env.deregister v.io))
    modify (λ l. record l { ios_released = add k l.ios_released })
    release_ios ios

  -- `event_kill`, after the slot of the event was released.
  unfoldable pub bury : ℕ → EvHolder P.Ev → M (Loop P) P.Ev
  unfolding release_ios forget_children
  bury idx holder = do
    modify (λ l. record l { timeouts_dead = l.timeouts_dead + holder.timeouts })
    release_ios holder.ios
    modify (λ l. record l {
      want_idle = env.idle_remove handle l.want_idle;
      signal_recipients = λ signum. remove handle (l.signal_recipients signum);
      children = forget_children holder.children l.children;
    })
    unwrap (StolenCell.into_inner holder.event)
    where
      handle : Handle
      handle = record { id = idx; generation = holder.generation }

  unfoldable pub event_kill : ℕ → M (Loop P) P.Ev
  unfolding bury
  event_kill idx l =
      (do
        (holder, events) ← unwrap (Recycler.release l.events idx)
        modify (λ l. record l { events = events })
        bury idx holder)
        l

  -- `(self.error_handler)(event, err)?`
  unfoldable pub report : P.Ev → Error → M (Loop P) (Unit {0})
  report ev e l =
      let (r, handler) = env.handle_error l.error_handler ev e in
      lift r (record l { error_handler = handler })

  -- The match on the response of a callback.
  unfoldable pub conclude : ℕ → Result Bool → M (Loop P) (Unit {0})
  unfolding report event_kill
  conclude idx (ok true) = pure tt
  conclude idx (ok false) = do event_kill idx; pure tt
  conclude idx (err e) = do ev ← event_kill idx; report ev e

  -- The call itself, on an event that is there and not inside a callback.
  unfoldable pub perform_call :
      (Op P → M (Loop P) Reply) → ℕ → EvHolder P.Ev → (P.Ev → Script P) → M (Loop P) (Unit {0})
  unfolding steal_event run_script unsteal_event conclude
  perform_call request idx holder f = do
    stolen ← steal_event idx holder
    (ev, response) ← run_script request (f stolen.pointee)
    unsteal_event idx (record stolen { pointee = ev })
    conclude idx response

  unfoldable pub call_found :
      (Handle → Op P → M (Loop P) Reply)
      → Handle
      → (P.Ev → Script P)
      → Option (EvHolder P.Ev)
      → M (Loop P) (Unit {0})
  unfolding perform_call
  call_found scope_of handle f none l = fails missing l
  call_found scope_of handle f (some holder) l =
      if holder.event.stolen
      then fails busy l
      else perform_call (scope_of handle) handle.id holder f l

  -- `event_call`; `scope_of h` is the scope of the event `h`.
  unfoldable pub event_call :
      (Handle → Op P → M (Loop P) Reply) → Handle → (P.Ev → Script P) → M (Loop P) (Unit {0})
  unfolding call_found
  event_call scope_of handle f l =
      if Recycler.valid l.events handle.id
      then call_found scope_of handle f
          (found (Recycler.index l.events handle.id) handle.generation) l
      else fails missing l

  -- The first part of `insert_exact`: the event gets a slot and a handle.
  unfoldable pub store_event : P.Ev → M (Loop P) Handle
  store_event event l =
      let (fresh, world) = env.fresh_block l.world in
      (do
        (idx, events) ← unwrap (Recycler.store fresh l.events (new_holder event l.generation))
        modify (λ l. record l {
          generation = wrapping_suc l.generation;
          events = events;
          world = world;
        })
        pure (record { id = idx; generation = l.generation }))
        l

  unfoldable pub insert_exact : (Handle → Op P → M (Loop P) Reply) → P.Ev → M (Loop P) Handle
  unfolding store_event
  insert_exact scope_of event = do
    handle ← store_event event
    event_call scope_of handle env.event.init
    pure handle

  -- `post_impl_sender`
  unfoldable pub post_impl_sender :
      (Handle → Op P → M (Loop P) Reply) → Option Handle → Handle → Any → Ty → M (Loop P) (Unit {0})
  unfolding msg_type_check
  post_impl_sender scope_of from handle content tp = do
    msg_type_check handle tp
    event_call scope_of handle
        (react env.event (message (record { content = content; real_type = tp; mode = post from })))
