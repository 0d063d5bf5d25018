-- ===== src/Loop/Scope.antt =====
-- The scope of a callback (`LoopScope` in src/core.rs): what an event may ask of the loop, with the
-- event's own handle. The run loops that the scope passes on to the loop stand in Loop/Run.antt.
pub mod Ios
pub mod Register
pub mod Ready
use eveboros.Base.{
  ℕ, ◌+◌, ◌-◌, Bool, true, false, not, Option, none, some, List, [], ◌∷◌, ltb, ◌==◌, if◌then◌else◌,
  Eq, nat_eq, lookup, put, without, contains_key, member, add,
}
use eveboros.Error.{Error, Result, io, missing_io, io_type}
use eveboros.Any.{Any, Ty, ty_eq, Value, downcast, box}
use eveboros.Handle.{Handle, handle_eq, IoId, TimeoutId, BackgroundId, token_shift, wrapping_suc}
use eveboros.Outcome.{
  Outcome, returns, fails, panic, out_of_fuel, M, pure, raise, lift, unwrap, or_panic, assert,
  attempt, modify, ◌>>=◌, ◌>>◌,
}
use eveboros.Recycler
use eveboros.Recycler.{Recycler}
use eveboros.Loop.{Types, Loop, Env, EvHolder, IoHolder}
use eveboros.Loop.Events.{outside}

module _ {P : Types} where
  -- A change of the holder of an event, `self.events[handle.id]`.
  unfoldable pub update_holder : Handle → (EvHolder P.Ev → EvHolder P.Ev) → M (Loop P) (Unit {0})
  update_holder handle f l =
      (do
        events ← unwrap (Recycler.index_mut l.events handle.id f)
        modify (λ l. record l { events = events }))
        l

  unfoldable pub expect_message : Handle → Ty → M (Loop P) (Unit {0})
  unfolding update_holder
  expect_message handle tp =
      update_holder handle λ h. record h { expected_messages = add tp h.expected_messages }

  -- `io_idx`; `usize` panics when the token is below the shift.
  unfoldable pub io_idx : Handle → IoId → M (Loop P) ℕ
  io_idx handle id l =
      if ltb id.token token_shift then panic else (elim (Recycler.index l.events handle.id) [
        | none ↦ panic
        | some holder ↦
            if contains_key (id.token - token_shift) holder.ios
            then returns (id.token - token_shift) l
            else fails missing_io l
      ])

  -- `self.event_loop.events[handle.id].ios[&idx]`
  unfoldable pub io_at : Handle → ℕ → M (Loop P) IoHolder
  io_at handle idx l =
      (do holder ← unwrap (Recycler.index l.events handle.id); unwrap (lookup idx holder.ios)) l

  -- `io_mut`, read; a write through the reference that it returns is `io_write`.
  unfoldable pub io_mut : Handle → IoId → M (Loop P) Any
  unfolding io_idx io_at
  io_mut handle id = do idx ← io_idx handle id; held ← io_at handle idx; pure held.io

  unfoldable pub io_write : Handle → IoId → Any → M (Loop P) (Unit {0})
  unfolding io_idx io_at update_holder
  io_write handle id content = do
    idx ← io_idx handle id
    held ← io_at handle idx
    update_holder handle (λ h. record h { ios = put idx (record held { io = content }) h.ios })

  unfoldable pub or_io_type : {A : Type 0} → Option A → M (Loop P) A
  or_io_type none = raise io_type
  or_io_type (some a) = pure a

  -- `with_io`: a function on the IO at its own type, which may change it.
  unfoldable pub with_io :
      {R : Type 0} → (t : Ty) → Handle → IoId → (Value t → Result R × Value t) → M (Loop P) R
  unfolding io_mut io_write or_io_type
  with_io t handle id f = do
    content ← io_mut handle id
    v ← or_io_type (downcast t content)
    io_write handle id (box t (f v).1)
    lift (f v).0

  -- The end of `io_register_any`: if mio refused, the slot is given back.
  unfoldable pub finish_register : Handle → IoHolder → ℕ → Result (Unit {0}) → M (Loop P) IoId
  unfolding update_holder
  finish_register handle held id (Result.err e) l =
      (do
        (_, ios) ← unwrap (Recycler.release l.ios id)
        modify (λ l. record l { ios = ios })
        raise e)
        l
  finish_register handle held id (Result.ok _) l =
      (do
        update_holder handle (λ h. record h { ios = put id held h.ios })
        pure (record { token = id + token_shift }))
        l

module _ {P : Types} (env : Env P) where
  -- `signal_enable`
  unfoldable pub signal_enable : ℕ → M (Loop P) (Unit {0})
  signal_enable signum l =
      if ltb signum env.sig_count
      then (if l.signals_enabled signum
          then returns tt l
          else returns tt (record l {
            world = env.sig_register signum l.world;
            signals_enabled = λ s. if s == signum then true else l.signals_enabled s;
          }))
      else panic

  unfoldable pub want_signal : Handle → ℕ → M (Loop P) (Unit {0})
  unfolding signal_enable
  want_signal handle signum = do
    signal_enable signum
    modify (λ l. record l {
      signal_recipients =
          λ s. if s == signum then add handle (l.signal_recipients s) else l.signal_recipients s;
    })

  unfoldable pub want_idle : Handle → M (Loop P) (Unit {0})
  want_idle handle = modify λ l. record l { want_idle = env.idle_insert handle l.want_idle }

  unfoldable pub io_register_any : Handle → IoHolder → ℕ → ℕ → M (Loop P) IoId
  unfolding outside finish_register
  io_register_any handle held interest opts = do
    id ← (λ l.
        let (fresh, world) = env.fresh_block l.world in
        (do
          (id, ios) ← unwrap (Recycler.store fresh l.ios handle)
          modify (λ l. record l { ios = ios; world = world })
          pure id)
          l)
    registered ← attempt (outside (env.register held.io (id + token_shift) interest opts))
    finish_register handle held id registered

  unfoldable pub io_update : Handle → IoId → ℕ → ℕ → M (Loop P) (Unit {0})
  unfolding io_idx io_at outside
  io_update handle id interest opts = do
    idx ← io_idx handle id
    held ← io_at handle idx
    outside (env.reregister held.io id.token interest opts)

  unfoldable pub io_remove : Handle → IoId → M (Loop P) (Unit {0})
  unfolding io_idx io_at update_holder outside
  io_remove handle id = do
    idx ← io_idx handle id
    held ← io_at handle idx
    update_holder handle (λ h. record h { ios = without idx h.ios })
    (λ l.
        (do (_, ios) ← unwrap (Recycler.release l.ios idx); modify (λ l. record l { ios = ios })) l)
    modify (λ l. record l { ios_released = add idx l.ios_released })
    outside (env.deregister held.io)

  -- `pool_thread_count_set`. The pool is outside: a new one and `set_num_threads` are one operation of it.
  unfoldable pub pool_thread_count_set : ℕ → M (Loop P) (Unit {0})
  pool_thread_count_set cnt =
      modify λ l. record l { threadpool = some cnt; world = env.set_threads cnt l.world }

  unfoldable pub background_submit : P.Job → M (Loop P) BackgroundId
  unfolding pool_thread_count_set
  background_submit job = do
    (λ l. elim l.threadpool [ none ↦ pool_thread_count_set 1 l | some n ↦ returns tt l ])
    (λ l.
        let id : BackgroundId = record { number = l.background_generation } in
        returns id (record l {
          background_generation = wrapping_suc l.background_generation;
          world = env.execute id job l.world;
        }))

  -- `child`
  unfoldable pub track_child : Handle → ℕ → M (Loop P) (Unit {0})
  unfolding signal_enable update_holder
  track_child handle pid = do
    signal_enable env.sigchld
    (λ l. assert (not (contains_key pid l.children)) l)
    modify (λ l. record l { children = put pid handle l.children })
    update_holder handle (λ h. record h { children = add pid h.children })
