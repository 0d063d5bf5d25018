-- ===== src/Loop/Iface/Watched.antt =====
-- Callbacks that use an IO that their event watches (src/core.rs, `with_io` and `io_update`).
use eveboros.Base.{
  ℕ, suc, ◌-◌, ◌≡◌, refl, ap, ◌∙◌, false, Option, none, some, ltb, lookup, contains_key, arith,
  nat_eq,
}
use eveboros.Error.{IoError, Result, ok, err, io}
use eveboros.Any.{Any, Ty, Value, box, downcast, downcast_self}
use eveboros.Handle.{Handle, IoId, token_shift}
use eveboros.Outcome.{returns, pure, attempt, ◌>>=◌, ◌>>◌}
use eveboros.Recycler
use eveboros.Recycler.{Recycler}
use eveboros.Loop.{Types, Loop, Env, EvHolder, IoHolder, Callback, ask, io_update, Reply}
use eveboros.Loop.Events.{run_script, outside}
use eveboros.Loop.Scope
use eveboros.Loop.Run.{perform, request}
use eveboros.Loop.Iface.{with_io, found_io, through}

-- The event watches an IO under this id, and this is its content.
pub record Watched {Ev : Type 0} (events : Recycler (EvHolder Ev)) (handle : Handle) (id : IoId)
    (content : Any) : Type 0 where
  pub holder : EvHolder Ev
  pub there : Recycler.index events handle.id ≡ some holder
  pub held : IoHolder
  pub inside : lookup (id.token - token_shift) holder.ios ≡ some held
  pub token : ltb id.token token_shift ≡ false
  pub same : held.io ≡ content

-- What `io_update` answers to the event, by what mio answered.
abbrev pub updated : Option IoError → Result Reply
updated none = ok Reply.done
updated (some e) = err (io e)

module _ {P : Types} (env : Env P) (n : ℕ) {handle : Handle} {id : IoId} {content : Any}
    (l : Loop P) (watched : Watched l.events handle id content) where
  io_idx-Watched : Scope.io_idx handle id l ≡ returns (id.token - token_shift) l
  unfolding Scope.io_idx contains_key
  io_idx-Watched = rw (watched.token, watched.there) ground (arith, watched.inside)

  io_at-Watched : Scope.io_at handle (id.token - token_shift) l ≡ returns watched.held l
  unfolding Scope.io_at ◌>>=◌
  io_at-Watched = rw (watched.there, watched.inside) refl

  io_mut-Watched : Scope.io_mut handle id l ≡ returns content l
  unfolding Scope.io_mut ◌>>=◌
  io_mut-Watched = rw (io_idx-Watched, io_at-Watched, watched.same) refl

  -- `with_io` runs its function on the content, if it is of the type that is asked for.
  pub run_script-with_io :
      {E R : Type 0} (t : Ty) (v : Value t) (f : Value t → P.World → Result R × P.World)
      (k : Result R → Callback P E)
      → content ≡ box t v
      → run_script (perform env (suc n) handle) (with_io t id f k) l
        ≡ run_script
            (perform env (suc n) handle)
            (k (f v l.world).0)
            (record l { world = (f v l.world).1 })
  unfolding run_script with_io found_io through perform request attempt ◌>>=◌
  run_script-with_io t v f k is =
      let cast : downcast t content ≡ some v = ap (downcast t) is ∙ downcast_self t v in
      rw io_mut-Watched (ap (λ o. run_script (perform env (suc n) handle) (through f k o) l) cast)

  -- `io_update` calls mio and changes nothing else; the callback goes on with the answer.
  pub run_script-io_update :
      {E : Type 0} (interest opts : ℕ) (k : Result Reply → Callback P E)
      → run_script (perform env (suc n) handle) (ask (io_update id interest opts) k) l
        ≡ run_script
            (perform env (suc n) handle)
            (k (updated (env.reregister content id.token interest opts l.world).0))
            (record l { world = (env.reregister content id.token interest opts l.world).1 })
  unfolding run_script perform request Scope.io_update outside attempt ◌>>=◌
  run_script-io_update interest opts k =
      rw (io_idx-Watched, io_at-Watched, watched.same)
        (answered (env.reregister content id.token interest opts l.world))
    where
      answered :
          (o : Option IoError × P.World)
          → (do
            r ← attempt (do outside (λ _. o); pure Reply.done)
            run_script (perform env (suc n) handle) (k r))
              l
            ≡ run_script (perform env (suc n) handle) (k (updated o.0)) (record l { world = o.1 })
      answered (none, w) = refl
      answered (some e, w) = refl
