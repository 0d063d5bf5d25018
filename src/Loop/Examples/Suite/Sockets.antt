-- ===== src/Loop/Examples/Suite/Sockets.antt =====
-- The test `io` of src/core.rs.
use eveboros.Base.{ℕ, ◌+◌, ◌≡◌, refl, true, Option, none, some, ◌==◌, if◌then◌else◌, is_some}
use eveboros.Error.{Result, ok, err, io_type, missing_io}
use eveboros.Any.{Ty, nominal, box, downcast}
use eveboros.Handle.{handle_eq, IoId}
use eveboros.Outcome.{returns, M, assert, modify, ◌>>=◌, ◌>>◌}
use eveboros.Recycler
use eveboros.Loop.Scope
use eveboros.Loop.{
  Types, Loop, Event, Callback, respond, ask, abort, with_defaults, Reply, io_remove, io_update,
  stop,
}
use eveboros.Loop.Iface.{
  or_return, with_context, io_register, register_for, with_io, found_io, through,
}
use eveboros.Loop.Run.{loop_insert, loop_run}
use eveboros.Loop.Examples.{running}
use eveboros.Loop.Examples.Suite.Outside.{Around, around, passes, fresh}

record HelloListener : Type 0 where

abbrev Sockets : Types
Sockets = Around (Option ℕ) HelloListener

-- The types `TcpListener` and `TcpStream`; the value of a socket is its address.
abbrev tcp_listener : Ty
tcp_listener = nominal 3

abbrev tcp_stream : Ty
tcp_stream = nominal 4

-- The address that the system chooses.
abbrev chosen : ℕ
chosen = 7000

-- `err!(…, Error::MissingIo)`, and the rest of the callback.
abbrev after_update : HelloListener → Result Reply → Callback Sockets HelloListener
after_update ev (err missing_io) = ask stop λ _. respond ev (ok true)
after_update ev _ = abort

abbrev after_greeting : HelloListener → IoId → Result (Unit {0}) → Callback Sockets HelloListener
after_greeting ev id =
    or_return ev
      λ _. ask (io_remove id) (or_return ev λ _. ask (io_update id 2 0) (after_update ev))

-- `err!(…, Error::IoType)`, and the rest of the callback.
abbrev not_stream : HelloListener → IoId → Result (Unit {0}) → Callback Sockets HelloListener
not_stream ev id (err io_type) =
    with_io tcp_listener id (λ listener w. (ok tt, record w { greeted = w.greeted + 1 }))
      (after_greeting ev id)
not_stream ev id _ = abort

abbrev listener_of : Event Sockets HelloListener
listener_of =
    record (with_defaults λ ev.
      with_context (λ c. (ok tt, some chosen))
        (or_return ev λ _.
          io_register (box tcp_listener chosen) 1 0 (or_return ev λ _. respond ev (ok true)))) {
            io = λ id ready ev.
                if ready == 1
                then with_io tcp_stream id (λ stream w. (ok tt, w)) (not_stream ev id)
                else abort;
          }

io_test : M (Loop Sockets) (Unit {0})
io_test = do
  loop_insert (around listener_of) 9 (record {})
  (λ l. assert (Recycler.len l.events == 1) l)
  addr ← (λ l. returns l.context (record l { context = none }))
  assert (is_some addr)
  modify (λ l. record l { world = record l.world { connected = l.world.connected + 1 } })
  loop_run (around listener_of) 9
  (λ l. assert (l.world.greeted == 1) l)

io_test_lem : passes (io_test (fresh listener_of none)) ≡ true
unfolding running io_test or_return with_context io_register register_for with_io found_io through
    downcast Scope.io_update Scope.io_mut
io_test_lem = refl
