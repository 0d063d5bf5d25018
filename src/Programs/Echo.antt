-- ===== src/Programs/Echo.antt =====
-- src/examples/echo.rs: a TCP server that sends back what it receives.
pub mod Slices
pub mod Buffer
pub mod Flow
pub mod Server
pub mod Examples
use eveboros.Base.{
  ℕ, zero, suc, ◌+◌, ◌-◌, Bool, true, false, Option, none, some, List, [], ◌∷◌, ◌++◌, length, take,
  drop, ltb, ◌==◌, if◌then◌else◌,
}
use eveboros.Error.{Error, IoError, interrupted, would_block, other_io, Result, ok, err, io, user}
use eveboros.Any.{Ty, nominal, box}
use eveboros.Handle.{Handle, IoId}
use eveboros.Outcome.{M, lift, modify, ◌>>=◌, ◌>>◌}
use eveboros.Loop.{
  Types, Loop, Env, Event, Callback, respond, ask, effect, abort, with_defaults, want_signal, stop,
  io_update, Reply, error_handler_set,
}
use eveboros.Loop.Iface.{or_return, insert, io_register, with_io}
use eveboros.Loop.Run.{loop_insert, loop_run}
use eveboros.Adapt.{Choice, from, combined}
use eveboros.Programs.{IoResult, done, failed}

-- What the program uses of mio, of the system and of the signal numbers. A socket is a number, and its state
-- is outside.
pub record Net (World : Type 0) : Type 0 where
  pub bind : ℕ → World → IoResult ℕ × World
  pub accept : ℕ → World → IoResult ℕ × World
  pub read : ℕ → ℕ → World → IoResult (List ℕ) × World
  pub write : ℕ → List ℕ → World → IoResult ℕ × World
  pub readable : ℕ
  pub writable : ℕ
  pub is_readable : ℕ → Bool
  pub is_writable : ℕ → Bool
  pub no_opts : ℕ
  pub sigint : ℕ
  pub sigquit : ℕ
  pub sigterm : ℕ

abbrev pub tcp_listener : Ty
tcp_listener = nominal 0

abbrev pub tcp_stream : Ty
tcp_stream = nominal 1

pub record Listener : Type 0 where
  pub address : ℕ

-- `buf` is the whole buffer.
pub record Connection : Type 0 where
  pub stream : Option ℕ
  pub buf : List ℕ
  pub buf_pos : ℕ
  pub buf_size : ℕ

pub record Shutdown : Type 0 where

abbrev pub zeros : ℕ → List ℕ
zeros zero = []
zeros (suc n) = 0 ∷ zeros n

-- The connection that the listener makes of a stream.
abbrev pub fresh_connection : ℕ → Connection
fresh_connection stream = record {
  stream = some stream;
  buf = zeros 1024;
  buf_pos = 0;
  buf_size = 0;
}

-- An `io::Result` with its error as one of the library's.
abbrev pub map_err : {A W : Type 0} → IoResult A × W → Result A × W
map_err (done a, w) = (ok a, w)
map_err (failed e, w) = (err (io e), w)

-- The closure around `read`: the end of the stream is an error, and nothing to read is no data.
abbrev pub read_result : {W : Type 0} → IoResult (List ℕ) × W → Result (List ℕ) × W
read_result (done [], w) = (err (user none), w)
read_result (done (b ∷ bs), w) = (ok (b ∷ bs), w)
read_result (failed would_block, w) = (ok [], w)
read_result (failed interrupted, w) = (ok [], w)
read_result (failed (other_io e), w) = (err (io (other_io e)), w)

-- The closure around `write`.
abbrev pub write_result : {W : Type 0} → IoResult ℕ × W → Result ℕ × W
write_result (done n, w) = (ok n, w)
write_result (failed would_block, w) = (ok 0, w)
write_result (failed interrupted, w) = (ok 0, w)
write_result (failed (other_io e), w) = (err (io (other_io e)), w)

-- `self.buf[self.buf_pos..self.buf_size]`
abbrev pub pending : Connection → List ℕ
pending c = take (c.buf_size - c.buf_pos) (drop c.buf_pos c.buf)

module _ {P : Types} (net : Net P.World) where
  -- The end of `Connection::io`: the interest is in reading or in writing, by what the buffer holds.
  unfoldable pub adjust : IoId → Connection → Callback P Connection
  unfolding or_return
  adjust id c =
      ask
        (io_update id (if c.buf_pos == c.buf_size then net.readable else net.writable) net.no_opts)
        (or_return c (λ _. respond c (ok true)))

  unfoldable pub connection_init : Connection → Callback P Connection
  unfolding io_register or_return
  connection_init c = elim c.stream [
    | none ↦ abort
    | some stream ↦
        let c' : Connection = record c { stream = none } in
        io_register (box tcp_stream stream) net.readable net.no_opts
          (or_return c' (λ _. respond c' (ok true)))
  ]

  -- `self.buf_pos = 0` was done before the read.
  unfoldable pub keep_read : IoId → Connection → Result (List ℕ) → Callback P Connection
  unfolding or_return adjust
  keep_read id c =
      or_return (record c { buf_pos = 0 })
        λ data'. adjust id (record c {
          buf_pos = 0;
          buf = data' ++ drop (length data') c.buf;
          buf_size = length data';
        })

  unfoldable pub connection_read : IoId → Connection → Callback P Connection
  unfolding with_io keep_read
  connection_read id c =
      with_io tcp_stream id (λ stream w. read_result (net.read stream (length c.buf) w))
        (keep_read id c)

  unfoldable pub keep_written : IoId → Connection → Result ℕ → Callback P Connection
  unfolding or_return adjust
  keep_written id c = or_return c λ size. adjust id (record c { buf_pos = c.buf_pos + size })

  unfoldable pub connection_write : IoId → Connection → Callback P Connection
  unfolding with_io keep_written
  connection_write id c =
      with_io tcp_stream id (λ stream w. write_result (net.write stream (pending c) w))
        (keep_written id c)

  unfoldable pub connection_io : IoId → ℕ → Connection → Callback P Connection
  unfolding connection_read connection_write
  connection_io id ready c =
      if net.is_readable ready
      then (if c.buf_pos == c.buf_size then connection_read id c else abort)
      else if net.is_writable ready
      then (if ltb c.buf_pos c.buf_size then connection_write id c else abort)
      else abort

  unfoldable pub connection_event : Event P Connection
  unfolding connection_init connection_io
  connection_event = record (with_defaults connection_init) { io = connection_io }

  unfoldable pub shutdown_event : Event P Shutdown
  shutdown_event =
      record (with_defaults λ ev. ask (want_signal net.sigint) λ _.
        ask (want_signal net.sigquit)
          λ _. ask (want_signal net.sigterm) λ _. respond ev (ok true)) {
            signal = λ signum ev. ask stop (λ _. respond ev (ok false));
          }

  module _ (into : Connection → P.Ev) where
    unfoldable pub listener_init : Listener → Callback P Listener
    unfolding io_register or_return
    listener_init ev =
        effect (λ w. (net.bind ev.address w).1)
          λ w.
            or_return ev
              (λ listener.
                io_register (box tcp_listener listener) net.readable net.no_opts
                  (or_return ev (λ _. respond ev (ok true))))
              (map_err (net.bind ev.address w)).0

    -- One connection, and `again`, the next round.
    unfoldable pub accepted : Listener → Callback P Listener → Result ℕ → Callback P Listener
    unfolding insert or_return
    accepted ev again (err (io would_block)) = respond ev (ok true)
    accepted ev again (err (io interrupted)) = again
    accepted ev again (err e) = respond ev (err e)
    accepted ev again (ok stream) =
        insert into (fresh_connection stream) (or_return ev (λ _. again))

    -- The loop of `Listener::io`, with the rounds that are left.
    unfoldable pub accept_rounds : ℕ → IoId → Listener → Callback P Listener
    unfolding with_io accepted
    accept_rounds zero id ev = respond ev (ok true)
    accept_rounds (suc n) id ev =
        with_io tcp_listener id (λ listener w. map_err (net.accept listener w))
          (accepted ev (accept_rounds n id ev))

    unfoldable pub listener_event : Event P Listener
    unfolding listener_init accept_rounds
    listener_event = record (with_defaults listener_init) {
      io = λ id ready ev. accept_rounds 128 id ev;
    }
