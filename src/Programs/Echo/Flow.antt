-- ===== src/Programs/Echo/Flow.antt =====
-- The connections of src/examples/echo.rs send back what they receive.
use eveboros.Base.{
  Bool-cases, Option, some, ℕ, suc, ◌≤◌, ◌<◌, ◌≡◌, inl, inr, refl, sym, ap, subst, ◌∙◌, Bool, true,
  false, none, List, [], ◌∷◌, ◌++◌, length, take, ltb, ◌==◌, nat_eq, if◌then◌else◌, arith,
}
use mathlib.Core.List.{append-nil}
use eveboros.Error.{IoError, interrupted, would_block, other_io, Result, ok, err, io, user}
use eveboros.Any.{box}
use eveboros.Handle.{Handle, IoId}
use eveboros.Outcome.{Outcome, returns}
use eveboros.Loop.{Types, Loop, Env, respond}
use eveboros.Loop.Events.{run_script}
use eveboros.Loop.Run.{perform}
use eveboros.Loop.Iface.{or_return}
use eveboros.Loop.Iface.Watched.{updated, Watched, run_script-with_io, run_script-io_update}
use eveboros.Programs.{IoResult, done, failed}
use eveboros.Programs.Echo.{
  Net, Connection, pending, tcp_stream, adjust, connection_read, connection_write, keep_read,
  keep_written, connection_io, read_result, write_result,
}
use eveboros.Programs.Echo.Buffer.{Flow, read_Flow, write_Flow}

-- What a call of `read` did to the bytes that came in on a socket and the bytes that went out.
abbrev pub Reads : {W : Type 0} (input output : W → List ℕ) → ℕ → W → IoResult (List ℕ) × W → Type 0
Reads input output room w (done data', w') =
    (length data' ≤ room) × (input w' ≡ input w ++ data') × (output w' ≡ output w)
Reads input output room w (failed e, w') = (input w' ≡ input w) × (output w' ≡ output w)

abbrev pub Writes : {W : Type 0} (input output : W → List ℕ) → List ℕ → W → IoResult ℕ × W → Type 0
Writes input output bytes w (done n, w') =
    (n ≤ length bytes) × (input w' ≡ input w) × (output w' ≡ output w ++ take n bytes)
Writes input output bytes w (failed e, w') = (input w' ≡ input w) × (output w' ≡ output w)

-- The documented behaviour of a socket: `read` gives the next bytes that came in, at most as many as there
-- is room for, `write` sends a prefix of the bytes that it is given, and a change of the interest touches
-- neither. `input` are the bytes that were read so far, `output` those that were written, and `asked` is the
-- interest that mio accepted last.
pub record Socket {P : Types} (env : Env P) (net : Net P.World) (s : ℕ)
    (input output : P.World → List ℕ) (asked : P.World → ℕ) : Type 0 where
  pub reads : (room : ℕ) (w : P.World) → Reads input output room w (net.read s room w)
  pub writes : (bytes : List ℕ) (w : P.World) → Writes input output bytes w (net.write s bytes w)
  pub untouched :
      (token interest opts : ℕ) (w : P.World)
      → (input (env.reregister (box tcp_stream s) token interest opts w).1 ≡ input w)
        × (output (env.reregister (box tcp_stream s) token interest opts w).1 ≡ output w)
  pub accepted :
      (token interest opts : ℕ) (w : P.World)
      → (env.reregister (box tcp_stream s) token interest opts w).0 ≡ none
      → asked (env.reregister (box tcp_stream s) token interest opts w).1 ≡ interest

-- The connection has asked to read with the buffer empty, and to write with something in it.
abbrev pub Asks : {W : Type 0} → Net W → (W → ℕ) → Connection → W → Type 0
Asks net asked c w =
    (c.buf_pos ≡ c.buf_size → asked w ≡ net.readable)
    × (c.buf_pos < c.buf_size → asked w ≡ net.writable)

-- The readiness is one that was asked for.
abbrev pub Grants : {W : Type 0} → Net W → ℕ → ℕ → Type 0
Grants net interest ready =
    (interest ≡ net.readable → net.is_readable ready ≡ true)
    × (interest ≡ net.writable → (net.is_readable ready ≡ false) × (net.is_writable ready ≡ true))

module _ {P : Types} (env : Env P) (net : Net P.World) {s : ℕ} {input output : P.World → List ℕ}
    {asked : P.World → ℕ} (socket : Socket env net s input output asked) (n : ℕ) (h : Handle)
    (id : IoId) where
  -- A failed call leaves the bytes as they were.
  unchanged :
      (c : Connection) (w w' : P.World)
      → Flow input output c w
      → (input w' ≡ input w) × (output w' ≡ output w)
      → Flow input output c w'
  unchanged c w w' f (same_in, same_out) = record {
    conserved = ap (λ xs. xs ++ pending c) same_out ∙ f.conserved ∙ sym same_in;
    pos_in = f.pos_in;
    size_in = f.size_in;
  }

  -- A connection that goes on has its bytes in order and has asked for what it needs; of one that ends with
  -- an error, what was written is the beginning of what was read.
  abbrev pub After : Result Bool → Connection → P.World → Type 0
  After (ok b) c w = (b ≡ true) × Flow input output c w × Asks net asked c w
  After (err e) c w = (rest : List ℕ) × (output w ++ rest ≡ input w)

  abbrev pub Flows : Outcome (Loop P) (Connection × Result Bool) → Type 0
  Flows o =
      (c' : Connection) × (r : Result Bool) × (l' : Loop P) × (o ≡ returns (c', r) l')
      × After r c' l'.world

  or_return_ends :
      (c : Connection) (o : Option IoError) (l : Loop P)
      → (o ≡ none → Asks net asked c l.world)
      → Flow input output c l.world
      → Flows (
          run_script (perform env (suc n) h) (or_return c (λ _. respond c (ok true)) (updated o)) l)
  unfolding or_return run_script
  or_return_ends c none l asks f = (c, ok true, l, refl, (refl, f, asks refl))
  or_return_ends c (some e) l asks f = (c, err (io e), l, refl, (pending c, f.conserved))

  adjust-Flow :
      (c : Connection) (l : Loop P)
      → Watched l.events h id (box tcp_stream s)
      → Flow input output c l.world
      → Flows (run_script (perform env (suc n) h) (adjust net id c) l)
  unfolding adjust
  adjust-Flow c l watched f =
      let interest : ℕ = if c.buf_pos == c.buf_size then net.readable else net.writable in
      let (same_in, same_out) = socket.untouched id.token interest net.no_opts l.world in
      let o = env.reregister (box tcp_stream s) id.token interest net.no_opts l.world in
      let f' = unchanged c l.world o.1 f (same_in, same_out) in
      subst Flows
        (sym (
          run_script-io_update env n l watched interest net.no_opts
            (or_return c (λ _. respond c (ok true)))))
        (or_return_ends c o.0 (record l { world = o.1 })
          (λ fine.
            let now = socket.accepted id.token interest net.no_opts l.world fine in
            (λ empty. ground (arith, now, empty), λ some_left. ground (arith, now, some_left)))
          f')

  read_ends :
      (c : Connection) (o : IoResult (List ℕ) × P.World) (l : Loop P)
      → Watched l.events h id (box tcp_stream s)
      → Flow input output c l.world
      → c.buf_pos ≡ c.buf_size
      → Reads input output (length c.buf) l.world o
      → Flows (
          run_script
            (perform env (suc n) h)
            (keep_read net id c (read_result o).0)
            (record l { world = (read_result o).1 }))
  unfolding keep_read or_return run_script
  read_ends c (done [], w) l watched f empty (fits, came, kept) = (
    record c { buf_pos = 0 },
    err (user none),
    record l { world = w },
    refl,
    (
      pending c,
      ap (λ xs. xs ++ pending c) kept ∙ f.conserved ∙ sym (came ∙ append-nil (input l.world)),
    ),
  )
  read_ends c (done (b ∷ bs), w) l watched f empty (fits, came, kept) =
      adjust-Flow _ (record l { world = w }) watched
        (read_Flow c (b ∷ bs) l.world w f empty fits came kept)
  read_ends c (failed would_block, w) l watched f empty (came, kept) =
      adjust-Flow _ (record l { world = w }) watched
        (read_Flow c [] l.world w f empty (omega arith) (came ∙ sym (append-nil (input l.world)))
          kept)
  read_ends c (failed interrupted, w) l watched f empty (came, kept) =
      adjust-Flow _ (record l { world = w }) watched
        (read_Flow c [] l.world w f empty (omega arith) (came ∙ sym (append-nil (input l.world)))
          kept)
  read_ends c (failed (other_io e), w) l watched f empty (came, kept) = (
    record c { buf_pos = 0 },
    err (io (other_io e)),
    record l { world = w },
    refl,
    (pending c, (unchanged c l.world w f (came, kept)).conserved),
  )

  write_ends :
      (c : Connection) (o : IoResult ℕ × P.World) (l : Loop P)
      → Watched l.events h id (box tcp_stream s)
      → Flow input output c l.world
      → Writes input output (pending c) l.world o
      → Flows (
          run_script
            (perform env (suc n) h)
            (keep_written net id c (write_result o).0)
            (record l { world = (write_result o).1 }))
  unfolding keep_written or_return run_script
  write_ends c (done size, w) l watched f (fits, kept, sent) =
      adjust-Flow _ (record l { world = w }) watched (write_Flow c size l.world w f fits kept sent)
  write_ends c (failed would_block, w) l watched f (kept, sent) =
      adjust-Flow _ (record l { world = w }) watched
        (write_Flow c 0 l.world w f (omega arith) kept (sent ∙ sym (append-nil (output l.world))))
  write_ends c (failed interrupted, w) l watched f (kept, sent) =
      adjust-Flow _ (record l { world = w }) watched
        (write_Flow c 0 l.world w f (omega arith) kept (sent ∙ sym (append-nil (output l.world))))
  write_ends c (failed (other_io e), w) l watched f same = (
    c,
    err (io (other_io e)),
    record l { world = w },
    refl,
    (pending c, (unchanged c l.world w f same).conserved),
  )

  connection_io-read :
      (ready : ℕ) (c : Connection)
      → net.is_readable ready ≡ true
      → c.buf_pos ≡ c.buf_size
      → connection_io {P = P} net id ready c ≡ connection_read net id c
  unfolding connection_io
  connection_io-read ready c to_read empty =
      let yes : (c.buf_pos == c.buf_size) ≡ true = ground (arith, empty) in rw (to_read, yes) refl

  connection_io-write :
      (ready : ℕ) (c : Connection)
      → net.is_readable ready ≡ false
      → net.is_writable ready ≡ true
      → c.buf_pos < c.buf_size
      → connection_io {P = P} net id ready c ≡ connection_write net id c
  unfolding connection_io
  connection_io-write ready c no_read to_write some_left =
      let yes : ltb c.buf_pos c.buf_size ≡ true = ground (arith, some_left) in
      rw (no_read, to_write, yes) refl

  -- The event of a connection watches its socket, which behaves as documented (`Socket`); the interest that
  -- mio accepted last is in reading if the buffer is empty and in writing if something waits in it, and the
  -- event is called for a readiness of that interest. Then the callback does not panic: it returns. Either it
  -- goes on: every byte that was ever read from the socket has been written back to it, in order, but for
  -- those that wait in the buffer, and mio has accepted the interest that the buffer now needs. Or it ends
  -- with an error, and what was written is the beginning of what was read.
  pub connection_io-Flow :
      (ready : ℕ) (c : Connection) (l : Loop P)
      → Watched l.events h id (box tcp_stream s)
      → Asks net asked c l.world
      → Grants net (asked l.world) ready
      → Flow input output c l.world
      → Flows (run_script (perform env (suc n) h) (connection_io net id ready c) l)
  unfolding connection_read connection_write
  connection_io-Flow ready c l watched asks grants f = elim (Bool-cases (c.buf_pos == c.buf_size)) [
    | inl e ↦ empty_Flow (ground (arith, e))
    | inr e ↦ filled_Flow (ground (arith, e, f.pos_in))
  ]
    where
      empty_Flow :
          c.buf_pos ≡ c.buf_size
          → Flows (run_script (perform env (suc n) h) (connection_io net id ready c) l)
      empty_Flow empty =
          let as_read = connection_io-read ready c (grants.0 (asks.0 empty)) empty in
          let ran =
            run_script-with_io env n l watched tcp_stream s
              (λ stream w. read_result (net.read stream (length c.buf) w)) (keep_read net id c)
              refl in
          subst Flows (sym (ap (λ k. run_script (perform env (suc n) h) k l) as_read ∙ ran)) (
            read_ends c (net.read s (length c.buf) l.world) l watched f empty
              (socket.reads (length c.buf) l.world))

      filled_Flow :
          c.buf_pos < c.buf_size
          → Flows (run_script (perform env (suc n) h) (connection_io net id ready c) l)
      filled_Flow some_left =
          let (no_read, to_write) = grants.1 (asks.1 some_left) in
          let as_write = connection_io-write ready c no_read to_write some_left in
          let ran =
            run_script-with_io env n l watched tcp_stream s
              (λ stream w. write_result (net.write stream (pending c) w)) (keep_written net id c)
              refl in
          subst Flows (sym (ap (λ k. run_script (perform env (suc n) h) k l) as_write ∙ ran)) (
            write_ends c (net.write s (pending c) l.world) l watched f
              (socket.writes (pending c) l.world))
