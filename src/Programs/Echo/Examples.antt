-- ===== src/Programs/Echo/Examples.antt =====
-- A run of src/examples/echo.rs, and the theorem on its connections at one of them.
use eveboros.Base.{
  ℕ, zero, suc, ◌≡◌, refl, true, none, some, List, [], ◌∷◌, ◌++◌, arith, ◌==◌, nat_eq,
}
use eveboros.Error.{ok, would_block}
use eveboros.Any.{box, downcast}
use eveboros.Handle.{Handle}
use eveboros.Outcome.{Outcome, returns}
use eveboros.Loop.{Types, Loop, Env, EvHolder, MioEvent, error_handler_set, polled, new}
use eveboros.Loop.Iface
use eveboros.Loop.Iface.Watched.{Watched}
use eveboros.Loop.Events.{run_script}
use eveboros.Loop.Run.{perform}
use eveboros.Loop.Gather
use eveboros.Loop.Scope
use eveboros.Loop.Examples.{running}
use eveboros.Loop.Examples.Quiet.{quiet}
use eveboros.Programs.{IoResult, done, failed}
use eveboros.Programs.Echo
use eveboros.Programs.Echo.{Net, Connection}
use eveboros.Programs.Echo.Flow.{Socket, Reads, Writes, Flows, connection_io-Flow}
use eveboros.Programs.Echo.Server
use eveboros.Programs.Echo.Server.{AllEvents, echo}
use eveboros.Adapt.{combined, in_place, from}

-- A network with one client: the streams to accept, the bytes on their way, those that were read and those
-- that were written, how often the loop has polled, and the last interest in a socket.
record Wire : Type 0 where
  clients : List ℕ
  arriving : List ℕ
  came : List ℕ
  sent : List ℕ
  polls : ℕ
  interest : ℕ

abbrev accept : Wire → IoResult ℕ × Wire
accept w = elim w.clients [
  | [] ↦ (failed would_block, w)
  | s ∷ ss ↦ (done s, record w { clients = ss })
]

-- Bytes come and go one by one.
abbrev read_one : ℕ → List ℕ → Wire → IoResult (List ℕ) × Wire
read_one zero bytes w = (failed would_block, w)
read_one (suc room) [] w = (failed would_block, w)
read_one (suc room) (b ∷ bs) w =
    (done (b ∷ []), record w { arriving = bs; came = w.came ++ b ∷ [] })

abbrev write_one : List ℕ → Wire → IoResult ℕ × Wire
write_one [] w = (failed would_block, w)
write_one (b ∷ bs) w = (done 1, record w { sent = w.sent ++ b ∷ [] })

abbrev net : Net Wire
net = record {
  bind = λ address w. (done 100, w);
  accept = λ listener w. accept w;
  read = λ stream room w. read_one room w.arriving w;
  write = λ stream bytes w. write_one bytes w;
  readable = 1;
  writable = 2;
  is_readable = λ r. r == 1;
  is_writable = λ r. r == 2;
  no_opts = 0;
  sigint = 0;
  sigquit = 1;
  sigterm = 1;
}

-- The listener is ready, then the connection, to read and to write, and then SIGINT arrives.
abbrev happens : ℕ → List MioEvent
happens zero = record { token = 2; kind = 1 } ∷ []
happens (suc zero) = record { token = 3; kind = 1 } ∷ []
happens (suc (suc zero)) = record { token = 3; kind = 2 } ∷ []
happens n = record { token = 1; kind = 1 } ∷ []

abbrev Server_types : Types
Server_types = Server.types_of (Unit {0}) (List Handle) Wire

abbrev env : Env Server_types
env =
    record (quiet {World = Wire} (combined (Server.events net)) Server.handle_error
      Server.pass_through) {
        register = λ io token interest opts w. (none, record w { interest = interest });
        reregister = λ io token interest opts w. (none, record w { interest = interest });
        poll = λ wakeup w. (polled (happens w.polls), record w { polls = suc w.polls });
        swap_flag = λ s w. (s == 0, w);
      }

abbrev wire : Wire
wire = record {
  clients = 101 ∷ [];
  arriving = 7 ∷ 8 ∷ [];
  came = [];
  sent = [];
  polls = 0;
  interest = 1;
}

-- What was read and what was written in a run that ended well.
abbrev traffic : {A : Type 0} → Outcome (Loop Server_types) A → List ℕ × List ℕ
traffic (returns a l) = (l.world.came, l.world.sent)
traffic _ = ([], [])

-- The first byte comes back before the signal stops the server.
echo_lem : traffic (echo net env 12 (ok 6666) (new env tt wire)) ≡ (7 ∷ [], 7 ∷ [])
unfolding running echo error_handler_set combined in_place Iface.or_return Iface.insert
    Iface.register_for Iface.io_register Iface.through Iface.found_io Iface.with_io Echo.adjust
    Echo.connection_init Echo.keep_read Echo.connection_read Echo.keep_written Echo.connection_write
    Echo.connection_io Echo.connection_event Echo.shutdown_event Echo.listener_init Echo.accepted
    Echo.accept_rounds Echo.listener_event Scope.signal_enable Scope.want_signal Scope.io_update
    Scope.io_mut downcast Gather.take_flags Gather.take_signals Gather.take_signal
    Gather.check_signal
echo_lem = refl

socket : Socket (Server.serving net env) net 101 (λ w. w.came) (λ w. w.sent) (λ w. w.interest)
socket = record {
  reads = λ room w. read_lem room w.arriving w;
  writes = write_lem;
  untouched = λ token interest opts w. (refl, refl);
  accepted = λ token interest opts w fine. refl;
}
  where
    read_lem :
        (room : ℕ) (bytes : List ℕ) (w : Wire)
        → Reads (λ w. w.came) (λ w. w.sent) room w (read_one room bytes w)
    read_lem zero bytes w = (refl, refl)
    read_lem (suc room) [] w = (refl, refl)
    read_lem (suc room) (b ∷ bs) w = (omega arith, refl, refl)

    write_lem :
        (bytes : List ℕ) (w : Wire) → Writes (λ w. w.came) (λ w. w.sent) bytes w (write_one bytes w)
    write_lem [] w = (refl, refl)
    write_lem (b ∷ bs) w = (omega arith, refl, refl)

-- A connection with room for two bytes, and a loop with its event, which watches the stream.
abbrev connection : Connection
connection = record { stream = none; buf = 0 ∷ 0 ∷ []; buf_pos = 0; buf_size = 0 }

abbrev client : Handle
client = record { id = 0; generation = 0 }

abbrev watching : EvHolder AllEvents
watching = record {
  event = record { content = from Server.c connection; stolen = true };
  generation = 0;
  timeouts = 0;
  ios = (0, record { recipient = client; io = box Echo.tcp_stream 101 }) ∷ [];
  expected_messages = [];
  children = [];
}

abbrev serving_loop : Loop Server_types
serving_loop = record (new env tt wire) {
  events = record {
    slots = some watching ∷ [];
    free = [];
    block = record { buffer = 1; capacity = 8 };
  };
}

watched : Watched serving_loop.events client (record { token = 2 }) (box Echo.tcp_stream 101)
unfolding running
watched = record {
  holder = watching;
  there = refl;
  held = record { recipient = client; io = box Echo.tcp_stream 101 };
  inside = refl;
  token = refl;
  same = refl;
}

connection_io_example :
    Flows
      (Server.serving net env)
      net
      socket
      5
      client
      (record { token = 2 })
      (run_script
        (perform (Server.serving net env) 6 client)
        (Echo.connection_io net (record { token = 2 }) 1 connection)
        serving_loop)
unfolding running
connection_io_example =
    connection_io-Flow (Server.serving net env) net socket 5 client (record { token = 2 }) 1
      connection serving_loop watched ((λ e. refl), (λ less. absurd (omega (arith, less))))
      ((λ e. refl), (λ e. absurd (omega (arith, e))))
      (record { conserved = refl; pos_in = omega arith; size_in = omega arith })
