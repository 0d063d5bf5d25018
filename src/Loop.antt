-- ===== src/Loop.antt =====
-- The state of the event loop of src/core.rs, what its user supplies, and what lies outside the
-- repository. The operations stand in the modules below.
pub mod Timers
pub mod Events
pub mod Gather
pub mod Scope
pub mod Run
pub mod Owner
pub mod Iface
pub mod Keeps
pub mod Local
pub mod Held
pub mod Sound
pub mod Examples
use eveboros.Base.{ℕ, Bool, false, Option, none, some, List, [], ◌∷◌}
use eveboros.Error.{Error, IoError, NixError, Result, err, default_impl}
use eveboros.Any.{Any, Ty}
use eveboros.Handle.{Handle, IoId, TimeoutId, BackgroundId}
use eveboros.Message.{Message, RemoteMessage}
use eveboros.Recycler.{Block, Recycler}
use eveboros.Recycler
use eveboros.StolenCell.{StolenCell}

-- The types that a program and its surroundings choose: the context, the events, the closures that
-- serve as error handlers, the jobs of the thread pool, the state of a linked hash map of handles, and
-- everything outside the process's own data (mio's poll and channels, the signal flags, the thread
-- pool, the clock, the allocator).
pub record Types : Type 1 where
  pub Context : Type 0
  pub Ev : Type 0
  pub Handler : Type 0
  pub Job : Type 0
  pub Idle : Type 0
  pub World : Type 0

pub record IoHolder : Type 0 where
  pub recipient : Handle
  pub io : Any

pub record EvHolder (Ev : Type 0) : Type 0 where
  pub event : StolenCell Ev
  pub generation : ℕ
  pub timeouts : ℕ
  pub ios : List (ℕ × IoHolder)
  pub expected_messages : List Ty
  pub children : List ℕ

pub data ChildExit : Type 0 where
  exited signaled : ℕ → ChildExit

pub data TaskParam : Type 0 where
  io_ready : IoId → ℕ → TaskParam
  timeout : TimeoutId → TaskParam
  signal : ℕ → TaskParam
  message : Message → TaskParam
  child : ℕ → ChildExit → TaskParam
  idle : TaskParam

pub record Task : Type 0 where
  pub recipient : Handle
  pub param : TaskParam

pub record TimeoutHolder : Type 0 where
  pub id : TimeoutId
  pub recipient : Handle
  pub when : ℕ

-- Instants and durations are numbers of nanoseconds, signals and process ids are numbers.
-- `timeouts` holds the binary heap as the list of its elements in the order in which they are popped.
pub record Loop (P : Types) : Type 0 where
  pub active : Bool
  pub context : P.Context
  pub error_handler : P.Handler
  pub events : Recycler (EvHolder P.Ev)
  pub generation : ℕ
  pub scheduled : List Task
  pub timeouts : List TimeoutHolder
  pub timeouts_dead : ℕ
  pub timeouts_fired : ℕ
  pub timeouts_inserted : ℕ
  pub timeout_generation : ℕ
  pub now : ℕ
  pub ios : Recycler Handle
  pub ios_released : List ℕ
  pub want_idle : P.Idle
  pub threadpool : Option ℕ
  pub background_generation : ℕ
  pub signal_recipients : ℕ → List Handle
  pub signals_enabled : ℕ → Bool
  pub children : List (ℕ × Handle)
  pub world : P.World

-- What a callback can ask of its scope. A write through the reference that `io_mut` returns is an
-- operation of its own, `io_write`.
pub data Op (P : Types) : Type 0 where
  insert_exact : P.Ev → Op P
  run_one run stop want_idle : Op P
  run_until_complete : Handle → Op P
  event_alive : Handle → Op P
  event_count now handle : Op P
  send_impl post_impl : Handle → Any → Ty → Op P
  channel : Handle → Op P
  timeout_at : ℕ → Op P
  want_signal : ℕ → Op P
  expect_message : Ty → Op P
  io_register_any : IoHolder → ℕ → ℕ → Op P
  io_update : IoId → ℕ → ℕ → Op P
  io_remove io_mut : IoId → Op P
  io_write : IoId → Any → Op P
  background_submit : P.Job → Op P
  track_child : ℕ → Op P

pub data Reply : Type 0 where
  done : Reply
  of_handle : Handle → Reply
  of_bool : Bool → Reply
  of_number : ℕ → Reply
  of_timeout : TimeoutId → Reply
  of_io : IoId → Reply
  of_any : Any → Reply
  of_background : BackgroundId → Reply

-- The body of a callback of an event of the type `E`, as the loop sees it: what it does with the context
-- and the scope, what it does outside of the loop (`effect`: the world that it leaves, and how it goes on
-- from what it found), and at the end the event as it leaves it and its response, or a panic.
pub data Callback (P : Types) (E : Type 0) : Type 0 where
  respond : E → Result Bool → Callback P E
  get_context : (P.Context → Callback P E) → Callback P E
  set_context : P.Context → Callback P E → Callback P E
  ask : Op P → (Result Reply → Callback P E) → Callback P E
  effect : (P.World → P.World) → (P.World → Callback P E) → Callback P E
  abort : Callback P E

-- A callback of the events that the loop holds.
abbrev pub Script : Types → Type 0
Script P = Callback P P.Ev

-- The trait `Event`, implemented by the type `E` for scopes of the loop.
pub record Event (P : Types) (E : Type 0) : Type 0 where
  pub init : E → Callback P E
  pub io : IoId → ℕ → E → Callback P E
  pub timeout : TimeoutId → E → Callback P E
  pub signal : ℕ → E → Callback P E
  pub idle : E → Callback P E
  pub message : Message → E → Callback P E
  pub child : ℕ → ChildExit → E → Callback P E

module _ {P : Types} {E : Type 0} where
  -- The body of every callback that an event does not implement.
  abbrev pub default_callback : E → Callback P E
  default_callback ev = respond ev (err default_impl)

  -- An event that implements `init` only.
  abbrev pub with_defaults : (E → Callback P E) → Event P E
  with_defaults init = record {
    init = init;
    io = λ id ready. default_callback;
    timeout = λ id. default_callback;
    signal = λ signum. default_callback;
    idle = default_callback;
    message = λ m. default_callback;
    child = λ pid exit. default_callback;
  }

  -- The callback that a task stands for.
  abbrev pub react : Event P E → TaskParam → E → Callback P E
  react event (io_ready id ready) = event.io id ready
  react event (timeout id) = event.timeout id
  react event (signal signum) = event.signal signum
  react event (message m) = event.message m
  react event (child pid exit) = event.child pid exit
  react event idle = event.idle

-- mio::Event
pub record MioEvent : Type 0 where
  pub token : ℕ
  pub kind : ℕ

-- nix::WaitStatus
pub data WaitStatus : Type 0 where
  still_alive other_status : WaitStatus
  exited signaled : ℕ → ℕ → WaitStatus

pub data WaitAnswer : Type 0 where
  status : WaitStatus → WaitAnswer
  wait_error : NixError → WaitAnswer

pub data PollAnswer : Type 0 where
  polled : List MioEvent → PollAnswer
  poll_error : IoError → PollAnswer

-- What the code calls and does not implement. Every call may change the outside world.
pub record Env (P : Types) : Type 0 where
  -- the callbacks of the user's events, and the user's error handlers
  pub event : Event P P.Ev
  pub handle_error : P.Handler → P.Ev → Error → Result (Unit {0}) × P.Handler
  pub pass_through : P.Handler
  -- linked_hash_map
  pub idle_new : P.Idle
  pub idle_is_empty : P.Idle → Bool
  pub idle_insert : Handle → P.Idle → P.Idle
  pub idle_remove : Handle → P.Idle → P.Idle
  pub idle_pop_front : P.Idle → Option (Handle × P.Idle)
  -- mio: registrations, the poll itself with an optional time limit, and the messages that
  -- `try_recv` returns until the channel is found empty
  pub register : Any → ℕ → ℕ → ℕ → P.World → Option IoError × P.World
  pub reregister : Any → ℕ → ℕ → ℕ → P.World → Option IoError × P.World
  pub deregister : Any → P.World → Option IoError × P.World
  pub poll : Option ℕ → P.World → PollAnswer × P.World
  pub receive : P.World → List RemoteMessage × P.World
  pub clear_wakeup : P.World → P.World
  -- the shared signal flags (`swap(false)`), the signal dispatcher and the conversion of numbers
  pub sig_count : ℕ
  pub sigchld : ℕ
  pub swap_flag : ℕ → P.World → Bool × P.World
  pub sig_register : ℕ → P.World → P.World
  pub from_c_int : ℕ → Option NixError
  -- the answers of `waitpid`, in order
  pub waits : P.World → List WaitAnswer × P.World
  -- threadpool
  pub set_threads : ℕ → P.World → P.World
  pub execute : BackgroundId → P.Job → P.World → P.World
  -- std's clock and the allocator's next block
  pub instant_now : P.World → ℕ × P.World
  pub fresh_block : P.World → Block × P.World

module _ {P : Types} (env : Env P) where
  -- `Loop::new`, once the two channels are registered with the poll.
  unfoldable pub new : P.Context → P.World → Loop P
  unfolding Recycler.new
  new context world =
      let (t, world') = env.instant_now world in
      record {
        active = false;
        context = context;
        error_handler = env.pass_through;
        events = Recycler.new;
        generation = 0;
        scheduled = [];
        timeouts = [];
        timeouts_dead = 0;
        timeouts_fired = 0;
        timeouts_inserted = 0;
        timeout_generation = 0;
        now = t;
        ios = Recycler.new;
        ios_released = [];
        want_idle = env.idle_new;
        threadpool = none;
        background_generation = 0;
        signal_recipients = λ _. [];
        signals_enabled = λ _. false;
        children = [];
        world = world';
      }

unfoldable pub error_handler_set : {P : Types} → P.Handler → Loop P → Loop P
error_handler_set handler l = record l { error_handler = handler }
