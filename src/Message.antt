-- ===== src/Message.antt =====
-- Messages of src/core.rs: what an event receives (`Message`), what travels between threads
-- (`RemoteMessage`, `Channel`), and what a background task sends back.
pub mod Examples
pub mod Get
pub mod Background
use eveboros.Base.{
  ℕ, Bool, true, false, Option, none, some, List, [], ◌∷◌, ◌++◌, map, if◌then◌else◌,
}
use eveboros.Error.{
  Error, IoError, Result, ok, err, io, msg_type, loop_gone, background_panicked, iter_end,
}
use eveboros.Any.{Ty, Value, Any, box, downcast, result}
use eveboros.Handle.{Handle, BackgroundId}

pub data DeliveryMode : Type 0 where
  post send : Option Handle → DeliveryMode
  background : BackgroundId → DeliveryMode
  remote : DeliveryMode

pub record Message : Type 0 where
  pub content : Any
  pub real_type : Ty
  pub mode : DeliveryMode

pub record RemoteMessage : Type 0 where
  pub content : Any
  pub real_type : Ty
  pub mode : DeliveryMode
  pub recipient : Handle

-- `map_err(|_| Error::MsgType)` on a downcast
unfoldable pub or_msg_type : {A : Type 0} → Option A → Result A
or_msg_type none = err msg_type
or_msg_type (some a) = ok a

-- The match on `proto`.
unfoldable pub squash : {A : Type 0} → Result (Result A) → Result A
squash (ok r) = r
squash (err e) = err e

unfoldable pub get_by : (t : Ty) → DeliveryMode → Any → Result (Value t)
unfolding or_msg_type squash
get_by t (background id) content = squash (or_msg_type (downcast (result t) content))
get_by t mode content = or_msg_type (downcast t content)

unfoldable pub get : (t : Ty) → Message → Result (Value t)
unfolding get_by
get t m = get_by t m.mode m.content

-- What the loop makes of a remote message.
unfoldable pub to_message : RemoteMessage → Message
to_message m = record { content = m.content; real_type = m.real_type; mode = m.mode }

-- The answers of mio's `Sender::send`.
pub data SendAnswer : Type 0 where
  sent disconnected : SendAnswer
  send_io : IoError → SendAnswer

unfoldable pub answer : SendAnswer → Result (Unit {0})
answer sent = ok tt
answer (send_io e) = err (io e)
answer disconnected = err loop_gone

-- `Channel::send`. The queue behind the sender belongs to mio: `deliver` is its `send`.
unfoldable pub channel_send :
    {Q : Type 0}
    → (RemoteMessage → Q → SendAnswer × Q)
    → Handle
    → (t : Ty) → Value t
    → Q
    → Result (Unit {0}) × Q
unfolding answer
channel_send deliver handle t v q =
    let (a, q') =
      deliver (record { content = box t v; real_type = t; mode = remote; recipient = handle }) q in
    (answer a, q')

-- `BackgroundWrapper`: `Drop` reports a task that did not get to its end.
pub record BackgroundWrapper : Type 0 where
  pub requestor : Handle
  pub id : BackgroundId
  pub complete : Bool

unfoldable pub drop_wrapper : Ty → BackgroundWrapper → List RemoteMessage
drop_wrapper t w =
    if w.complete
    then []
    else record {
      content = box (result t) (err background_panicked);
      real_type = result t;
      mode = background w.id;
      recipient = w.requestor;
    }
      ∷ []

-- How a user's closure ends: it returns, or it panics.
pub data Run (A : Type 0) : Type 0 where
  finished : A → Run A
  panicked : Run A

-- The messages that the thread sends when it runs a task submitted by `background`.
unfoldable pub run_background :
    Handle → (t : Ty) → BackgroundId → Run (Result (Value t)) → List RemoteMessage
unfolding drop_wrapper
run_background handle t id (finished r) =
    record { content = box (result t) r; real_type = t; mode = background id; recipient = handle }
    ∷ drop_wrapper t (record { requestor = handle; id = id; complete = true })
run_background handle t id panicked =
    drop_wrapper t (record { requestor = handle; id = id; complete = false })

unfoldable pub send_value : Handle → (t : Ty) → BackgroundId → Result (Value t) → RemoteMessage
send_value handle t id value = record {
  content = box (result t) value;
  real_type = t;
  mode = background id;
  recipient = handle;
}

-- An iterator: the items that it yields, and whether it then ends or panics.
pub record Items (A : Type 0) : Type 0 where
  pub items : List A
  pub ends : Bool

-- The messages of a task submitted by `background_iter`; a panic sends nothing further.
unfoldable pub run_background_iter :
    Handle → (t : Ty) → BackgroundId → Run (Result (Items (Value t))) → List RemoteMessage
unfolding send_value
run_background_iter handle t id (finished (ok iter)) =
    map (λ v. send_value handle t id (ok v)) iter.items
    ++ (if iter.ends then send_value handle t id (err iter_end) ∷ [] else [])
run_background_iter handle t id (finished (err e)) = send_value handle t id (err e) ∷ []
run_background_iter handle t id panicked = []
