-- ===== src/Message/Get.antt =====
-- Extracting the content of a message (src/core.rs, `Message::get`).
use eveboros.Base.{◌≡◌, ◌≢◌, refl}
use eveboros.Error.{Result, ok, err, msg_type}
use eveboros.Any.{Ty, Value, Any, box, downcast, downcast_self, downcast_ne, result}
use eveboros.Handle.{BackgroundId}
use eveboros.Message.{DeliveryMode, background, or_msg_type, squash, get_by, get}

-- The mode is that of a message that did not come from a background task.
abbrev pub IsDirect : DeliveryMode → Type 0
IsDirect (background id) = ⊥
IsDirect mode = Unit {0}

get_by-direct :
    (t : Ty) (mode : DeliveryMode) (content : Any)
    → IsDirect mode
    → get_by t mode content ≡ or_msg_type (downcast t content)
unfolding get_by
get_by-direct t (background id) content h = absurd h
get_by-direct t _ content h = refl

-- A message that was posted, sent or came through a channel gives its content at the type that was put
-- in.
pub get-direct :
    (t : Ty) (v : Value t) (real : Ty) (mode : DeliveryMode)
    → IsDirect mode
    → get t (record { content = box t v; real_type = real; mode = mode }) ≡ ok v
unfolding get
get-direct t v real mode h =
    rw (get_by-direct t mode (box t v) h, downcast_self t v) (unfold or_msg_type in refl)

-- A background message holds a `Result`: `get` gives that result, not nested, at the type that the
-- task produced.
pub get-background :
    (t : Ty) (r : Result (Value t)) (real : Ty) (id : BackgroundId)
    → get t (record { content = box (result t) r; real_type = real; mode = background id }) ≡ r
unfolding get get_by or_msg_type squash
get-background t r real id = rw (downcast_self (result t) r)

-- The type of the content that a message of a mode has when it stands for a value of the type `t`.
abbrev pub stored_type : DeliveryMode → Ty → Ty
stored_type (background id) t = result t
stored_type mode t = t

-- At every type other than the one that was put in, `get` fails with `MsgType`, in every mode.
pub get-wrong_type :
    (t : Ty) (content : Any) (real : Ty) (mode : DeliveryMode)
    → content.ty ≢ stored_type mode t
    → get t (record { content = content; real_type = real; mode = mode }) ≡ err msg_type
unfolding get get_by or_msg_type squash
get-wrong_type t content real (background id) ne = rw (downcast_ne (result t) content ne)
get-wrong_type t content real _ ne = rw (downcast_ne t content ne)
