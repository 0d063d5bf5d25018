-- ===== src/Loop/Gather/Channel.antt =====
-- From `Channel::send` in another thread to `Message::get` in the callback (src/core.rs).
use mathlib.Core.List.{append-nil, append_assoc}
use eveboros.Base.{
  ◌≡◌, ◌≢◌, refl, sym, ap, ◌∙◌, Bool, true, false, List, [], ◌∷◌, ◌++◌, map, arith, if◌then◌else◌,
}
use eveboros.Error.{Result, ok, err, msg_type}
use eveboros.Any.{Ty, Value, box}
use eveboros.Handle.{Handle}
use eveboros.Message.{
  remote, RemoteMessage, to_message, get, SendAnswer, sent, disconnected, send_io, answer,
  channel_send,
}
use eveboros.Message.Get.{get-direct, get-wrong_type}
use eveboros.Outcome.{returns}
use eveboros.Loop.{Types, Loop, Task, message}
use eveboros.Loop.Gather.{take_messages}
use eveboros.Loop.Gather.Messages.{expects, delivered, take_messages_lem}

-- A value that a thread sends to an event.
pub record Letter : Type 0 where
  pub to : Handle
  pub ty : Ty
  pub value : Value ty

abbrev pub remote_of : Letter → RemoteMessage
remote_of x = record {
  content = box x.ty x.value;
  real_type = x.ty;
  mode = remote;
  recipient = x.to;
}

abbrev pub is_sent : SendAnswer → Bool
is_sent sent = true
is_sent disconnected = false
is_sent (send_io e) = false

abbrev pub task_of : Letter → Task
task_of x = record { recipient = x.to; param = message (to_message (remote_of x)) }

-- `get` finds the value at its type, and no other type.
abbrev pub Reads : Letter → Type 0
Reads x =
    (get x.ty (to_message (remote_of x)) ≡ ok x.value)
    × ((t : Ty) → x.ty ≢ t → get t (to_message (remote_of x)) ≡ err msg_type)

abbrev pub All : (Letter → Type 0) → List Letter → Type 0
All R [] = Unit {0}
All R (x ∷ xs) = R x × All R xs

letter-Reads : (x : Letter) → Reads x
unfolding to_message
letter-Reads x = (
  get-direct x.ty x.value x.ty remote tt,
  λ t ne. get-wrong_type t (box x.ty x.value) x.ty remote ne,
)

All-Reads : (xs : List Letter) → All Reads xs
All-Reads [] = tt
All-Reads (x ∷ xs) = (letter-Reads x, All-Reads xs)

-- The queue behind the channel, as mio's sender fills it: what was accepted is at its end.
pub record Queue {Q : Type 0} (deliver : RemoteMessage → Q → SendAnswer × Q) : Type 0 where
  pub contents : Q → List RemoteMessage
  pub delivers :
      (m : RemoteMessage) (q : Q)
      → contents (deliver m q).1
        ≡ (if is_sent (deliver m q).0 then contents q ++ m ∷ [] else contents q)

module _ {Q : Type 0} (deliver : RemoteMessage → Q → SendAnswer × Q) where
  -- One after the other is sent; the letters for which `send` returned `Ok` come out, and the queue.
  abbrev pub is_ok : Result (Unit {0}) → Bool
  is_ok (ok _) = true
  is_ok (err _) = false

  abbrev pub send_all : List Letter → Q → List Letter × Q
  send_all [] q = ([], q)
  send_all (x ∷ xs) q =
      let (r, q') = channel_send deliver x.to x.ty x.value q in
      let (xs', q'') = send_all xs q' in (if is_ok r then x ∷ xs' else xs', q'')

  answer_ok : (a : SendAnswer) → is_ok (answer a) ≡ is_sent a
  unfolding answer
  answer_ok sent = refl
  answer_ok disconnected = refl
  answer_ok (send_io e) = refl

  sent-contents :
      (queue : Queue deliver) (xs : List Letter) (q : Q)
      → queue.contents (send_all xs q).1 ≡ queue.contents q ++ map remote_of (send_all xs q).0
  unfolding channel_send
  sent-contents queue [] q = sym (append-nil (queue.contents q))
  sent-contents queue (x ∷ xs) q =
      let m = remote_of x in
      let (a, q') = deliver m q in
      let rest = (send_all xs q').0 in
      ground (
        arith,
        sent-contents queue xs q',
        queue.delivers m q,
        answer_ok a,
        append_assoc (queue.contents q) (m ∷ []) (map remote_of rest),
      )

module _ {P : Types} where
  -- The letters that an event expects.
  abbrev pub expected : Loop P → List Letter → List Letter
  expected l [] = []
  expected l (x ∷ xs) = if expects l x.to x.ty then x ∷ expected l xs else expected l xs

  delivered-letters :
      (l : Loop P) (xs : List Letter) → delivered l (map remote_of xs) ≡ map task_of (expected l xs)
  delivered-letters l [] = refl
  delivered-letters l (x ∷ xs) = ground (arith, delivered-letters l xs)

  -- What threads send over a channel arrives: of the letters for which `send` returned `Ok`, in the
  -- order in which they were sent, exactly those that a living recipient expects are scheduled for it,
  -- and each is read as the value that was sent, at its type and at no other.
  pub send_all-take_messages :
      {Q : Type 0} (deliver : RemoteMessage → Q → SendAnswer × Q) (queue : Queue deliver)
      (xs : List Letter) (q : Q) (l : Loop P)
      → queue.contents q ≡ []
      → (take_messages (queue.contents (send_all deliver xs q).1) l
          ≡ returns tt (record l {
            scheduled = l.scheduled ++ map task_of (expected l (send_all deliver xs q).0);
          }))
        × All Reads (send_all deliver xs q).0
  send_all-take_messages deliver queue xs q l empty =
      let came = (send_all deliver xs q).0 in
      (
        take_messages_lem (queue.contents (send_all deliver xs q).1) l
            ∙ ap (λ ms. returns tt (record l { scheduled = l.scheduled ++ delivered l ms }))
                (sent-contents deliver queue xs q ∙ ap (λ u. u ++ map remote_of came) empty)
            ∙ ap (λ ts. returns tt (record l { scheduled = l.scheduled ++ ts }))
                (delivered-letters l came),
        All-Reads came,
      )
