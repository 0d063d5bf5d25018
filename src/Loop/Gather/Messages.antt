-- ===== src/Loop/Gather/Messages.antt =====
-- Which messages reach an event (src/core.rs): `msg_type_check`, `send_impl_sender` and the channel part
-- of `tasks_gather_io`.
use eveboros.Base.{
  ◌≡◌, refl, sym, ap, ◌∙◌, Bool, true, false, ◌&&◌, Option, none, some, List, [], ◌∷◌, ◌++◌, arith,
  if◌then◌else◌, member,
}
use mathlib.Core.List.{append-nil, append_assoc}
use eveboros.Error.{missing, msg_unexpected}
use eveboros.Any.{Any, Ty, ty_eq}
use eveboros.Handle.{Handle}
use eveboros.Message.{DeliveryMode, send, background, RemoteMessage, to_message}
use eveboros.Outcome.{returns, fails, attempt, ◌>>=◌}
use eveboros.Recycler.{view}
use eveboros.Recycler.Invariant.{index-view, valid-view}
use eveboros.Loop.{Types, Loop, EvHolder, Task, message}
use eveboros.Loop.Timers.{alive_in, event_alive}
use eveboros.Loop.Events.{msg_type_check, send_impl_sender}
use eveboros.Loop.Gather.{accept_by, deliver, take_message, take_messages}

-- The event is there, in the handle's generation, and declared the type.
abbrev expected_by : {Ev : Type 0} → Option (EvHolder Ev) → Ty → Bool
expected_by none tp = false
expected_by (some holder) tp = member tp holder.expected_messages

abbrev pub is_background : DeliveryMode → Bool
is_background (background id) = true
is_background mode = false

module _ {P : Types} where
  abbrev pub expects : Loop P → Handle → Ty → Bool
  expects l h tp = event_alive l h && expected_by (view l.events h.id) tp

  msg_type_check_lem :
      (h : Handle) (tp : Ty) (l : Loop P)
      → msg_type_check h tp l ≡ (
          if event_alive l h
          then (if expects l h tp then returns tt l else fails msg_unexpected l)
          else fails missing l)
  unfolding msg_type_check alive_in
  msg_type_check_lem h tp l = ground (arith, valid-view l.events h.id, index-view l.events h.id)

  -- Sending to an event that is not alive fails with `Missing`, and to one that did not declare the type
  -- with `MsgUnexpected`, and nothing changes; otherwise exactly one task is added, at the end of the
  -- queue, with the content, its type and its sender.
  pub send_impl_sender_lem :
      (from : Option Handle) (h : Handle) (content : Any) (tp : Ty) (l : Loop P)
      → send_impl_sender from h content tp l ≡ (
          if event_alive l h
          then (if expects l h tp
              then returns tt (record l {
                scheduled =
                    l.scheduled
                    ++ record {
                      recipient = h;
                      param =
                          message (record { content = content; real_type = tp; mode = send from });
                    }
                      ∷ [];
              })
              else fails msg_unexpected l)
          else fails missing l)
  unfolding send_impl_sender ◌>>=◌
  send_impl_sender_lem from h content tp l = ground (arith, msg_type_check_lem h tp l)

  -- A remote message is let in: it is the result of a background task, or its recipient expects it.
  abbrev pub let_in : Loop P → RemoteMessage → Bool
  let_in l m = if is_background m.mode then true else expects l m.recipient m.real_type

  abbrev pub delivered : Loop P → List RemoteMessage → List Task
  delivered l [] = []
  delivered l (m ∷ ms) =
      if let_in l m
      then record { recipient = m.recipient; param = message (to_message m) } ∷ delivered l ms
      else delivered l ms

  accept_by_lem :
      (mode : DeliveryMode) (m : RemoteMessage) (l : Loop P)
      → accept_by mode m l
        ≡ returns (if is_background mode then true else expects l m.recipient m.real_type) l
  unfolding accept_by attempt ◌>>=◌
  accept_by_lem (background id) m l = refl
  accept_by_lem _ m l = ground (arith, msg_type_check_lem m.recipient m.real_type l)

  take_message_lem :
      (m : RemoteMessage) (l : Loop P)
      → take_message m l ≡ returns tt (record l { scheduled = l.scheduled ++ delivered l (m ∷ []) })
  unfolding take_message deliver ◌>>=◌
  take_message_lem m l = ground (arith, accept_by_lem m.mode m l, append-nil l.scheduled)

  delivered-scheduled :
      (l : Loop P) (ts : List Task) (ms : List RemoteMessage)
      → delivered (record l { scheduled = ts }) ms ≡ delivered l ms
  delivered-scheduled l ts [] = refl
  delivered-scheduled l ts (m ∷ ms) = ground (arith, delivered-scheduled l ts ms)

  delivered-cons :
      (l : Loop P) (m : RemoteMessage) (ms : List RemoteMessage)
      → delivered l (m ∷ []) ++ delivered l ms ≡ delivered l (m ∷ ms)
  delivered-cons l m ms = ground arith

  delivered-rest :
      (l : Loop P) (m : RemoteMessage) (ms : List RemoteMessage)
      → (l.scheduled ++ delivered l (m ∷ []))
          ++ delivered (record l { scheduled = l.scheduled ++ delivered l (m ∷ []) }) ms
        ≡ l.scheduled ++ delivered l (m ∷ ms)
  delivered-rest l m ms =
      append_assoc l.scheduled (delivered l (m ∷ [])) _
      ∙ ap (λ ts. l.scheduled ++ (delivered l (m ∷ []) ++ ts))
          (delivered-scheduled l (l.scheduled ++ delivered l (m ∷ [])) ms)
      ∙ ap (λ ts. l.scheduled ++ ts) (delivered-cons l m ms)

  -- Of the messages that came through the channel, exactly those are scheduled, in their order and behind
  -- what was scheduled, that are results of background tasks or of a type that their living recipient
  -- expects; the others are dropped without an error, and nothing else changes.
  pub take_messages_lem :
      (ms : List RemoteMessage) (l : Loop P)
      → take_messages ms l ≡ returns tt (record l { scheduled = l.scheduled ++ delivered l ms })
  unfolding take_messages ◌>>=◌
  take_messages_lem [] l =
      ap (λ s. returns tt (record l { scheduled = s })) (sym (append-nil l.scheduled))
  take_messages_lem (m ∷ ms) l =
      let l₁ : Loop P = record l { scheduled = l.scheduled ++ delivered l (m ∷ []) } in
      rw (take_message_lem m l) (
        take_messages_lem ms l₁
        ∙ ap (λ s. returns tt (record l { scheduled = s })) (delivered-rest l m ms))
