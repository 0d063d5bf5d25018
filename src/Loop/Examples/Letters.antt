-- ===== src/Loop/Examples/Letters.antt =====
-- A thread that sends through a channel to an event of a loop (`Channel::send` of src/core.rs).
use eveboros.Base.{◌≡◌, refl, List, [], ◌∷◌, ◌++◌, map, ltb, length, if◌then◌else◌, arith}
use eveboros.Any.{nominal}
use eveboros.Error.{would_block}
use eveboros.Message.{RemoteMessage, SendAnswer, sent, send_io, channel_send}
use eveboros.Outcome.{returns}
use eveboros.Loop.{new}
use eveboros.Loop.Gather.{take_messages}
use eveboros.Loop.Gather.Channel.{
  Letter, task_of, is_sent, Reads, All, Queue, send_all, expected, send_all-take_messages,
}
use eveboros.Loop.Examples.{greeting}
use eveboros.Loop.Examples.Parts.{owner, stranger, busy_loop}

-- A queue for three messages.
abbrev deliver_three : RemoteMessage → List RemoteMessage → SendAnswer × List RemoteMessage
deliver_three m q = if ltb (length q) 3 then (sent, q ++ m ∷ []) else (send_io would_block, q)

three_delivers :
    (m : RemoteMessage) (q : List RemoteMessage)
    → (deliver_three m q).1 ≡ (if is_sent (deliver_three m q).0 then q ++ m ∷ [] else q)
three_delivers m q = ground arith

abbrev three : Queue deliver_three
three = record { contents = λ q. q; delivers = three_delivers }

-- A greeting, one for an event that is gone, something unexpected, and one that finds the queue full.
abbrev letters : List Letter
letters =
    record { to = owner; ty = greeting; value = 1 }
    ∷ record { to = stranger; ty = greeting; value = 2 }
    ∷ record { to = owner; ty = nominal 9; value = 3 }
    ∷ record { to = owner; ty = greeting; value = 4 }
    ∷ []

send_all-take_messages_example :
    (take_messages (send_all deliver_three letters []).1 busy_loop
      ≡ returns tt (record busy_loop {
        scheduled = map task_of (expected busy_loop (send_all deliver_three letters []).0);
      }))
    × All Reads (send_all deliver_three letters []).0
unfolding new channel_send
send_all-take_messages_example =
    send_all-take_messages deliver_three three letters [] busy_loop refl
