-- ===== src/Loop/Examples/Suite/Threads.antt =====
-- The tests `channel_hello` and `background` of src/core.rs.
use eveboros.Base.{
  ℕ, ◌+◌, ◌≡◌, refl, Bool, true, false, Option, none, some, ◌==◌, ltb, if◌then◌else◌,
}
use eveboros.Error.{Result, ok, err, background_panicked, iter_end, empty}
use eveboros.Any.{Ty, nominal, downcast}
use eveboros.Handle.{handle_eq, BackgroundId}
use eveboros.Message.{
  Message, DeliveryMode, background, get, channel_send, run_background, run_background_iter, get_by,
  answer, to_message,
}
use eveboros.Outcome.{returns, M, attempt, assert, ◌>>=◌, ◌>>◌}
use eveboros.Loop.Gather
use eveboros.Loop.Scope
use eveboros.Loop.{
  Types, Loop, Event, Callback, respond, ask, effect, abort, with_defaults, of_handle,
  of_background, handle, expect_message, background_submit,
}
use eveboros.Loop.Iface.{or_return}
use eveboros.Loop.Run.{loop_insert, loop_run, loop_run_until_complete}
use eveboros.Loop.Examples.{running}
use eveboros.Loop.Examples.Suite.Outside.{nothing, byte, Around, queue_up, around, passes, fresh}

record RemoteRecipient : Type 0 where

-- The type `RemoteHello`. Its value is the sender by which the event answers.
abbrev hello : Ty
hello = nominal 2

abbrev remote_recipient : Event (Around (Unit {0}) RemoteRecipient) RemoteRecipient
remote_recipient =
    record (with_defaults λ ev. ask (expect_message hello) λ _. respond ev (ok true)) {
      message = λ m ev.
          or_return ev
            (λ sender.
              effect (λ w. record w { answered = w.answered + sender })
                (λ _. respond ev (ok false)))
            (get hello m);
    }

channel_hello_test : M (Loop (Around (Unit {0}) RemoteRecipient)) (Unit {0})
channel_hello_test = do
  h ← loop_insert (around remote_recipient) 9 (record {})
  r ← (λ l.
      let (r, w) = channel_send queue_up h hello 1 l.world in returns r (record l { world = w }))
  assert (elim r [ ok _ ↦ true | err _ ↦ false ])
  loop_run_until_complete (around remote_recipient) 9 h
  (λ l. assert (l.world.answered == 1) l)

channel_hello_test_lem : passes (channel_hello_test (fresh remote_recipient tt)) ≡ true
unfolding running channel_hello_test or_return get get_by channel_send answer to_message
    Gather.take_channel Gather.take_messages Gather.take_message Gather.accept_by Gather.deliver
    downcast
channel_hello_test_lem = refl

record BackReceiver : Type 0 where
  answer : Option BackgroundId
  broken : Option BackgroundId
  iter : Option BackgroundId
  received : ℕ

abbrev Back : Types
Back = Around (Unit {0}) BackReceiver

-- `scope.background(..)?`
abbrev submit :
    ℕ → BackReceiver → (BackgroundId → Callback Back BackReceiver) → Callback Back BackReceiver
submit task ev k = ask handle λ r. elim r [
  | ok (of_handle h) ↦
      ask (background_submit (record { requestor = h; task = task }))
        λ r'. elim r' [ ok (of_background id) ↦ k id | err e ↦ respond ev (err e) | _ ↦ abort ]
  | _ ↦ abort
]

abbrev is_task : BackgroundId → Option BackgroundId → Bool
is_task id none = false
is_task id (some id') = id.number == id'.number

-- `Ok(self.received < 6)`
abbrev until_six : BackReceiver → Callback Back BackReceiver
until_six ev = respond ev (ok (ltb ev.received 6))

abbrev got_answer : BackReceiver → ℕ → Callback Back BackReceiver
got_answer ev value = if value == 42 then until_six (record ev { answer = none }) else abort

abbrev got_broken : BackReceiver → Result ℕ → Callback Back BackReceiver
got_broken ev (err background_panicked) = until_six (record ev { broken = none })
got_broken ev _ = abort

abbrev got_item : BackReceiver → Result ℕ → Callback Back BackReceiver
got_item ev (err iter_end) = until_six (record ev { iter = none })
got_item ev (err e) = respond ev (err e)
got_item ev (ok _) = until_six ev

abbrev got_background : BackReceiver → Message → DeliveryMode → Callback Back BackReceiver
got_background ev m (background id) =
    if is_task id ev.answer
    then or_return ev (got_answer ev) (get byte m)
    else if is_task id ev.broken
    then got_broken ev (get nothing m)
    else if is_task id ev.iter
    then got_item ev (get nothing m)
    else abort
got_background ev m _ = abort

abbrev back_receiver : Event Back BackReceiver
back_receiver =
    record (with_defaults λ ev. submit 0 ev λ broken. submit 1 ev λ answer. submit 2 ev λ iter.
      respond (record ev { broken = some broken; answer = some answer; iter = some iter })
        (ok true)) {
          message = λ m ev. got_background (record ev { received = ev.received + 1 }) m m.mode;
        }

abbrev unstarted : BackReceiver
unstarted = record { answer = none; broken = none; iter = none; received = 0 }

abbrev is_empty_error : Result (Unit {0}) → Bool
is_empty_error (err empty) = true
is_empty_error _ = false

background_test : M (Loop Back) (Unit {0})
background_test = do
  Scope.pool_thread_count_set (around back_receiver) 2
  loop_insert (around back_receiver) 9 unstarted
  loop_insert (around back_receiver) 9 unstarted
  loop_insert (around back_receiver) 9 unstarted
  r ← attempt (loop_run (around back_receiver) 40)
  assert (is_empty_error r)

background_test_lem : passes (background_test (fresh back_receiver tt)) ≡ true
unfolding running background_test or_return get get_by to_message downcast
    Scope.pool_thread_count_set Scope.background_submit run_background run_background_iter
background_test_lem = refl
