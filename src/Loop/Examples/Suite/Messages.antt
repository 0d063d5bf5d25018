-- ===== src/Loop/Examples/Suite/Messages.antt =====
-- The tests `send`, `post` and `busy_post` of src/core.rs.
use eveboros.Base.{ℕ, ◌≡◌, refl, true, false, Option, none, some, ◌==◌, if◌then◌else◌}
use eveboros.Error.{Result, ok}
use eveboros.Any.{Ty, nominal, ty_beq, box}
use eveboros.Handle.{Handle, handle_eq}
use eveboros.Message.{Message, get, get_by, squash}
use eveboros.Message
use eveboros.Outcome.{M, attempt, assert, ◌>>=◌, ◌>>◌}
use eveboros.Loop.{
  Loop, Env, Event, Callback, respond, ask, abort, with_defaults, Reply, of_handle, handle,
  expect_message,
}
use eveboros.Loop.Iface.{or_return, send, post}
use eveboros.Loop.Run.{loop_insert, loop_run_until_complete, loop_send_impl, loop_post_impl}
use eveboros.Loop.Examples.Suite.{
  Testing, env, passes, alive, is_missing, is_unexpected, is_busy, testing,
}

-- The types `()`, `Rc<Recurse>`, `SendB` and `i32`; `SendB(true)` is 1.
abbrev nothing : Ty
nothing = nominal 0

abbrev recurse : Ty
recurse = nominal 1

abbrev send_b : Ty
send_b = nominal 2

abbrev number : Ty
number = nominal 3

record Recipient : Type 0 where

module _ {E : Type 0} where
  -- The event got `SendB`.
  abbrev got_send_b : Recipient → Handle → Option Handle → ℕ → Callback (Testing E) Recipient
  got_send_b ev self' from value =
      if value == 1
      then send self' send_b 0
          (or_return ev (λ _. elim from [ none ↦ respond ev (ok true) | some h ↦ abort ]))
      else (elim from [
        | none ↦ abort
        | some h ↦ if handle_eq.beq self' h then respond ev (ok false) else abort
      ])

  abbrev got_mode :
      Recipient → Handle → Message → Message.DeliveryMode → Callback (Testing E) Recipient
  got_mode ev self' msg (Message.send from) =
      or_return ev (got_send_b ev self' from) (get send_b msg)
  got_mode ev self' msg _ = abort

  abbrev got : Recipient → Message → Result Reply → Callback (Testing E) Recipient
  got ev msg (ok (of_handle self')) =
      if ty_beq msg.real_type nothing
      then respond ev (ok false)
      else if ty_beq msg.real_type recurse
      then or_return ev (λ v. post self' recurse v (or_return ev (λ _. respond ev (ok true))))
          (get recurse msg)
      else if ty_beq msg.real_type send_b
      then got_mode ev self' msg msg.mode
      else abort
  got ev msg _ = abort

  abbrev recipient : Event (Testing E) Recipient
  recipient =
      record (with_defaults λ ev. ask (expect_message nothing) λ _.
        ask (expect_message recurse) λ _. ask (expect_message send_b) λ _. respond ev (ok true)) {
          message = λ msg ev. ask handle (got ev msg);
        }

abbrev at : Env (Testing Recipient)
at = env recipient

abbrev inserted : M (Loop (Testing Recipient)) Handle
inserted = loop_insert at 9 (record {})

send_test : M (Loop (Testing Recipient)) (Unit {0})
send_test = do
  h ← inserted
  r ← attempt (loop_send_impl at h (box number 42) number)
  assert (is_unexpected r)
  loop_send_impl at h (box send_b 1) send_b
  alive h true
  loop_run_until_complete at 9 h
  alive h false
  r ← attempt (loop_send_impl at h (box nothing 0) nothing)
  assert (is_missing r)
  h ← inserted
  loop_send_impl at h (box recurse 0) recurse
  r ← attempt (loop_run_until_complete at 9 h)
  assert (is_busy r)

post_test : M (Loop (Testing Recipient)) (Unit {0})
post_test = do
  h ← inserted
  alive h true
  r ← attempt (loop_post_impl at 9 h (box number 42) number)
  assert (is_unexpected r)
  loop_post_impl at 9 h (box nothing 0) nothing
  alive h false
  r ← attempt (loop_post_impl at 9 h (box nothing 0) nothing)
  assert (is_missing r)

busy_post_test : M (Loop (Testing Recipient)) (Unit {0})
busy_post_test = do
  h ← inserted
  alive h true
  r ← attempt (loop_post_impl at 9 h (box recurse 0) recurse)
  assert (is_busy r)
  alive h false

send_test_lem : passes recipient send_test ≡ true
unfolding testing send_test
send_test_lem = refl

post_test_lem : passes recipient post_test ≡ true
unfolding testing post_test
post_test_lem = refl

busy_post_test_lem : passes recipient busy_post_test ≡ true
unfolding testing busy_post_test
busy_post_test_lem = refl
