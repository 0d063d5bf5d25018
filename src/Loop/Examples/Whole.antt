-- ===== src/Loop/Examples/Whole.antt =====
-- The theorems on whole loops (src/core.rs) at loops of the example program.
use eveboros.Base.{ℕ, ◌≡◌, ◌≢◌, refl, true, some, [], ◌∷◌, arith, lookup, member, nat_eq}
use eveboros.Handle.{Handle}
use eveboros.Outcome.{panic}
use eveboros.Recycler
use eveboros.Recycler.Invariant.{new-IsValid}
use eveboros.Loop.{Loop, Env, timeout, WaitStatus, status, still_alive}
use eveboros.Loop.Gather.{children_gather}
use eveboros.Loop.Owner.{perform_call_of, insert_exact, Reach, made, called, returned}
use eveboros.Loop.Run.{run_task, perform, loop_run_one}
use eveboros.Loop.Run.Next.{loop_run_one_lem}
use eveboros.Loop.Sound.{Sound, knows}
use eveboros.Loop.Sound.Reach.{Reach-Sound}
use eveboros.Loop.Sound.Children.{children_gather_safe}
use eveboros.Loop.Examples.{types, roomy, start, running, state_of}
use eveboros.Loop.Examples.Parts.{holder, one_event-IsValid, owner, stranger, busy_loop}

-- A loop after the insertion of an event that waits for a timeout.
abbrev waiting : Loop types
waiting = state_of (start roomy) (perform_call_of roomy 6 (insert_exact 2) (start roomy))

waiting-Reach : Reach roomy waiting
unfolding running perform_call_of
waiting-Reach = called 6 (insert_exact 2) (made 0 0) (returned tt refl)

waiting-Sound_example : Sound types waiting.events waiting.ios waiting.timeouts waiting.children
waiting-Sound_example = Reach-Sound roomy waiting waiting-Reach

-- The child of the event of `busy_loop` has exited.
abbrev reaping : Env types
reaping = record roomy {
  waits = λ w. (status (WaitStatus.exited 40 1) ∷ status still_alive ∷ [], w);
}

busy_tracked :
    (pid : ℕ) (h : Handle)
    → lookup pid busy_loop.children ≡ some h
    → knows (Recycler.view busy_loop.events h.id) pid ≡ true
unfolding lookup member
busy_tracked pid h known = ground (arith, known)

children_gather_example : children_gather reaping busy_loop ≢ panic
unfolding running
children_gather_example = children_gather_safe reaping busy_loop (record {
  events_valid = one_event-IsValid holder;
  ios_valid = new-IsValid;
  in_order = ((omega arith, (omega arith, tt)), ((omega arith, tt), (tt, tt)));
  tracked = busy_tracked;
})

-- A timeout for an event that is gone, and one for the event.
abbrev scheduled_loop : Loop types
scheduled_loop = record busy_loop {
  scheduled =
      record { recipient = stranger; param = timeout (record { number = 8 }) }
      ∷ record { recipient = owner; param = timeout (record { number = 5 }) }
      ∷ [];
}

loop_run_one_example :
    loop_run_one roomy 4 scheduled_loop
    ≡ run_task roomy (perform roomy 4) owner (timeout (record { number = 5 })) busy_loop
unfolding running
loop_run_one_example =
    loop_run_one_lem roomy 4
      (record { recipient = stranger; param = timeout (record { number = 8 }) } ∷ [])
      (record { recipient = owner; param = timeout (record { number = 5 }) }) [] scheduled_loop
      (omega arith) refl (refl, tt) refl
