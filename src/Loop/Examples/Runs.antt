-- ===== src/Loop/Examples/Runs.antt =====
-- The theorems on running the loop of src/core.rs at runs of the example program.
use eveboros.Base.{arith, ℕ, zero, suc, ◌≡◌, refl, true, false, some, [], ◌∷◌, count, get_elem?}
use eveboros.Error.{ok}
use eveboros.Handle.{Handle}
use eveboros.Outcome.{returns, panic}
use eveboros.Outcome.Safe.{Safe}
use eveboros.Recycler.Slots.{vacant}
use eveboros.Recycler.Invariant.{IsValid}
use eveboros.StolenCell.{StolenData}
use eveboros.Loop.{Loop, EvHolder, insert_exact}
use eveboros.Loop.Timers.{event_alive}
use eveboros.Loop.Events.{event_call, unsteal_event, run_script}
use eveboros.Loop.Events.Moves.{event_call_outgrown}
use eveboros.Loop.Events.Call.{callback_returns}
use eveboros.Loop.Gather.{tasks_gather}
use eveboros.Loop.Scope.{io_remove}
use eveboros.Loop.Scope.Ios.{tasks_gather-io_remove}
use eveboros.Loop.Held.{Held}
use eveboros.Loop.Held.Running.{perform-Held}
use eveboros.Loop.Run.{perform, loop_insert, loop_run_until_complete}
use eveboros.Loop.Run.Progress.{loop_run_until_complete-Gone}
use eveboros.Loop.Examples.{types, env_of, roomy, start, running, state_of}
use eveboros.Loop.Examples.Parts.{holder, one_event, one_event-IsValid, owner, busy_loop}

-- The event inside a callback.
abbrev lent : EvHolder ℕ
lent = record holder { event = record { content = 2; stolen = true } }

abbrev lent_loop : Loop types
lent_loop = record busy_loop { events = one_event lent }

lent-Held : Held 0 3 (one_event lent)
lent-Held = record {
  valid = one_event-IsValid lent;
  holder = lent;
  there = refl;
  same = refl;
  locked = refl;
}

-- The callback inserts another event.
perform-Held_example :
    Safe (λ l'. Held 0 3 l'.events) (perform roomy 4 owner (insert_exact 2) lent_loop)
perform-Held_example = perform-Held roomy 0 3 4 owner (insert_exact 2) lent_loop lent-Held

-- The event of `busy_loop` is inside a callback that asks for a timeout and for greetings.
abbrev lent_data : StolenData ℕ
lent_data = record { pointer = (1, 0); pointee = 2 }

abbrev responded : Loop types
responded = state_of lent_loop (run_script (perform roomy 4 owner) (roomy.event.init 2) lent_loop)

callback_returns_example : (l : Loop types) × (unsteal_event 0 lent_data responded ≡ returns tt l)
unfolding running
callback_returns_example =
    callback_returns roomy 4 owner holder roomy.event.init busy_loop lent_loop responded lent_data 2
      (ok true) (one_event-IsValid holder) refl refl refl refl refl

-- An event that inserts another one while the storage is full.
abbrev inserter : EvHolder ℕ
inserter = record holder { event = record { content = 1; stolen = false } }

abbrev full_loop : Loop types
full_loop = record busy_loop {
  events = record (one_event inserter) { block = record { buffer = 1; capacity = 1 } };
  world = 6;
}

full-IsValid : IsValid full_loop.events
full-IsValid = record {
  free_once = (one_event-IsValid inserter).free_once;
  free_size = (one_event-IsValid inserter).free_size;
}

event_call_outgrown_example :
    event_call (env_of 4 []) (perform (env_of 4 []) 5) owner (env_of 4 []).event.init full_loop
    ≡ panic
unfolding running
event_call_outgrown_example =
    event_call_outgrown (env_of 4 []) 4 owner inserter (env_of 4 []).event.init 0 1 (ok true)
      full_loop full-IsValid refl refl refl refl refl (λ e. omega (arith, e)) refl refl

abbrev first : Handle
first = record { id = 0; generation = 0 }

-- Loops with one event: one that waits for a timeout, one that watches an IO.
abbrev with_event : ℕ → Loop types
with_event ev = state_of (start roomy) (loop_insert roomy 6 ev (start roomy))

abbrev waited : Loop types
waited = state_of (start roomy) (loop_run_until_complete roomy 8 first (with_event 2))

run_until_complete_example : event_alive waited first ≡ false
unfolding running
run_until_complete_example = loop_run_until_complete-Gone roomy 8 first (with_event 2) waited refl

abbrev unwatched : Loop types
unwatched = state_of (start roomy) (io_remove roomy first (record { token = 2 }) (with_event 4))

watched-free : (i : ℕ) → count i [] ≡ vacant (get_elem? (some first ∷ []) i)
watched-free zero = refl
watched-free (suc i) = refl

io_remove_example : tasks_gather roomy unwatched ≡ panic
unfolding running
io_remove_example =
    tasks_gather-io_remove roomy first (record { token = 2 }) (with_event 4) unwatched unwatched
      (record { free_once = watched-free; free_size = refl }) refl refl refl refl
