-- ===== src/Loop/Examples/Parts.antt =====
-- The theorems on the parts of the loop of src/core.rs at small loops.
use eveboros.Base.{
  ℕ, zero, suc, ◌≤◌, ◌≡◌, refl, true, false, Option, none, some, List, [], ◌∷◌, ◌++◌, map, arith,
  count, get_elem?,
}
use eveboros.Error.{missing}
use eveboros.Any.{nominal, box}
use eveboros.Handle.{Handle}
use eveboros.Message.{remote, background, RemoteMessage, to_message, send}
use eveboros.Outcome.{returns, fails}
use eveboros.Recycler.{Recycler}
use eveboros.Recycler.Slots.{vacant}
use eveboros.Recycler.Invariant.{IsValid}
use eveboros.Loop.{react, Loop, EvHolder, TimeoutHolder, message, timeout}
use eveboros.Loop.Timers.{event_alive, timers_cleanup, tasks_gather_timers, timeout_task}
use eveboros.Loop.Timers.Heap.{
  All, From, IsSorted, WakesBy, tasks_gather_timers_lem, timeout_min_wakes,
}
use eveboros.Loop.Timers.Cleanup.{Cleaned, timers_cleanup-Cleaned}
use eveboros.Loop.Events.{event_kill, event_call, send_impl_sender}
use eveboros.Loop.Events.Call.{event_call_cases}
use eveboros.Loop.Events.Kill.{Killed, event_kill-Killed}
use eveboros.Loop.Gather.{take_messages}
use eveboros.Loop.Gather.Messages.{send_impl_sender_lem, take_messages_lem}
use eveboros.Loop.Run.{perform}
use eveboros.Loop.Examples.{types, roomy, start, running, greeting}

-- An event that expects a greeting, watches an IO, waits for two timeouts and for a child.
abbrev pub holder : EvHolder ℕ
holder = record {
  event = record { content = 2; stolen = false };
  generation = 3;
  timeouts = 2;
  ios = (0, record { recipient = record { id = 0; generation = 3 }; io = box greeting 1 }) ∷ [];
  expected_messages = greeting ∷ [];
  children = 40 ∷ [];
}

abbrev pub one_event : EvHolder ℕ → Recycler (EvHolder ℕ)
one_event h = record { slots = some h ∷ []; free = []; block = record { buffer = 1; capacity = 8 } }

one_event-free :
    (h : EvHolder ℕ) (i : ℕ) → count i (one_event h).free ≡ vacant (get_elem? (one_event h).slots i)
one_event-free h zero = refl
one_event-free h (suc i) = refl

pub one_event-IsValid : (h : EvHolder ℕ) → IsValid (one_event h)
one_event-IsValid h = record { free_once = one_event-free h; free_size = refl }

abbrev pub owner : Handle
owner = record { id = 0; generation = 3 }

abbrev pub stranger : Handle
stranger = record { id = 0; generation = 2 }

abbrev timer : ℕ → Handle → TimeoutHolder
timer when h = record { id = record { number = when }; recipient = h; when = when }

-- A loop with this event, a timeout that is due, one of a dead event, and one to come.
abbrev pub busy_loop : Loop types
busy_loop = record (start roomy) {
  events = one_event holder;
  generation = 4;
  now = 10;
  timeouts = timer 5 owner ∷ timer 8 stranger ∷ timer 20 owner ∷ [];
  timeouts_inserted = 3;
  timeouts_dead = 1;
  children = (40, owner) ∷ [];
}

sorted : IsSorted busy_loop.timeouts
sorted = ((omega arith, (omega arith, tt)), ((omega arith, tt), (tt, tt)))

tasks_gather_timers_example :
    (fired kept : List TimeoutHolder) × (tasks_gather_timers busy_loop
      ≡ returns tt (record busy_loop { scheduled = map timeout_task fired; timeouts = kept }))
    × (fired ++ kept ≡ busy_loop.timeouts)
    × All (λ t. t.when ≤ 10) fired
    × From 11 kept
unfolding running
tasks_gather_timers_example = tasks_gather_timers_lem busy_loop sorted

abbrev wake_up : Option ℕ
wake_up = some 2

timeout_min_example :
    All
      (λ t. event_alive busy_loop t.recipient ≡ true → WakesBy wake_up 3 t.when)
      busy_loop.timeouts
    × (true ≡ false → wake_up ≡ some 0)
unfolding running
timeout_min_example =
    timeout_min_wakes roomy busy_loop (record busy_loop { world = 6 }) wake_up sorted refl

timers_cleanup_example :
    (l' : Loop types) × (timers_cleanup busy_loop ≡ returns tt l') × Cleaned busy_loop l'
unfolding running
timers_cleanup_example =
    timers_cleanup-Cleaned busy_loop (record { balance = refl; covered = omega arith })

event_kill_example :
    (l' : Loop types) × (event_kill roomy 0 busy_loop ≡ returns 2 l')
    × Killed roomy 0 holder busy_loop l'
event_kill_example =
    event_kill-Killed roomy 0 holder busy_loop (one_event-IsValid holder) refl refl (λ io w. refl)

event_call_example :
    event_call roomy
      (perform roomy 3)
      stranger
      (react roomy.event (timeout (record { number = 1 })))
      busy_loop
    ≡ fails missing busy_loop
unfolding running
event_call_example =
    event_call_cases roomy (perform roomy 3) stranger
      (react roomy.event (timeout (record { number = 1 }))) busy_loop

send_impl_sender_example :
    send_impl_sender none owner (box greeting 6) greeting busy_loop
    ≡ returns tt (record busy_loop {
      scheduled =
          record {
            recipient = owner;
            param =
                message
                  (record { content = box greeting 6; real_type = greeting; mode = send none });
          }
          ∷ [];
    })
unfolding running
send_impl_sender_example = send_impl_sender_lem none owner (box greeting 6) greeting busy_loop

-- A greeting for the event, one for an event that is gone, and the result of a background task.
abbrev arrived : List RemoteMessage
arrived =
    record { content = box greeting 1; real_type = greeting; mode = remote; recipient = owner }
    ∷ record { content = box greeting 2; real_type = greeting; mode = remote; recipient = stranger }
    ∷ record {
      content = box (nominal 3) 3;
      real_type = nominal 3;
      mode = background (record { number = 1 });
      recipient = owner;
    }
    ∷ []

take_messages_example :
    take_messages arrived busy_loop
    ≡ returns tt (record busy_loop {
      scheduled =
          record {
            recipient = owner;
            param =
                message (record { content = box greeting 1; real_type = greeting; mode = remote });
          }
          ∷ record {
            recipient = owner;
            param = message (record {
              content = box (nominal 3) 3;
              real_type = nominal 3;
              mode = background (record { number = 1 });
            });
          }
          ∷ [];
    })
unfolding running to_message
take_messages_example = take_messages_lem arrived busy_loop
