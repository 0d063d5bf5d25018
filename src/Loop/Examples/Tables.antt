-- ===== src/Loop/Examples/Tables.antt =====
-- The theorems on what insertions, children and IOs change (src/core.rs) at small loops.
use eveboros.Base.{
  arith, ℕ, suc, ◌+◌, List, ◌≡◌, refl, true, none, some, [], ◌∷◌, ◌++◌, ◌==◌, if◌then◌else◌, lookup,
  member, remove, nat_eq, put,
}
use eveboros.Error.{io, interrupted, would_block}
use eveboros.Any.{box}
use eveboros.Handle.{Handle, handle_eq, token_shift, wrapping_suc}
use eveboros.Outcome.{returns, fails}
use eveboros.Recycler
use eveboros.Recycler.{Recycler, view}
use eveboros.Recycler.Invariant.{IsValid, new-IsValid}
use eveboros.Loop.{Loop, TimeoutHolder, Env, IoHolder, EvHolder, ChildExit, child}
use eveboros.Loop.Timers.{event_alive, timeout_at}
use eveboros.Loop.Timers.Heap.{IsSorted}
use eveboros.Loop.Timers.Cleanup.{Accounts}
use eveboros.Loop.Timers.Schedule.{timeout_at-Accounts}
use eveboros.Loop.Events.{store_event, new_holder}
use eveboros.Loop.Events.Insert.{store_event_lem}
use eveboros.Loop.Gather.{push_child}
use eveboros.Loop.Gather.Children.{push_child_lem}
use eveboros.Loop.Scope.{io_register_any}
use eveboros.Loop.Scope.Register.{io_register_any_refused}
use eveboros.Loop.Examples.{types, roomy, running, greeting, state_of}
use eveboros.Loop.Examples.Parts.{holder, one_event, one_event-IsValid, owner, busy_loop}

store_event_example :
    (h : Handle) × (l' : Loop types) × (store_event roomy 9 busy_loop ≡ returns h l')
    × (h.generation ≡ 4)
    × (l'.generation ≡ wrapping_suc 4)
    × (view busy_loop.events h.id ≡ none)
    × ((j : ℕ)
        → view l'.events j ≡ (if j == h.id then some (new_holder 9 4) else view busy_loop.events j))
    × ((k : Handle)
        → event_alive l' k ≡ (if handle_eq.beq k h then true else event_alive busy_loop k))
    × (Recycler.len l'.events ≡ suc (Recycler.len busy_loop.events))
    × IsValid l'.events
    × (l'.scheduled ≡ busy_loop.scheduled)
store_event_example = store_event_lem roomy 9 busy_loop (one_event-IsValid holder)

push_child_example :
    (l' : Loop types) × (push_child 40 (ChildExit.exited 1) busy_loop ≡ returns tt l')
    × (l'.scheduled
        ≡ busy_loop.scheduled
          ++ record { recipient = owner; param = child 40 (ChildExit.exited 1) } ∷ [])
    × ((p : ℕ) → lookup p l'.children ≡ (if p == 40 then none else lookup p busy_loop.children))
    × ((j : ℕ)
        → view l'.events j ≡ (
            if j == 0
            then some (record holder { children = remove 40 holder.children })
            else view busy_loop.events j))
push_child_example =
    push_child_lem 40 (ChildExit.exited 1) owner holder busy_loop (one_event-IsValid holder)
      (unfold lookup in refl) refl (unfold member in refl)

abbrev socket : IoHolder
socket = record { recipient = owner; io = box greeting 2 }

abbrev refusing : Env types
refusing = record roomy {
  register =
      λ io token interest opts w. (some (if token == 2 then would_block else interrupted), w);
}

refused_example :
    (idx : ℕ) × (l' : Loop types) × (view busy_loop.ios idx ≡ none)
    × (io_register_any refusing owner socket 1 0 busy_loop
        ≡ fails (io (if idx + token_shift == 2 then would_block else interrupted)) l')
    × ((j : ℕ) → view l'.ios j ≡ view busy_loop.ios j)
    × (l'.events ≡ busy_loop.events)
    × IsValid l'.ios
unfolding running
refused_example =
    io_register_any_refused refusing owner socket 1 0 busy_loop
      (λ token w. if token == 2 then would_block else interrupted) new-IsValid (λ token w. refl)

heap-IsSorted : IsSorted busy_loop.timeouts
heap-IsSorted = ((omega arith, (omega arith, tt)), ((omega arith, tt), (tt, tt)))

in_order : Accounts busy_loop
unfolding running
in_order = record { balance = refl; covered = omega arith }

timeout_at_example :
    (l' : Loop types) × (timeout_at owner 12 busy_loop ≡ returns (record { number = 0 }) l')
    × (before : List TimeoutHolder) × (after : List TimeoutHolder) × (busy_loop.timeouts
        ≡ before ++ after)
    × (l'.timeouts
        ≡ before ++ record { id = record { number = 0 }; recipient = owner; when = 12 } ∷ after)
    × (l'.timeouts_inserted ≡ busy_loop.timeouts_inserted + 1)
    × IsSorted l'.timeouts
    × Accounts l'
    × (view l'.events 0 ≡ some (record holder { timeouts = 3 }))
    × ((k : Handle) → event_alive l' k ≡ event_alive busy_loop k)
unfolding running
timeout_at_example =
    timeout_at-Accounts owner 12 holder busy_loop (one_event-IsValid holder) refl refl heap-IsSorted
      in_order

-- The event registers an IO inside a callback; after it, the event is back in its slot.
abbrev lent_loop : Loop types
lent_loop = record busy_loop {
  events = one_event (record holder { event = record { content = 2; stolen = true } });
}

abbrev registered : Loop types
registered = state_of lent_loop (io_register_any roomy owner socket 1 0 lent_loop)

abbrev watching : EvHolder ℕ
watching = record holder { ios = put 0 socket holder.ios }

abbrev given_back : Loop types
given_back = record registered { events = one_event watching }
