-- ===== src/Loop/Events/Insert.antt =====
-- What an insertion does before the event's `init` runs (src/core.rs, `insert_exact`).
use eveboros.Base.{ℕ, ◌==◌, nat_eq, suc, ◌≡◌, refl, true, none, some, arith, if◌then◌else◌}
use eveboros.Handle.{Handle, handle_eq, wrapping_suc}
use eveboros.Outcome.{returns, ◌>>=◌}
use eveboros.Recycler
use eveboros.Recycler.{Recycler, view}
use eveboros.Recycler.Invariant.{IsValid, store-Stored}
use eveboros.Loop.{Types, Loop, Env}
use eveboros.Loop.Timers.Alive.{alive_in-view}
use eveboros.Loop.Timers.{event_alive}
use eveboros.Loop.Events.{new_holder, store_event}

module _ {P : Types} (env : Env P) where
  -- An event can always be stored. The handle that is returned carries the loop's current generation,
  -- which is then increased, wrapping around; its slot was free, and now holds the event with no
  -- timeouts, IOs, expected messages and children, all other slots being as they were; a handle is
  -- alive afterwards exactly if it is the new one or was alive before, one more event is counted, and
  -- nothing is scheduled.
  pub store_event_lem :
      (ev : P.Ev) (l : Loop P)
      → IsValid l.events
      → (h : Handle) × (l' : Loop P) × (store_event env ev l ≡ returns h l')
        × (h.generation ≡ l.generation)
        × (l'.generation ≡ wrapping_suc l.generation)
        × (view l.events h.id ≡ none)
        × ((j : ℕ)
            → view l'.events j
              ≡ (if j == h.id then some (new_holder ev l.generation) else view l.events j))
        × ((k : Handle) → event_alive l' k ≡ (if handle_eq.beq k h then true else event_alive l k))
        × (Recycler.len l'.events ≡ suc (Recycler.len l.events))
        × IsValid l'.events
        × (l'.scheduled ≡ l.scheduled)
  unfolding store_event ◌>>=◌
  store_event_lem ev l v =
      let (idx, events, stored, st) =
        store-Stored (env.fresh_block l.world).0 l.events (new_holder ev l.generation) v in
      (
        record { id = idx; generation = l.generation },
        record l {
          generation = wrapping_suc l.generation;
          events = events;
          world = (env.fresh_block l.world).1;
        },
        ground (arith, stored),
        refl,
        refl,
        st.is_fresh,
        st.stored,
        λ k.
            ground (
              arith,
              alive_in-view events k,
              alive_in-view l.events k,
              st.stored k.id,
              st.is_fresh,
            ),
        st.counted,
        st.still_valid,
        refl,
      )
