-- ===== src/Loop/Timers/Alive.antt =====
-- Liveness of handles (src/core.rs, `event_alive`), from what the slots hold.
use eveboros.Base.{ℕ, ◌≡◌, Bool, false, Option, none, some, arith, ◌==◌}
use eveboros.Handle.{Handle}
use eveboros.Recycler.{Recycler, view}
use eveboros.Recycler.Invariant.{index-view, valid-view}
use eveboros.Loop.{EvHolder}
use eveboros.Loop.Timers.{alive_in}

-- Whether a slot's content answers to a generation.
abbrev pub answers : {Ev : Type 0} → Option (EvHolder Ev) → ℕ → Bool
answers none g = false
answers (some holder) g = holder.generation == g

pub alive_in-view :
    {Ev : Type 0} (events : Recycler (EvHolder Ev)) (h : Handle)
    → alive_in events h ≡ answers (view events h.id) h.generation
unfolding alive_in
alive_in-view events h = ground (arith, valid-view events h.id, index-view events h.id)
