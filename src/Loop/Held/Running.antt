-- ===== src/Loop/Held/Running.antt =====
-- A lent event stays lent, in its slot, until its own callback returns (src/core.rs, `event_call`).
use eveboros.Base.{ℕ, ◌≡◌, ◌≢◌, refl, subst, false, some, arith, nat_eq}
use eveboros.Handle.{Handle}
use eveboros.Outcome.Safe.{Safe}
use eveboros.Recycler
use eveboros.Recycler.{Recycler, view}
use eveboros.Recycler.Invariant.{index-view}
use eveboros.Loop.{Types, Loop, Env, EvHolder, Op}
use eveboros.Loop.Events.{found}
use eveboros.Loop.Run.{perform}
use eveboros.Loop.Keeps.{perform-Safe}
use eveboros.Loop.Local.{Local, Tables, On}
use eveboros.Loop.Local.Calls.{Local-Rules}
use eveboros.Loop.Held.{Held, store-Held, release-Held, write-Held, touch-Held}

-- An event that can be called is not the one that is lent out.
callable_ne :
    {Ev : Type 0} (idx g j gen : ℕ) (holder : EvHolder Ev) (events : Recycler (EvHolder Ev))
    → found (Recycler.index events j) gen ≡ some holder
    → holder.event.stolen ≡ false
    → Held idx g events
    → j ≢ idx
callable_ne idx g j gen holder events e free held same = ground (
  arith,
  index-view events j,
  held.there,
  held.locked,
  subst (λ k. view events j ≡ view events k) same refl,
)

module _ (P : Types) (idx g : ℕ) where
  abbrev HeldTables : Tables P
  HeldTables e i t c = Held idx g e

  Held-Local : Local P (λ j. j ≢ idx) HeldTables
  Held-Local = record {
    free = λ j gen holder {e} found free held. callable_ne idx g j gen holder e found free held;
    store = λ fresh ev gen e held. store-Held held fresh _ e;
    touch = λ j f gentle e held. touch-Held held j f (λ h. ((gentle h).0, (gentle h).1)) e;
    lend = λ j cell ne e held. write-Held held _ e ne;
    kill = λ j ne e held. release-Held held e ne;
    adopt = λ pid h new e held. touch-Held held h.id _ (λ x. (refl, refl)) e;
    orphan = λ pid h known e held. touch-Held held h.id _ (λ x. (refl, refl)) e;
    io_store = λ fresh h e held. held;
    io_release = λ j e held. held;
    push = λ x held. held;
    drop = λ alive held. held;
    keep = λ alive held. held;
    later = λ n held. held;
  }

module _ {P : Types} (env : Env P) (idx g : ℕ) where
  -- Whatever a callback asks of its scope, and whatever further callbacks that runs, nested to any
  -- depth and with any error handlers: a slot whose event is lent out still holds that event
  -- afterwards, with the same generation and still lent out, and the storage of the events is still
  -- consistent, whether the request returns or fails.
  pub perform-Held :
      (n : ℕ) (self' : Handle) (op : Op P) (l : Loop P)
      → Held idx g l.events
      → Safe (λ l'. Held idx g l'.events) (perform env n self' op l)
  perform-Held = perform-Safe env (On P (HeldTables P idx g)) (Local-Rules env (Held-Local P idx g))
