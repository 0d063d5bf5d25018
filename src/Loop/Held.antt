-- ===== src/Loop/Held.antt =====
-- The claim behind the unsafe code of `event_call` (src/core.rs): while an event is lent out to its
-- callback, its holder stays where it is, whatever the callback and the callbacks that it starts do.
-- This file has what each storage operation does to a lent holder; the theorem is in Held/Running.antt.
pub mod Running
use eveboros.Base.{
  ℕ, ◌≡◌, ◌≢◌, refl, sym, ap, subst, ◌∙◌, Bool, true, false, Option, none, some, List, arith, ◌==◌,
  ==_iff, if◌then◌else◌,
}
use native.Mathlib.Decide.{ℕ_discrete}
use eveboros.Recycler.{Block, Recycler, view, store, release, index_mut}
use eveboros.Recycler.Invariant.{IsValid, Stored, Released, Updated}
use eveboros.Recycler.Inverse.{store-inv, release-inv, index_mut-inv}
use eveboros.Loop.{EvHolder}

-- The slot `idx` holds an event of generation `g` that is lent out.
pub record Held {Ev : Type 0} (idx g : ℕ) (events : Recycler (EvHolder Ev)) : Type 0 where
  pub valid : IsValid events
  pub holder : EvHolder Ev
  pub there : view events idx ≡ some holder
  pub same : holder.generation ≡ g
  pub locked : holder.event.stolen ≡ true

-- A change of a holder that leaves its event and its generation alone.
abbrev pub IsGentle : {Ev : Type 0} → (EvHolder Ev → EvHolder Ev) → Type 0
IsGentle {Ev} f = (h : EvHolder Ev) → ((f h).event ≡ h.event) × ((f h).generation ≡ h.generation)

module _ {Ev : Type 0} {idx g : ℕ} {events : Recycler (EvHolder Ev)}
    (held : Held idx g events) where
  pub store-Held :
      (fresh : Block) (x : EvHolder Ev) {j : ℕ} {events' : Recycler (EvHolder Ev)}
      → store fresh events x ≡ some (j, events')
      → Held idx g events'
  store-Held fresh x {j} {events'} e =
      let st = store-inv fresh events x held.valid e in
      record {
        valid = st.still_valid;
        holder = held.holder;
        there = ground (arith, held.there, st.is_fresh, st.stored idx);
        same = held.same;
        locked = held.locked;
      }

  pub release-Held :
      {j : ℕ} {x : EvHolder Ev} {events' : Recycler (EvHolder Ev)}
      → release events j ≡ some (x, events')
      → j ≢ idx
      → Held idx g events'
  release-Held {j} {x} {events'} e ne =
      let (_, d) = release-inv events j held.valid e in
      record {
        valid = d.still_valid;
        holder = held.holder;
        there = ground (arith, held.there, d.gone idx);
        same = held.same;
        locked = held.locked;
      }

  -- A write to another slot.
  pub write-Held :
      {j : ℕ} (f : EvHolder Ev → EvHolder Ev) {events' : Recycler (EvHolder Ev)}
      → index_mut events j f ≡ some events'
      → j ≢ idx
      → Held idx g events'
  write-Held {j} f {events'} e ne =
      let (x, _, u) = index_mut-inv events j f held.valid e in
      record {
        valid = u.still_valid;
        holder = held.holder;
        there = ground (arith, held.there, u.updated idx);
        same = held.same;
        locked = held.locked;
      }

  -- A gentle write to the slot itself.
  touch_self :
      (f : EvHolder Ev → EvHolder Ev) {events' : Recycler (EvHolder Ev)}
      → IsGentle f
      → index_mut events idx f ≡ some events'
      → Held idx g events'
  touch_self f {events'} gentle e =
      let (x, there, u) = index_mut-inv events idx f held.valid e in
      record {
        valid = u.still_valid;
        holder = f x;
        there = ground (arith, u.updated idx);
        same = ground (arith, held.there, held.same, gentle x);
        locked = ground (arith, held.there, held.locked, gentle x);
      }

  -- A gentle write to any slot.
  pub touch-Held :
      (j : ℕ) (f : EvHolder Ev → EvHolder Ev) {events' : Recycler (EvHolder Ev)}
      → IsGentle f
      → index_mut events j f ≡ some events'
      → Held idx g events'
  touch-Held j f {events'} gentle e = elim (ℕ_discrete j idx) [
    | yes p ↦ touch_self f gentle (subst (λ k. index_mut events k f ≡ some events') p e)
    | no ne ↦ write-Held f e ne
  ]
