-- ===== src/Loop/Local.antt =====
-- The interface for invariants of the tables of the loop (src/core.rs): the events, the IOs, the heap of
-- timeouts and the children. `Local` lists what the operations do to these tables; a condition with these
-- rules is kept by every operation of the loop, by callbacks nested to any depth, and by the run loops.
pub mod Steps
pub mod Gathering
pub mod Calls
use eveboros.Base.{
  ℕ, ◌≡◌, Bool, true, false, Option, some, List, lookup, without, put, contains_key, member, add,
  remove, Eq, nat_eq,
}
use eveboros.Handle.{Handle}
use eveboros.Recycler
use eveboros.Recycler.{Block, Recycler}
use eveboros.StolenCell.{StolenCell}
use eveboros.Loop.{Types, Loop, EvHolder, TimeoutHolder}
use eveboros.Loop.Timers.{push_timeout, drop_dead, keep_alive, not_due}
use eveboros.Loop.Events.{new_holder, set_event, forget_children, found}

-- A condition on the events, the IOs, the timeouts and the children.
abbrev pub Tables : Types → Type 1
Tables P =
    Recycler (EvHolder P.Ev) → Recycler Handle → List TimeoutHolder → List (ℕ × Handle) → Type 0

abbrev pub On : (P : Types) → Tables P → Loop P → Type 0
On P Q l = Q l.events l.ios l.timeouts l.children

-- A change of a holder that leaves its event, its generation and its children alone.
abbrev pub IsGentle : {Ev : Type 0} → (EvHolder Ev → EvHolder Ev) → Type 0
IsGentle {Ev} f =
    (h : EvHolder Ev)
    → ((f h).event ≡ h.event) × ((f h).generation ≡ h.generation) × ((f h).children ≡ h.children)

abbrev pub add_child : {Ev : Type 0} → ℕ → EvHolder Ev → EvHolder Ev
add_child pid h = record h { children = add pid h.children }

abbrev pub drop_child : {Ev : Type 0} → ℕ → EvHolder Ev → EvHolder Ev
drop_child pid h = record h { children = remove pid h.children }

-- `Free j` is what is known of the slot of an event that may be called.
pub record Local (P : Types) (Free : ℕ → Type 0) (Q : Tables P) : Type 0 where
  pub free :
      (j g : ℕ) (holder : EvHolder P.Ev) {e : Recycler (EvHolder P.Ev)} {i : Recycler Handle}
      {t : List TimeoutHolder} {c : List (ℕ × Handle)}
      → found (Recycler.index e j) g ≡ some holder
      → holder.event.stolen ≡ false
      → Q e i t c
      → Free j
  pub store :
      (fresh : Block) (ev : P.Ev) (g : ℕ) {j : ℕ} {e e' : Recycler (EvHolder P.Ev)}
      {i : Recycler Handle} {t : List TimeoutHolder} {c : List (ℕ × Handle)}
      → Recycler.store fresh e (new_holder ev g) ≡ some (j, e')
      → Q e i t c
      → Q e' i t c
  pub touch :
      (j : ℕ) (f : EvHolder P.Ev → EvHolder P.Ev) {e e' : Recycler (EvHolder P.Ev)}
      {i : Recycler Handle} {t : List TimeoutHolder} {c : List (ℕ × Handle)}
      → IsGentle f
      → Recycler.index_mut e j f ≡ some e'
      → Q e i t c
      → Q e' i t c
  pub lend :
      (j : ℕ) (cell : StolenCell P.Ev) {e e' : Recycler (EvHolder P.Ev)} {i : Recycler Handle}
      {t : List TimeoutHolder} {c : List (ℕ × Handle)}
      → Free j
      → Recycler.index_mut e j (set_event cell) ≡ some e'
      → Q e i t c
      → Q e' i t c
  pub kill :
      (j : ℕ) {holder : EvHolder P.Ev} {e e' : Recycler (EvHolder P.Ev)} {i : Recycler Handle}
      {t : List TimeoutHolder} {c : List (ℕ × Handle)}
      → Free j
      → Recycler.release e j ≡ some (holder, e')
      → Q e i t c
      → Q e' i t (forget_children holder.children c)
  pub adopt :
      (pid : ℕ) (h : Handle) {e e' : Recycler (EvHolder P.Ev)} {i : Recycler Handle}
      {t : List TimeoutHolder} {c : List (ℕ × Handle)}
      → contains_key pid c ≡ false
      → Recycler.index_mut e h.id (add_child pid) ≡ some e'
      → Q e i t c
      → Q e' i t (put pid h c)
  pub orphan :
      (pid : ℕ) (h : Handle) {e e' : Recycler (EvHolder P.Ev)} {i : Recycler Handle}
      {t : List TimeoutHolder} {c : List (ℕ × Handle)}
      → lookup pid c ≡ some h
      → Recycler.index_mut e h.id (drop_child pid) ≡ some e'
      → Q e i t c
      → Q e' i t (without pid c)
  pub io_store :
      (fresh : Block) (h : Handle) {j : ℕ} {e : Recycler (EvHolder P.Ev)} {i i' : Recycler Handle}
      {t : List TimeoutHolder} {c : List (ℕ × Handle)}
      → Recycler.store fresh i h ≡ some (j, i')
      → Q e i t c
      → Q e i' t c
  pub io_release :
      (j : ℕ) {h : Handle} {e : Recycler (EvHolder P.Ev)} {i i' : Recycler Handle}
      {t : List TimeoutHolder} {c : List (ℕ × Handle)}
      → Recycler.release i j ≡ some (h, i')
      → Q e i t c
      → Q e i' t c
  pub push :
      (x : TimeoutHolder) {e : Recycler (EvHolder P.Ev)} {i : Recycler Handle}
      {t : List TimeoutHolder} {c : List (ℕ × Handle)}
      → Q e i t c
      → Q e i (push_timeout x t) c
  pub drop :
      (alive : Handle → Bool) {e : Recycler (EvHolder P.Ev)} {i : Recycler Handle}
      {t : List TimeoutHolder} {c : List (ℕ × Handle)}
      → Q e i t c
      → Q e i (drop_dead alive t) c
  pub keep :
      (alive : Handle → Bool) {e : Recycler (EvHolder P.Ev)} {i : Recycler Handle}
      {t : List TimeoutHolder} {c : List (ℕ × Handle)}
      → Q e i t c
      → Q e i (keep_alive alive t) c
  pub later :
      (n : ℕ) {e : Recycler (EvHolder P.Ev)} {i : Recycler Handle} {t : List TimeoutHolder}
      {c : List (ℕ × Handle)}
      → Q e i t c
      → Q e i (not_due n t) c
