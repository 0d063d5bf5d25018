-- ===== src/Loop/Sound.antt =====
-- The well-formedness of the loop's tables (src/core.rs), and that every operation keeps it.
pub mod Reach
pub mod Children
use eveboros.Base.{
  ℕ, suc, ◌+◌, ◌≡◌, ◌≢◌, refl, sym, ap, subst, ◌∙◌, Bool, true, false, not, ◌&&◌, ◌||◌, Option,
  none, some, List, [], ◌∷◌, arith, ◌==◌, if◌then◌else◌, Eq, nat_eq, lookup, without, put,
  contains_key, member, add, remove, lookup-without, lookup-put, member-add, member-remove, is_some,
}
use eveboros.Handle.{Handle}
use eveboros.Recycler
use eveboros.Recycler.{Block, Recycler, view}
use eveboros.Recycler.Invariant.{IsValid, Stored, Released, Updated}
use eveboros.Recycler.Inverse.{store-inv, release-inv, index_mut-inv}
use eveboros.StolenCell.{StolenCell}
use eveboros.Loop.{Types, Loop, EvHolder, TimeoutHolder}
use eveboros.Loop.Timers.{push_timeout, drop_dead, keep_alive, not_due}
use eveboros.Loop.Timers.Heap.{IsSorted, From, push_timeout_lem}
use eveboros.Loop.Events.{new_holder, set_event, forget_children}
use eveboros.Loop.Events.Kill.{lookup-forget_children}
use eveboros.Loop.Local.{Local, Tables, IsGentle, add_child, drop_child}

-- The holder is there, and knows of the child.
abbrev pub knows : {Ev : Type 0} → Option (EvHolder Ev) → ℕ → Bool
knows none pid = false
knows (some holder) pid = member pid holder.children

-- Both storages are consistent, the timeouts are in firing order, and every child that the loop tracks
-- belongs to an event that is there and knows of it.
pub record Sound (P : Types) (e : Recycler (EvHolder P.Ev)) (i : Recycler Handle)
    (t : List TimeoutHolder) (c : List (ℕ × Handle)) : Type 0 where
  pub events_valid : IsValid e
  pub ios_valid : IsValid i
  pub in_order : IsSorted t
  pub tracked : (pid : ℕ) (h : Handle) → lookup pid c ≡ some h → knows (view e h.id) pid ≡ true

From-keep :
    (alive : Handle → Bool) (n : ℕ) (ts : List TimeoutHolder)
    → From n ts
    → From n (keep_alive alive ts) × From n (drop_dead alive ts)
unfolding keep_alive drop_dead
From-keep alive n [] b = (tt, tt)
From-keep alive n (t ∷ ts) b = ground (arith, From-keep alive n ts b.1)

keep_alive-IsSorted :
    (alive : Handle → Bool) (ts : List TimeoutHolder) → IsSorted ts → IsSorted (keep_alive alive ts)
unfolding keep_alive
keep_alive-IsSorted alive [] s = tt
keep_alive-IsSorted alive (t ∷ ts) s =
    ground (arith, keep_alive-IsSorted alive ts s.1, (From-keep alive t.when ts s.0).0)

drop_dead-IsSorted :
    (alive : Handle → Bool) (ts : List TimeoutHolder) → IsSorted ts → IsSorted (drop_dead alive ts)
unfolding drop_dead
drop_dead-IsSorted alive [] s = tt
drop_dead-IsSorted alive (t ∷ ts) s = ground (arith, drop_dead-IsSorted alive ts s.1)

not_due-IsSorted : (now : ℕ) (ts : List TimeoutHolder) → IsSorted ts → IsSorted (not_due now ts)
unfolding not_due
not_due-IsSorted now [] s = tt
not_due-IsSorted now (t ∷ ts) s = ground (arith, not_due-IsSorted now ts s.1)

module _ {P : Types} {e e' : Recycler (EvHolder P.Ev)} {i : Recycler Handle}
    {t : List TimeoutHolder} {c : List (ℕ × Handle)} (s : Sound P e i t c) where
  -- A change of a holder that keeps its children.
  write-Sound :
      (j : ℕ) (f : EvHolder P.Ev → EvHolder P.Ev)
      → ((h : EvHolder P.Ev) → (f h).children ≡ h.children)
      → Recycler.index_mut e j f ≡ some e'
      → Sound P e' i t c
  write-Sound j f same w =
      let (x, there, u) = index_mut-inv e j f s.events_valid w in
      record {
        events_valid = u.still_valid;
        ios_valid = s.ios_valid;
        in_order = s.in_order;
        tracked =
            λ pid h known. ground (arith, u.updated h.id, there, same x, s.tracked pid h known);
      }

  store-Sound :
      (fresh : Block) (ev : P.Ev) (g : ℕ) {j : ℕ}
      → Recycler.store fresh e (new_holder ev g) ≡ some (j, e')
      → Sound P e' i t c
  store-Sound fresh ev g {j} w =
      let st = store-inv fresh e (new_holder ev g) s.events_valid w in
      record {
        events_valid = st.still_valid;
        ios_valid = s.ios_valid;
        in_order = s.in_order;
        tracked = λ pid h known. ground (arith, st.stored h.id, st.is_fresh, s.tracked pid h known);
      }

  kill-Sound :
      (j : ℕ) {holder : EvHolder P.Ev}
      → Recycler.release e j ≡ some (holder, e')
      → Sound P e' i t (forget_children holder.children c)
  kill-Sound j {holder} w =
      let (there, d) = release-inv e j s.events_valid w in
      record {
        events_valid = d.still_valid;
        ios_valid = s.ios_valid;
        in_order = s.in_order;
        tracked = λ pid h known. ground (
          arith,
          d.gone h.id,
          there,
          lookup-forget_children holder.children pid c,
          s.tracked pid h,
          known,
        );
      }

  adopt-Sound :
      (pid : ℕ) (h : Handle)
      → Recycler.index_mut e h.id (add_child pid) ≡ some e'
      → Sound P e' i t (put pid h c)
  adopt-Sound pid h w =
      let (x, there, u) = index_mut-inv e h.id (add_child pid) s.events_valid w in
      record {
        events_valid = u.still_valid;
        ios_valid = s.ios_valid;
        in_order = s.in_order;
        tracked = λ p k known. ground (
          arith,
          lookup-put pid p h c,
          known,
          u.updated k.id,
          there,
          member-add pid p x.children,
          s.tracked p k,
        );
      }

  orphan-Sound :
      (pid : ℕ) (h : Handle)
      → lookup pid c ≡ some h
      → Recycler.index_mut e h.id (drop_child pid) ≡ some e'
      → Sound P e' i t (without pid c)
  orphan-Sound pid h had w =
      let (x, there, u) = index_mut-inv e h.id (drop_child pid) s.events_valid w in
      record {
        events_valid = u.still_valid;
        ios_valid = s.ios_valid;
        in_order = s.in_order;
        tracked = λ p k known. ground (
          arith,
          lookup-without pid p c,
          known,
          u.updated k.id,
          there,
          member-remove pid p x.children,
          s.tracked p k,
        );
      }

module _ {P : Types} {e : Recycler (EvHolder P.Ev)} {i : Recycler Handle} {t : List TimeoutHolder}
    {c : List (ℕ × Handle)} (s : Sound P e i t c) where
  with_ios : {i' : Recycler Handle} → IsValid i' → Sound P e i' t c
  with_ios v = record {
    events_valid = s.events_valid;
    ios_valid = v;
    in_order = s.in_order;
    tracked = s.tracked;
  }

  with_timeouts : {t' : List TimeoutHolder} → IsSorted t' → Sound P e i t' c
  with_timeouts o = record {
    events_valid = s.events_valid;
    ios_valid = s.ios_valid;
    in_order = o;
    tracked = s.tracked;
  }

pub Sound-Local : (P : Types) → Local P (λ j. Unit {0}) (Sound P)
Sound-Local P = record {
  free = λ j g holder found free s. tt;
  store = λ fresh ev g w s. store-Sound s fresh ev g w;
  touch = λ j f gentle w s. write-Sound s j f (λ h. (gentle h).2) w;
  lend = λ j cell free w s. write-Sound s j (set_event cell) (λ h. refl) w;
  kill = λ j free w s. kill-Sound s j w;
  adopt = λ pid h new w s. adopt-Sound s pid h w;
  orphan = λ pid h had w s. orphan-Sound s pid h had w;
  io_store = λ fresh h w s. with_ios s (store-inv fresh _ h s.ios_valid w).still_valid;
  io_release = λ j w s. with_ios s ((release-inv _ j s.ios_valid w).1).still_valid;
  push = λ x {t = t} s. with_timeouts s ((push_timeout_lem x t s.in_order).0);
  drop = λ alive {t = t} s. with_timeouts s (drop_dead-IsSorted alive t s.in_order);
  keep = λ alive {t = t} s. with_timeouts s (keep_alive-IsSorted alive t s.in_order);
  later = λ n {t = t} s. with_timeouts s (not_due-IsSorted n t s.in_order);
}
