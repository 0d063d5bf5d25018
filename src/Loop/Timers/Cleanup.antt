-- ===== src/Loop/Timers/Cleanup.antt =====
-- The statistics on timeouts and the pruning of dead ones (src/core.rs, `timers_cleanup`).
use eveboros.Base.{
  ℕ, ◌+◌, ◌*◌, ◌≤◌, ◌≡◌, refl, Bool, true, false, ◌&&◌, List, [], ◌∷◌, ◌⊎◌, inl, arith, length, ltb,
  if◌then◌else◌,
}
use eveboros.Handle.{Handle}
use eveboros.Outcome.{returns, ◌>>=◌}
use eveboros.Loop.{Types, Loop, TimeoutHolder}
use eveboros.Loop.Timers.{keep_alive, event_alive, prune, timers_cleanup}

-- How many timeouts of the heap belong to living and to dead events.
abbrev pub living : (Handle → Bool) → List TimeoutHolder → ℕ
living alive [] = 0
living alive (t ∷ ts) = (if alive t.recipient then 1 else 0) + living alive ts

abbrev pub dead : (Handle → Bool) → List TimeoutHolder → ℕ
dead alive [] = 0
dead alive (t ∷ ts) = (if alive t.recipient then 0 else 1) + dead alive ts

length-living :
    (alive : Handle → Bool) (ts : List TimeoutHolder) → length ts ≡ living alive ts + dead alive ts
length-living alive [] = omega arith
length-living alive (t ∷ ts) = ground (arith, length-living alive ts)

living-keep_alive :
    (alive : Handle → Bool) (ts : List TimeoutHolder)
    → (living alive (keep_alive alive ts) ≡ living alive ts)
      × (dead alive (keep_alive alive ts) ≡ 0)
      × (length (keep_alive alive ts) ≡ living alive ts)
unfolding keep_alive
living-keep_alive alive [] = (refl, refl, refl)
living-keep_alive alive (t ∷ ts) = ground (arith, living-keep_alive alive ts)

-- Every timeout that was inserted since the last count still waits for a living event, or has fired, or
-- belonged to an event that died; and the dead ones in the heap are among the latter. This holds when
-- no timeout is scheduled and not yet run.
pub record Accounts {P : Types} (l : Loop P) : Type 0 where
  pub balance :
      l.timeouts_inserted ≡ living (event_alive l) l.timeouts + l.timeouts_fired + l.timeouts_dead
  pub covered : dead (event_alive l) l.timeouts ≤ l.timeouts_dead

-- What `timers_cleanup` leaves.
pub record Cleaned {P : Types} (l l' : Loop P) : Type 0 where
  pub accounts : Accounts l'
  pub exact : l'.timeouts_dead ≡ dead (event_alive l') l'.timeouts
  pub reset : l'.timeouts_fired ≡ 0
  pub kept : living (event_alive l') l'.timeouts ≡ living (event_alive l) l.timeouts
  pub bounded :
      (dead (event_alive l') l'.timeouts ≤ 5)
      ⊎ (dead (event_alive l') l'.timeouts ≤ 3 * living (event_alive l') l'.timeouts)

module _ {P : Types} (l : Loop P) where
  abbrev alive_now : ℕ
  alive_now = living (event_alive l) l.timeouts

  abbrev dead_now : ℕ
  dead_now = dead (event_alive l) l.timeouts

  -- The loop after the counters were set, before the pruning.
  abbrev counted : Loop P
  counted = record l {
    timeouts_dead = dead_now;
    timeouts_fired = 0;
    timeouts_inserted = length l.timeouts;
  }

  -- The loop after the pruning.
  abbrev pruned : Loop P
  pruned = record counted {
    timeouts = keep_alive (event_alive l) l.timeouts;
    timeouts_dead = 0;
    timeouts_inserted = length (keep_alive (event_alive l) l.timeouts);
  }

  choose-Cleaned :
      (many : Bool)
      → (ltb 5 dead_now && ltb (alive_now * 3) dead_now) ≡ many
      → Cleaned l (if many then pruned else counted)
  choose-Cleaned true e =
      let k = living-keep_alive (event_alive l) l.timeouts in
      record {
        accounts = record { balance = omega (arith, k); covered = omega (arith, k) };
        exact = omega (arith, k);
        reset = refl;
        kept = omega (arith, k);
        bounded = inl (omega (arith, k));
      }
  choose-Cleaned false e = record {
    accounts = record {
      balance = omega (arith, length-living (event_alive l) l.timeouts);
      covered = omega arith;
    };
    exact = refl;
    reset = refl;
    kept = refl;
    bounded = ground arith;
  }

  prune-Cleaned : Cleaned l (prune dead_now alive_now counted)
  unfolding prune
  prune-Cleaned = choose-Cleaned _ refl

  -- If the accounts of the timeouts are in order, `timers_cleanup` does not overflow. Afterwards the count
  -- of dead timeouts is the number of those in the heap, none counts as fired, no timeout of a living
  -- event is lost, the accounts are in order, and the heap holds at most five dead timeouts or at most
  -- three for each living one.
  pub timers_cleanup-Cleaned :
      Accounts l → (l' : Loop P) × (timers_cleanup l ≡ returns tt l') × Cleaned l l'
  unfolding timers_cleanup ◌>>=◌
  timers_cleanup-Cleaned a = (
    prune dead_now alive_now counted,
    ground (arith, a.balance, a.covered, length-living (event_alive l) l.timeouts),
    prune-Cleaned,
  )
