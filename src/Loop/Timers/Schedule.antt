-- ===== src/Loop/Timers/Schedule.antt =====
-- Scheduling a timeout (src/core.rs, `timeout_at`).
use eveboros.Base.{ℕ, suc, ◌+◌, ◌≡◌, refl, Bool, true, some, List, [], ◌∷◌, ◌++◌, arith}
use eveboros.Handle.{Handle, TimeoutId, wrapping_suc}
use eveboros.Outcome.{returns, ◌>>=◌}
use eveboros.Recycler.{view}
use eveboros.Recycler.Invariant.{IsValid, index_mut-Updated}
use eveboros.Loop.{Types, Loop, EvHolder, TimeoutHolder}
use eveboros.Loop.Timers.{alive_in, event_alive, push_timeout, timeout_at}
use eveboros.Loop.Timers.Alive.{alive_in-view}
use eveboros.Loop.Timers.Heap.{IsSorted, push_timeout_lem}
use eveboros.Loop.Timers.Cleanup.{Accounts, living, dead}

-- The counts depend on the answers of the test for liveness only.
living_cong :
    (f g : Handle → Bool) (ts : List TimeoutHolder)
    → ((h : Handle) → f h ≡ g h)
    → (living f ts ≡ living g ts) × (dead f ts ≡ dead g ts)
living_cong f g [] same = (refl, refl)
living_cong f g (t ∷ ts) same = ground (arith, same t.recipient, living_cong f g ts same)

living-push_timeout :
    (alive : Handle → Bool) (t : TimeoutHolder) (ts : List TimeoutHolder)
    → alive t.recipient ≡ true
    → (living alive (push_timeout t ts) ≡ suc (living alive ts))
      × (dead alive (push_timeout t ts) ≡ dead alive ts)
unfolding push_timeout
living-push_timeout alive t [] h = ground (arith, h)
living-push_timeout alive t (u ∷ us) h = ground (arith, h, living-push_timeout alive t us h)

module _ {P : Types} where
  -- A living event can always schedule a timeout. Exactly this timeout is put into the heap, for the
  -- event, at the given time and under the id that is returned; one insertion more is counted, the heap
  -- stays in firing order, the accounts of the timeouts stay in order, the event counts one timeout more,
  -- and what is alive does not change.
  pub timeout_at-Accounts :
      (h : Handle) (when : ℕ) (holder : EvHolder P.Ev) (l : Loop P)
      → IsValid l.events
      → view l.events h.id ≡ some holder
      → event_alive l h ≡ true
      → IsSorted l.timeouts
      → Accounts l
      → (l' : Loop P) × (timeout_at h when l
          ≡ returns (record { number = l.timeout_generation }) l')
        × (before : List TimeoutHolder) × (after : List TimeoutHolder) × (l.timeouts
            ≡ before ++ after)
        × (l'.timeouts
            ≡ before
              ++ record {
                id = record { number = l.timeout_generation };
                recipient = h;
                when = when;
              }
                ∷ after)
        × (l'.timeouts_inserted ≡ l.timeouts_inserted + 1)
        × IsSorted l'.timeouts
        × Accounts l'
        × (view l'.events h.id ≡ some (record holder { timeouts = holder.timeouts + 1 }))
        × ((k : Handle) → event_alive l' k ≡ event_alive l k)
  unfolding timeout_at ◌>>=◌
  timeout_at-Accounts h when holder l v there alive s a =
      let id : TimeoutId = record { number = l.timeout_generation } in
      let t : TimeoutHolder = record { id = id; recipient = h; when = when } in
      let (events, e, u) =
        index_mut-Updated l.events h.id (λ x. record x { timeouts = x.timeouts + 1 }) v there in
      let same : (k : Handle) → alive_in events k ≡ alive_in l.events k = λ k.
        ground (arith, alive_in-view events k, alive_in-view l.events k, u.updated k.id, there) in
      let (sorted, before, after, old, split) = push_timeout_lem t l.timeouts s in
      let p = living-push_timeout (event_alive l) t l.timeouts alive in
      let c = living_cong (alive_in events) (alive_in l.events) (push_timeout t l.timeouts) same in
      (
        record l {
          events = events;
          timeout_generation = wrapping_suc l.timeout_generation;
          timeouts_inserted = l.timeouts_inserted + 1;
          timeouts = push_timeout t l.timeouts;
        },
        ground (arith, e),
        before,
        after,
        old,
        split,
        refl,
        sorted,
        record {
          balance = omega (arith, a.balance, p, c);
          covered = omega (arith, a.covered, p, c);
        },
        ground (arith, u.updated h.id),
        same,
      )
