-- ===== src/Loop/Timers.antt =====
-- The timers of the loop (src/core.rs): `timeout_at`, `timeout_min`, `timers_cleanup` and
-- `tasks_gather_timers`. An arithmetic overflow of `usize` panics, as in a debug build.
pub mod Heap
pub mod Cleanup
pub mod Alive
pub mod Schedule
use eveboros.Base.{
  ℕ, ◌+◌, ◌-◌, ◌*◌, Bool, true, false, ◌&&◌, not, Option, none, some, List, [], ◌∷◌, ◌++◌, length,
  map, ltb, leb, ◌==◌, if◌then◌else◌,
}
use eveboros.Handle.{Handle, TimeoutId, wrapping_suc}
use eveboros.Outcome.{Outcome, returns, panic, M, pure, unwrap, gets, modify, ◌>>=◌, ◌>>◌}
use eveboros.Recycler
use eveboros.Recycler.{Recycler}
use eveboros.Loop.{Types, Loop, Env, EvHolder, Task, TimeoutHolder, timeout}

module _ {Ev : Type 0} where
  abbrev generation_is : Option (EvHolder Ev) → ℕ → Bool
  generation_is none n = false
  generation_is (some holder) n = holder.generation == n

  -- The index is in use, by an event of the handle's generation.
  unfoldable pub alive_in : Recycler (EvHolder Ev) → Handle → Bool
  alive_in events handle =
      Recycler.valid events handle.id
      && generation_is (Recycler.index events handle.id) handle.generation

-- `BinaryHeap::push`: `TimeoutHolder` is ordered by its instant, the smallest on top.
unfoldable pub push_timeout : TimeoutHolder → List TimeoutHolder → List TimeoutHolder
push_timeout t [] = t ∷ []
push_timeout t (u ∷ us) = if ltb t.when u.when then t ∷ u ∷ us else u ∷ push_timeout t us

-- `while peek().map_or(false, dead) { pop(); }`
unfoldable pub drop_dead : (Handle → Bool) → List TimeoutHolder → List TimeoutHolder
drop_dead alive [] = []
drop_dead alive (t ∷ ts) =
    let rest = drop_dead alive ts in if not (alive t.recipient) then rest else t ∷ ts

-- `old.into_iter().filter(alive).collect()`
unfoldable pub keep_alive : (Handle → Bool) → List TimeoutHolder → List TimeoutHolder
keep_alive alive [] = []
keep_alive alive (t ∷ ts) =
    let rest = keep_alive alive ts in if alive t.recipient then t ∷ rest else rest

-- `while peek().map_or(false, |t| t.when <= now) { pop() … }`: the timeouts that are due, and the rest.
unfoldable pub due : ℕ → List TimeoutHolder → List TimeoutHolder
due now [] = []
due now (t ∷ ts) = let rest = due now ts in if leb t.when now then t ∷ rest else []

unfoldable pub not_due : ℕ → List TimeoutHolder → List TimeoutHolder
not_due now [] = []
not_due now (t ∷ ts) = let rest = not_due now ts in if leb t.when now then rest else t ∷ ts

abbrev pub timeout_task : TimeoutHolder → Task
timeout_task t = record { recipient = t.recipient; param = timeout t.id }

abbrev pub checked_sub : ℕ → ℕ → Option ℕ
checked_sub a b = if leb b a then some (a - b) else none

-- The wake-up time that the earliest timeout asks for.
abbrev pub time_left : ℕ → List TimeoutHolder → Option ℕ
time_left now [] = none
time_left now (t ∷ ts) = some (if ltb t.when now then 0 else t.when - now)

module _ {P : Types} where
  abbrev pub event_alive : Loop P → Handle → Bool
  event_alive l handle = alive_in l.events handle

  unfoldable pub timeout_at : Handle → ℕ → M (Loop P) TimeoutId
  unfolding push_timeout
  timeout_at handle when l =
      let id : TimeoutId = record { number = l.timeout_generation } in
      (do
        events ←
            unwrap
              (Recycler.index_mut l.events handle.id (λ h. record h { timeouts = h.timeouts + 1 }))
        modify (λ l. record l {
          events = events;
          timeout_generation = wrapping_suc l.timeout_generation;
          timeouts_inserted = l.timeouts_inserted + 1;
          timeouts = push_timeout (record { id = id; recipient = handle; when = when }) l.timeouts;
        })
        pure id)
        l

  unfoldable pub timeout_min : Env P → M (Loop P) (Option ℕ)
  unfolding drop_dead
  timeout_min env l =
      let l' = record l { timeouts = drop_dead (event_alive l) l.timeouts } in
      let (t, world) = env.instant_now l.world in
      if not (env.idle_is_empty l.want_idle)
      then returns (some 0) l'
      else returns (time_left t l'.timeouts) (record l' { world = world })

  -- The end of `timers_cleanup`: prune the heap if too much of it is dead.
  unfoldable pub prune : ℕ → ℕ → Loop P → Loop P
  unfolding keep_alive
  prune still_dead still_alive l =
      let pruned = keep_alive (event_alive l) l.timeouts in
      if ltb 5 still_dead && ltb (still_alive * 3) still_dead
      then record l { timeouts = pruned; timeouts_dead = 0; timeouts_inserted = length pruned }
      else l

  unfoldable pub timers_cleanup : M (Loop P) (Unit {0})
  unfolding prune
  timers_cleanup l =
      (do
        handled ← unwrap (checked_sub l.timeouts_inserted (length l.timeouts))
        handled_dead ← unwrap (checked_sub handled l.timeouts_fired)
        still_dead ← unwrap (checked_sub l.timeouts_dead handled_dead)
        still_alive ← unwrap (checked_sub (length l.timeouts) still_dead)
        modify (λ l. record l {
          timeouts_dead = still_dead;
          timeouts_fired = 0;
          timeouts_inserted = length l.timeouts;
        })
        modify (prune still_dead still_alive))
        l

  unfoldable pub tasks_gather_timers : M (Loop P) (Unit {0})
  unfolding due not_due
  tasks_gather_timers = modify λ l. record l {
    scheduled = l.scheduled ++ map timeout_task (due l.now l.timeouts);
    timeouts = not_due l.now l.timeouts;
  }
