-- ===== src/Loop/Timers/Heap.antt =====
-- The heap of timeouts (src/core.rs): in what order timeouts fire, and how long the loop may sleep.
use eveboros.Base.{
  ℕ, suc, ◌-◌, ◌≤◌, ◌≡◌, refl, sym, ap, subst, Bool-cases, inl, inr, Bool, true, false, Option,
  none, some, List, [], ◌∷◌, ◌++◌, map, arith, ltb, if◌then◌else◌,
}
use eveboros.Handle.{Handle}
use eveboros.Outcome.{returns}
use eveboros.Loop.{Types, Loop, Env, TimeoutHolder}
use eveboros.Loop.Timers.{
  push_timeout, drop_dead, due, not_due, timeout_task, time_left, event_alive, timeout_min,
  tasks_gather_timers,
}

abbrev pub All {ℓ} : (TimeoutHolder → Type ℓ) → List TimeoutHolder → Type ℓ
All P [] = Unit
All P (t ∷ ts) = P t × All P ts

-- Nothing in the list fires before the instant.
abbrev pub From : ℕ → List TimeoutHolder → Type 0
From n = All λ t. n ≤ t.when

abbrev pub IsSorted : List TimeoutHolder → Type 0
IsSorted [] = Unit
IsSorted (t ∷ ts) = From t.when ts × IsSorted ts

From-mono : {m n : ℕ} (ts : List TimeoutHolder) → m ≤ n → From n ts → From m ts
From-mono [] h b = tt
From-mono (t ∷ ts) h b = (omega arith, From-mono ts h b.1)

push_timeout-From :
    (n : ℕ) (t : TimeoutHolder) (ts : List TimeoutHolder)
    → n ≤ t.when
    → From n ts
    → From n (push_timeout t ts)
unfolding push_timeout
push_timeout-From n t [] h b = (h, tt)
push_timeout-From n t (u ∷ us) h b = ground (arith, push_timeout-From n t us h b.1)

push_timeout-IsSorted :
    (t : TimeoutHolder) (ts : List TimeoutHolder) → IsSorted ts → IsSorted (push_timeout t ts)
unfolding push_timeout
push_timeout-IsSorted t [] s = (tt, tt)
push_timeout-IsSorted t (u ∷ us) s = ground (
  arith,
  push_timeout-IsSorted t us s.1,
  push_timeout-From u.when t us,
  From-mono {m = t.when} {n = u.when} us,
)

push_timeout-split :
    (t : TimeoutHolder) (ts : List TimeoutHolder)
    → (before after : List TimeoutHolder) × (ts ≡ before ++ after)
      × (push_timeout t ts ≡ before ++ t ∷ after)
unfolding push_timeout
push_timeout-split t [] = ([], [], refl, refl)
push_timeout-split t (u ∷ us) = elim (Bool-cases (ltb t.when u.when)) [
  | inl e ↦ ([], u ∷ us, refl, ground arith)
  | inr e ↦
      let (before, after, old, new) = push_timeout-split t us in
      (u ∷ before, after, ap (λ x. u ∷ x) old, ground (arith, new))
]

-- Scheduling a timeout keeps the heap in firing order, and puts the timeout at one place among those that
-- were there, which stay, in their order.
pub push_timeout_lem :
    (t : TimeoutHolder) (ts : List TimeoutHolder)
    → IsSorted ts
    → IsSorted (push_timeout t ts)
      × (before after : List TimeoutHolder) × (ts ≡ before ++ after)
      × (push_timeout t ts ≡ before ++ t ∷ after)
push_timeout_lem t ts s =
    let (before, after, old, new) = push_timeout-split t ts in
    (push_timeout-IsSorted t ts s, before, after, old, new)

due-not_due : (now : ℕ) (ts : List TimeoutHolder) → due now ts ++ not_due now ts ≡ ts
unfolding due not_due
due-not_due now [] = refl
due-not_due now (t ∷ ts) = ground (arith, due-not_due now ts)

due-All : (now : ℕ) (ts : List TimeoutHolder) → All (λ t. t.when ≤ now) (due now ts)
unfolding due
due-All now [] = tt
due-All now (t ∷ ts) = ground (arith, due-All now ts)

not_due-From : (now : ℕ) (ts : List TimeoutHolder) → IsSorted ts → From (suc now) (not_due now ts)
unfolding not_due
not_due-From now [] s = tt
not_due-From now (t ∷ ts) s =
    ground (arith, not_due-From now ts s.1, From-mono {m = suc now} {n = t.when} ts)

-- From a heap in firing order, the timers that are gathered are exactly those whose instant has come, in
-- that order and behind what was scheduled already; those that stay lie in the future.
pub tasks_gather_timers_lem :
    {P : Types} (l : Loop P)
    → IsSorted l.timeouts
    → (fired kept : List TimeoutHolder) × (tasks_gather_timers l
        ≡ returns tt
            (record l { scheduled = l.scheduled ++ map timeout_task fired; timeouts = kept }))
      × (fired ++ kept ≡ l.timeouts)
      × All (λ t. t.when ≤ l.now) fired
      × From (suc l.now) kept
unfolding tasks_gather_timers
tasks_gather_timers_lem l s = (
  due l.now l.timeouts,
  not_due l.now l.timeouts,
  refl,
  due-not_due l.now l.timeouts,
  due-All l.now l.timeouts,
  not_due-From l.now l.timeouts s,
)

-- A time limit that does not make the poll sleep beyond an instant.
abbrev pub WakesBy : Option ℕ → ℕ → ℕ → Type 0
WakesBy none now when = ⊥
WakesBy (some d) now when = d ≤ when - now

wakes_after :
    (alive : Handle → Bool) (now first : ℕ) (ts : List TimeoutHolder)
    → From first ts
    → All
        (λ t.
          alive t.recipient ≡ true
          → WakesBy (some (if ltb first now then 0 else first - now)) now t.when)
        ts
wakes_after alive now first [] b = tt
wakes_after alive now first (t ∷ ts) b = (λ _. ground arith, wakes_after alive now first ts b.1)

-- Every living timeout is met by the wake-up time of a heap whose dead top is gone, `rest`.
abbrev AllWake : (Handle → Bool) → ℕ → Option ℕ → List TimeoutHolder → Type 0
AllWake alive now wakeup = All λ t. alive t.recipient ≡ true → WakesBy wakeup now t.when

drop_dead-alive :
    (alive : Handle → Bool) (t : TimeoutHolder) (ts : List TimeoutHolder)
    → alive t.recipient ≡ true
    → drop_dead alive (t ∷ ts) ≡ t ∷ ts
unfolding drop_dead
drop_dead-alive alive t ts e = ground arith

drop_dead-dead :
    (alive : Handle → Bool) (t : TimeoutHolder) (ts : List TimeoutHolder)
    → alive t.recipient ≡ false
    → drop_dead alive (t ∷ ts) ≡ drop_dead alive ts
unfolding drop_dead
drop_dead-dead alive t ts e = ground arith

limit_wakes :
    (alive : Handle → Bool) (now : ℕ) (ts : List TimeoutHolder)
    → IsSorted ts
    → AllWake alive now (time_left now (drop_dead alive ts)) ts
limit_wakes alive now [] s = tt
limit_wakes alive now (t ∷ ts) s = elim (Bool-cases (alive t.recipient)) [
  | inl e ↦
      subst (λ d. AllWake alive now (time_left now d) (t ∷ ts)) (sym (drop_dead-alive alive t ts e))
        ((λ _. ground arith), wakes_after alive now t.when ts s.0)
  | inr e ↦
      subst (λ d. AllWake alive now (time_left now d) (t ∷ ts)) (sym (drop_dead-dead alive t ts e))
        ((λ h. cc), limit_wakes alive now ts s.1)
]

All-zero :
    (alive : Handle → Bool) (now : ℕ) (ts : List TimeoutHolder)
    → All (λ t. alive t.recipient ≡ true → WakesBy (some 0) now t.when) ts
All-zero alive now [] = tt
All-zero alive now (t ∷ ts) = (λ _. omega arith, All-zero alive now ts)

-- From a heap in firing order, the loop never sleeps beyond a timeout of an event that is alive: where
-- there is one, the time limit of the poll is set and ends no later than that timeout, counted from the
-- instant that the code reads for it. While events wait for idle time the limit is zero.
pub timeout_min_wakes :
    {P : Types} (env : Env P) (l l' : Loop P) (wakeup : Option ℕ)
    → IsSorted l.timeouts
    → timeout_min env l ≡ returns wakeup l'
    → All
        (λ t. event_alive l t.recipient ≡ true → WakesBy wakeup (env.instant_now l.world).0 t.when)
        l.timeouts
      × (env.idle_is_empty l.want_idle ≡ false → wakeup ≡ some 0)
unfolding timeout_min
timeout_min_wakes env l l' wakeup s e = elim (Bool-cases (env.idle_is_empty l.want_idle)) [
  | inl none_idle ↦ (
    subst (λ w. AllWake (event_alive l) (env.instant_now l.world).0 w l.timeouts)
        {x = time_left (env.instant_now l.world).0 (drop_dead (event_alive l) l.timeouts)}
        (ground arith) (limit_wakes (event_alive l) (env.instant_now l.world).0 l.timeouts s),
    λ h. cc,
  )
  | inr some_idle ↦ (
    subst (λ w. AllWake (event_alive l) (env.instant_now l.world).0 w l.timeouts) {x = some 0}
        (ground arith) (All-zero (event_alive l) (env.instant_now l.world).0 l.timeouts),
    λ h. ground arith,
  )
]
