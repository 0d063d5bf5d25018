-- ===== src/Signals/Wakeup/Seen.antt =====
-- No wake-up of a loop by a signal is lost (src/signal_dispatch.rs and `tasks_gather_io` of
-- src/core.rs).
use eveboros.Base.{
  ℕ, zero, suc, ◌+◌, ◌-◌, ◌≤◌, ◌<◌, ◌≡◌, refl, ◌∙◌, Bool, true, false, Option, none, some, List, [],
  ◌∷◌, ◌++◌, ◌==◌, count, arith, leb, if◌then◌else◌, Bool-cases, inl, inr,
}
use eveboros.Signals.Wakeup.{
  Reader, away, scanning, Shared, write_flag, Step, mark, try_send, try_recv, swap_clear, swap_set,
  fail, finish, Steps, here, next, calm,
}

-- A flag that is set will be looked at: there is a wake-up, or one comes, or the loop has not passed
-- the flag yet.
abbrev pub is_seen : Shared → ℕ → Bool
is_seen p s = if p.wakeup then true else elim p.sending [
  | some signal ↦ true
  | none ↦ elim p.reader [ away ↦ false | scanning n ↦ leb n s ]
]

count-append :
    (s n : ℕ) (xs : List ℕ) → count s (xs ++ n ∷ []) ≡ count s xs + (if s == n then 1 else 0)
count-append s n [] = ground arith
count-append s n (x ∷ xs) = ground (arith, count-append s n xs)

-- The loop can go on to take the signal once more, without another signal.
abbrev pub Taken : ℕ → ℕ → Shared → Type 0
Taken sig_count s p =
    (q : Shared) × Steps sig_count p q × (q.raised ≡ p.raised) × (count s p.taken < count s q.taken)

module _ {sig_count : ℕ} where
  Step-is_seen :
      {p q : Shared}
      → Step sig_count p q
      → (s : ℕ) → s < sig_count
      → (p.failed ≡ false → p.flags s ≡ true → is_seen p s ≡ true)
      → q.failed ≡ false
      → q.flags s ≡ true
      → is_seen q s ≡ true
  Step-is_seen (mark signal free) s below old fine set = ground (arith, old fine)
  Step-is_seen (try_send signal e) s below old fine set = ground (arith, old fine)
  Step-is_seen (try_recv e w) s below old fine set = ground (arith, old fine)
  Step-is_seen (swap_clear n e lt clear) s below old fine set = ground (arith, old fine)
  Step-is_seen (swap_set n e lt is_set) s below old fine set = ground (arith, old fine)
  Step-is_seen (fail n e lt is_set) s below old fine set = absurd (ground (arith, fine))
  Step-is_seen (finish n e le) s below old fine set = ground (arith, old fine)

  Steps-is_seen :
      {p : Shared}
      → Steps sig_count calm p
      → (s : ℕ) → s < sig_count
      → p.failed ≡ false
      → p.flags s ≡ true
      → is_seen p s ≡ true
  Steps-is_seen here s below fine set = ground (arith, set)
  Steps-is_seen (next run step) s below fine set =
      Step-is_seen step s below (Steps-is_seen run s below) fine set

  unfoldable pub both :
      {p q r : Shared} → Steps sig_count p q → Steps sig_count q r → Steps sig_count p r
  both s here = s
  both s (next t step) = next (both s t) step

  -- The loop looks at the other flags, without an error.
  scan :
      (left n : ℕ) (p : Shared)
      → p.reader ≡ scanning n
      → left ≡ sig_count - n
      → (q : Shared) × Steps sig_count p q
        × (q.reader ≡ away)
        × (q.wakeup ≡ p.wakeup)
        × (q.raised ≡ p.raised)
        × ((s : ℕ)
            → q.flags s
              ≡ (if leb n s then (if leb sig_count s then p.flags s else false) else p.flags s))
        × ((s : ℕ)
            → count s q.taken
              ≡ count s p.taken
                + (if leb n s
                    then (if leb sig_count s then 0 else if p.flags s then 1 else 0)
                    else 0))
  scan zero n p e all = (
    _,
    next here (finish n e (omega (arith, all))),
    refl,
    refl,
    refl,
    λ s. ground (arith, all),
    λ s. ground (arith, all),
  )
  scan (suc left) n p e all = elim (Bool-cases (p.flags n)) [
    | inl is_set ↦
        let (q, run, back, same, quiet, flags, found) =
          scan left (suc n)
            (record p {
              flags = write_flag n false p.flags;
              reader = scanning (suc n);
              taken = p.taken ++ n ∷ [];
            })
            refl (omega (arith, all)) in
        (
          q,
          both (next here (swap_set n e (omega (arith, all)) is_set)) run,
          back,
          same,
          quiet,
          λ s. ground (arith, flags s, is_set, all),
          λ s. ground (arith, found s, count-append s n p.taken, is_set, all),
        )
    | inr clear ↦
        let (q, run, back, same, quiet, flags, found) =
          scan left (suc n) (record p { reader = scanning (suc n) }) refl (omega (arith, all)) in
        (
          q,
          both (next here (swap_clear n e (omega (arith, all)) clear)) run,
          back,
          same,
          quiet,
          λ s. ground (arith, flags s, clear, all),
          λ s. ground (arith, found s, clear, all),
        )
  ]

  away-Taken :
      (s : ℕ) (p : Shared)
      → s < sig_count
      → p.flags s ≡ true
      → p.wakeup ≡ true
      → p.reader ≡ away
      → Taken sig_count s p
  away-Taken s p below set woken e =
      let (q, run, back, same, quiet, flags, found) =
        scan sig_count 0 (record p { wakeup = false; reader = scanning 0 }) refl (omega arith) in
      (q, both (next here (try_recv e woken)) run, quiet, ground (arith, found s, set, below))

  woken-Taken :
      (s : ℕ) (p : Shared) (reader : Reader)
      → s < sig_count
      → p.flags s ≡ true
      → p.wakeup ≡ true
      → p.reader ≡ reader
      → Taken sig_count s p
  woken-Taken s p away below set woken e = away-Taken s p below set woken e
  woken-Taken s p (scanning n) below set woken e =
      let (q, run, back, same, quiet, flags, found) = scan (sig_count - n) n p e refl in
      elim (Bool-cases (leb n s)) [
        | inl ahead ↦ (q, run, quiet, ground (arith, found s, set, below, ahead))
        | inr passed ↦
            let (r, run', quiet', more) =
              away-Taken s q below (ground (arith, flags s, set, passed)) (same ∙ woken) back in
            (r, both run run', quiet' ∙ quiet, ground (arith, more, found s, passed))
      ]

  by_sender :
      (s : ℕ) (p : Shared) (sending : Option ℕ) (reader : Reader)
      → s < sig_count
      → p.flags s ≡ true
      → p.wakeup ≡ false
      → p.sending ≡ sending
      → p.reader ≡ reader
      → is_seen p s ≡ true
      → Taken sig_count s p
  by_sender s p (some signal) reader below set asleep sends e seen =
      let (q, run, quiet, more) =
        woken-Taken s (record p { wakeup = true; sending = none }) p.reader below set refl refl in
      (q, both (next here (try_send signal sends)) run, quiet, more)
  by_sender s p none away below set asleep sends e seen =
      absurd (ground (arith, asleep, sends, e, seen))
  by_sender s p none (scanning n) below set asleep sends e seen =
      let (q, run, back, same, quiet, flags, found) = scan (sig_count - n) n p e refl in
      (q, run, quiet, ground (arith, found s, set, below, asleep, sends, e, seen))

  -- No signal is lost. However handlers and the loop have run, as long as no error ended a look at the
  -- flags: a signal whose flag is set is found by the loop after some further steps of it and of the
  -- handler that is just sending, without another signal.
  pub flag-Taken :
      (p : Shared)
      → Steps sig_count calm p
      → p.failed ≡ false
      → (s : ℕ) → s < sig_count
      → p.flags s ≡ true
      → Taken sig_count s p
  flag-Taken p run fine s below set =
      let seen = Steps-is_seen run s below fine set in
      elim (Bool-cases p.wakeup) [
        | inl woken ↦ woken-Taken s p p.reader below set woken refl
        | inr asleep ↦ by_sender s p p.sending p.reader below set asleep refl refl seen
      ]

  -- The loop finds a signal at most as often as it came.
  pub taken_raised :
      {p : Shared}
      → Steps sig_count calm p
      → (s : ℕ) → count s p.taken + (if p.flags s then 1 else 0) ≤ count s p.raised
  taken_raised here s = omega arith
  taken_raised (next {q} run (mark signal free)) s =
      ground (arith, taken_raised run s, count-append s signal q.raised)
  taken_raised (next run (try_send signal e)) s = taken_raised run s
  taken_raised (next run (try_recv e w)) s = taken_raised run s
  taken_raised (next run (swap_clear n e lt clear)) s = taken_raised run s
  taken_raised (next {q} run (swap_set n e lt is_set)) s =
      ground (arith, taken_raised run s, count-append s n q.taken, is_set)
  taken_raised (next run (fail n e lt is_set)) s = ground (arith, taken_raised run s, is_set)
  taken_raised (next run (finish n e le)) s = taken_raised run s
