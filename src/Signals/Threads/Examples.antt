-- ===== src/Signals/Threads/Examples.antt =====
-- Threads around the table of signals of src/signal_dispatch.rs: two signals are registered for, and
-- one arrives.
use eveboros.Base.{
  ℕ, ◌+◌, ◌≡◌, refl, ap, ◌∙◌, true, false, none, some, List, [], ◌∷◌, ◌==◌, ◌++◌, ltb,
  if◌then◌else◌, arith, inl,
}
use eveboros.Outcome.{◌>>=◌}
use eveboros.Signals.{
  SignalNotifier, pushed, System, SignalDispatch, new, register, install, put_registered,
}
use eveboros.Signals.Threads.{
  registering, Phase, waiting, locked, finished, released, Frame, Process, call, lock, work, unlock,
  leave, Steps, here, next,
}
use eveboros.Signals.Threads.Invariant.{first_process}
use eveboros.Signals.Threads.Registering.{registering_alone}
use eveboros.Signals.Threads.Release.{ByItself, holder_frees}
use eveboros.Signals.Threads.Deadlock.{self_deadlock}

abbrev system : System ℕ
system = record {
  nsig = 65;
  sigaction = λ s w. (none, w + 1);
  try_send = λ sender flags w. (pushed, w);
}

abbrev notifier : SignalNotifier
notifier = record { sender = 0; flags = 0 }

abbrev begin : Process ℕ
begin = first_process system (λ _ _. false) 0 (λ _ _. false)

-- The call of `register` by thread 0.
abbrev in_phase : ℕ → Process ℕ → Phase → Frame
in_phase signal p phase = record {
  job = registering signal notifier;
  phase = phase;
  old_mask = (p.threads 0).mask;
}

-- The table with one more registration, the first for its signal.
abbrev with_signal : ℕ → SignalDispatch ℕ → SignalDispatch ℕ
with_signal signal d = record {
  registered = λ s. if s == signal then d.registered signal ++ notifier ∷ [] else d.registered s;
  setup = λ s. if s == signal then true else d.setup s;
  flags = d.flags;
  world = d.world + 1;
}

-- The steps of a registration by thread 0, from the call to the return.
registration :
    (signal : ℕ) (p : Process ℕ)
    → ltb signal 65 ≡ true
    → (p.threads 0).stack ≡ []
    → p.holder ≡ none
    → p.table.setup signal ≡ false
    → (q : Process ℕ) × Steps system p q
      × (q.holder ≡ none)
      × (q.table ≡ with_signal signal p.table)
      × ((q.threads 0).stack ≡ [])
      × ((s : ℕ) → (q.threads 0).mask s ≡ (p.threads 0).mask s)
unfolding register install put_registered ◌>>=◌
registration signal p valid idle free unset = (
  _,
  next
      (next
        (next
          (next (next here (call 0 signal notifier valid idle))
            (lock 0 (in_phase signal p waiting) [] refl refl free))
          (work 0 (in_phase signal p locked) [] (with_signal signal p.table) refl refl
            (ground (arith, valid, unset))))
        (unlock 0 (in_phase signal p finished) [] refl refl))
      (leave 0 (in_phase signal p released) [] refl refl),
  refl,
  refl,
  refl,
  λ s. refl,
)

both : {p q r : Process ℕ} → Steps system p q → Steps system q r → Steps system p r
both s here = s
both s (next t step) = next (both s t) step

-- Registrations for the signals 10 and 12.
two_set :
    (p : Process ℕ) × Steps system begin p
    × (p.holder ≡ none)
    × (p.table.setup 10 ≡ true)
    × (p.table.setup 12 ≡ true)
    × ((p.threads 0).stack ≡ [])
    × ((p.threads 0).mask 10 ≡ false)
    × ((p.threads 0).mask 12 ≡ false)
unfolding new
two_set =
    let (p, to_p, free, table_p, idle, open_p) = registration 10 begin refl refl refl refl in
    let (q, to_q, free', table_q, idle', open_q) =
      registration 12 p refl idle free (ap (λ t. t.setup 12) table_p) in
    (
      q,
      both to_p to_q,
      free',
      ap (λ t. t.setup 10) (table_q ∙ ap (with_signal 12) table_p),
      ap (λ t. t.setup 12) table_q,
      idle',
      open_q 10 ∙ open_p 10,
      open_q 12 ∙ open_p 12,
    )

self_deadlock_example :
    (q : Process ℕ) × Steps system two_set.0 q
    × ((r : Process ℕ) → Steps system q r → (r.holder ≡ some 0) × (r.table ≡ two_set.0.table))
self_deadlock_example =
    self_deadlock system (λ _ _. false) 0 (λ _ _. false) two_set.0 two_set.1 0 10 12
      (λ e. omega (arith, e)) two_set.3 two_set.4 two_set.6 two_set.7 two_set.2

-- Thread 0 calls `register` and gets the mutex.
registering_now :
    (p : Process ℕ) × Steps system begin p
    × (p.holder ≡ some 0)
    × ((p.threads 0).stack ≡ in_phase 10 begin locked ∷ [])
registering_now = (
  _,
  next (next here (call 0 10 notifier refl refl))
      (lock 0 (in_phase 10 begin waiting) [] refl refl refl),
  refl,
  refl,
)

registering_alone_example :
    (◌≡◌ {A = List Frame} [] [])
    × (◌≡◌ {A = List Frame} [] [])
    × ((s : ℕ) → (registering_now.0.threads 0).mask s ≡ true)
registering_alone_example =
    registering_alone system (λ _ _. false) 0 (λ _ _. false) registering_now.0 registering_now.1 0
      [] (in_phase 10 begin locked) [] 10 notifier registering_now.3 refl

holder_frees_example :
    (q : Process ℕ) × (run : Steps system registering_now.0 q) × ByItself system 0 run
    × (q.holder ≡ none)
holder_frees_example =
    holder_frees system (λ _ _. false) 0 (λ _ _. false) registering_now.0 (λ signal world. refl)
      registering_now.1 0 registering_now.2
      (inl ([], in_phase 10 begin locked, [], 10, notifier, registering_now.3, refl))
