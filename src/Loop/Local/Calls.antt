-- ===== src/Loop/Local/Calls.antt =====
-- A lent event stays lent, in its slot, until its own callback returns (src/core.rs, `event_call`).
use eveboros.Base.{
  ℕ, ◌≡◌, refl, Bool, true, false, Option, none, some, List, [], ◌∷◌, arith, nat_eq,
}
use eveboros.Error.{IoError, io, Error, Result, ok, err}
use eveboros.Handle.{Handle, handle_eq}
use eveboros.Outcome.{returns, fails, M, or_panic, panic_on_error}
use eveboros.Outcome.Safe.{
  Safe, unwrap-Safe, if-Safe, bind-Safe, unwrap-bind-Safe, modify-bind-Safe, Returns,
  Returns-bind-Safe, bind-Returns,
}
use eveboros.Recycler
use eveboros.Recycler.{Recycler, view}
use eveboros.StolenCell.{StolenData}
use eveboros.Loop.{Types, Loop, Env, EvHolder, IoHolder, Op, Reply, Script}
use eveboros.Loop.Events.{
  outside, forget_children, found, steal_event, unsteal_event, release_ios, bury, event_kill,
  report, conclude, perform_call, call_found, event_call,
}
use eveboros.Loop.Scope
use eveboros.Loop.Keeps.{ScopeKeeps, Rules, run_script-Safe}
use eveboros.Loop.Local.{Local, Tables, On}
use eveboros.Loop.Local.Steps.{
  timeout_at-Local, count_fired-Local, expect-Local, io_mut-Local, io_write-Local, send-Local,
  store-event-Local, want_signal-Local, io_register-Local, io_update-Local, io_remove-Local,
  background-Local, track_child-Local,
}
use eveboros.Loop.Local.Gathering.{tasks_gather-Local}

module _ {P : Types} {Free : ℕ → Type 0} {Q : Tables P} (rules : Local P Free Q) where
  abbrev I : Loop P → Type 0
  I = On P Q

  steal_event-Local :
      (j : ℕ) (holder : EvHolder P.Ev) (l : Loop P) → Free j → I l → Safe I (steal_event j holder l)
  unfolding steal_event
  steal_event-Local j holder l ne i = unwrap-bind-Safe I _ _ l (λ p _.
      unwrap-bind-Safe I _ _ l (λ events e. modify-bind-Safe I _ _ l (rules.lend j _ ne e i)))

  unsteal_event-Local :
      (j : ℕ) (d : StolenData P.Ev) (l : Loop P) → Free j → I l → Safe I (unsteal_event j d l)
  unfolding unsteal_event
  unsteal_event-Local j d l ne i = unwrap-bind-Safe I _ _ l (λ holder _.
      unwrap-bind-Safe I _ _ l
        (λ cell _. unwrap-bind-Safe I _ _ l (λ events e. rules.lend j _ ne e i)))

module _ {P : Types} (env : Env P) (R : Tables P) where
  deregistered :
      (failed : Option IoError) (w : P.World) (l : Loop P)
      → On P R l
      → Returns (On P R) (
          panic_on_error {A = Unit {0}} (elim failed [
            | none ↦ returns tt (record l { world = w })
            | some e ↦ fails (io e) (record l { world = w })
          ]))
  deregistered none w l i = i
  deregistered (some e) w l i = tt

  -- Deregistering IOs keeps any condition on the tables, and does not fail.
  release_ios-Returns :
      (ios : List (ℕ × IoHolder)) (l : Loop P) → On P R l → Returns (On P R) (release_ios env ios l)
  unfolding release_ios outside or_panic
  release_ios-Returns [] l i = i
  release_ios-Returns ((k, v) ∷ ios) l i =
      bind-Returns (On P R) _ _ l
        (deregistered (env.deregister v.io l.world).0 (env.deregister v.io l.world).1 l i)
        (λ _ l₁ i₁. bind-Returns (On P R) _ _ l₁ i₁ (λ _ l₂ i₂. release_ios-Returns ios l₂ i₂))

module _ {P : Types} {Free : ℕ → Type 0} {Q : Tables P} (env : Env P) (rules : Local P Free Q) where
  abbrev J : Loop P → Type 0
  J = On P Q

  event_kill-Local : (j : ℕ) (l : Loop P) → Free j → J l → Safe J (event_kill env j l)
  unfolding event_kill bury
  event_kill-Local j l ne i = unwrap-bind-Safe J _ _ l (λ p e.
      let Buried : Tables P = λ ev io t c. Q ev io t (forget_children p.0.children c) in
      modify-bind-Safe J _ _ l (
        modify-bind-Safe J _ _ _ (
          Returns-bind-Safe (On P Buried) J _ _ _
            (release_ios-Returns env Buried p.0.ios _ (rules.kill j ne e i))
            (λ _ l₁ i₁. modify-bind-Safe J _ _ l₁ (unwrap-Safe J _ _ i₁)))))

  report-Local : (ev : P.Ev) (e : Error) (l : Loop P) → J l → Safe J (report env ev e l)
  unfolding report
  report-Local ev e l i = ground arith

  conclude-Local :
      (j : ℕ) (r : Result Bool) (l : Loop P) → Free j → J l → Safe J (conclude env j r l)
  unfolding conclude
  conclude-Local j (ok true) l ne i = i
  conclude-Local j (ok false) l ne i = bind-Safe J _ _ l (event_kill-Local j l ne i) (λ _ _ i₁. i₁)
  conclude-Local j (err e) l ne i =
      bind-Safe J _ _ l (event_kill-Local j l ne i) (λ ev l₁ i₁. report-Local ev e l₁ i₁)

  perform_call-Local :
      (request : Op P → M (Loop P) Reply)
      → ((op : Op P) (l : Loop P) → J l → Safe J (request op l))
      → (j : ℕ) (holder : EvHolder P.Ev) (f : P.Ev → Script P) (l : Loop P) → Free j
      → J l
      → Safe J (perform_call env request j holder f l)
  unfolding perform_call
  perform_call-Local request keeps j holder f l ne i =
      bind-Safe J _ _ l (steal_event-Local rules j holder l ne i) (λ stolen l₁ i₁.
        bind-Safe J _ _ l₁
          (run_script-Safe {I = J} request keeps (λ _ _ _ h. h) (f stolen.pointee) l₁ i₁)
          (λ r l₂ i₂.
            bind-Safe J _ _ l₂ (unsteal_event-Local rules j _ l₂ ne i₂)
              (λ _ l₃ i₃. conclude-Local j r.1 l₃ ne i₃)))

  module _ (scope_of : Handle → Op P → M (Loop P) Reply) (scope : ScopeKeeps J scope_of) where
    call_found-Local :
        (h : Handle) (f : P.Ev → Script P) (o : Option (EvHolder P.Ev)) (l : Loop P)
        → found (Recycler.index l.events h.id) h.generation ≡ o
        → J l
        → Safe J (call_found env scope_of h f o l)
    unfolding call_found
    call_found-Local h f none l e i = i
    call_found-Local h f (some holder) l e i =
        if-Safe J holder.event.stolen (fails _ l) (perform_call env (scope_of h) h.id holder f l)
          (λ _. i)
          (λ free.
            perform_call-Local (scope_of h) (scope h) h.id holder f l
              (rules.free h.id h.generation holder e free i) i)

    event_call-Local :
        (h : Handle) (f : P.Ev → Script P) (l : Loop P)
        → J l
        → Safe J (event_call env scope_of h f l)
    unfolding event_call
    event_call-Local h f l i =
        if-Safe J (Recycler.valid l.events h.id)
          (call_found env scope_of h f (found (Recycler.index l.events h.id) h.generation) l)
          (fails _ l) (λ _. call_found-Local h f _ l refl i) (λ _. i)

  pub Local-Rules : Rules env J
  Local-Rules = record {
    call = event_call-Local;
    store = store-event-Local env rules;
    active = λ l b i. i;
    pop = λ l t ts e i. i;
    send = send-Local rules;
    timer = timeout_at-Local rules;
    idle = λ h l i. unfold Scope.want_idle in i;
    signal = want_signal-Local env rules;
    expect = expect-Local rules;
    io_register = io_register-Local env rules;
    io_update = io_update-Local env rules;
    io_remove = io_remove-Local env rules;
    io_mut = io_mut-Local rules;
    io_write = io_write-Local rules;
    background = background-Local env rules;
    child = track_child-Local env rules;
    gather = tasks_gather-Local env rules;
    fired = count_fired-Local rules;
  }
