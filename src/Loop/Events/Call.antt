-- ===== src/Loop/Events/Call.antt =====
-- `event_call` of src/core.rs: when it calls, and what becomes of the pointer into the storage that the
-- callback holds.
use eveboros.Base.{
  ℕ, ◌≡◌, ◌≢◌, refl, sym, subst, ◌∙◌, Bool, true, false, Option, none, some, arith, if◌then◌else◌,
}
use eveboros.Error.{Result, missing, busy}
use eveboros.Handle.{Handle}
use eveboros.Outcome.{returns, fails, panic, M, ◌>>=◌}
use eveboros.Outcome.Safe.{Safe}
use eveboros.Recycler.{Recycler, view, address}
use eveboros.Recycler.Invariant.{IsValid, index-view, index_mut-Updated, valid-view}
use eveboros.StolenCell
use eveboros.StolenCell.{StolenCell, StolenData}
use eveboros.Loop.{Types, Loop, Env, EvHolder, Op, Reply, Script}
use eveboros.Loop.Timers.{event_alive, alive_in}
use eveboros.Loop.Events.{
  set_event, steal_event, unsteal_event, run_script, perform_call, call_found, event_call,
}
use eveboros.Loop.Run.{perform}
use eveboros.Loop.Keeps.{run_script-Safe}
use eveboros.Loop.Held.{Held}
use eveboros.Loop.Held.Running.{perform-Held}

module _ {P : Types} (env : Env P) (scope_of : Handle → Op P → M (Loop P) Reply) (h : Handle)
    (f : P.Ev → Script P) where
  -- A call to what a slot holds.
  abbrev called : Option (EvHolder P.Ev) → M (Loop P) (Unit {0})
  called none l = panic
  called (some holder) l =
      if holder.event.stolen then fails busy l else perform_call env (scope_of h) h.id holder f l

  -- What `event_call` tells apart, from the handle alone: a call to a handle whose event is not alive
  -- fails with `Missing`, a call to an event that is inside a callback fails with `Busy`, both leaving the
  -- loop as it was, and any other call reaches the event that the handle names. The accesses to its slot
  -- do not panic.
  pub event_call_cases :
      (l : Loop P)
      → event_call env scope_of h f l
        ≡ (if event_alive l h then called (view l.events h.id) l else fails missing l)
  unfolding event_call call_found alive_in
  event_call_cases l = ground (arith, valid-view l.events h.id, index-view l.events h.id)

module _ {P : Types} where
  -- Lending an event out marks its holder, hands over its content with its address, and moves nothing.
  pub steal_event_lem :
      (idx : ℕ) (holder : EvHolder P.Ev) (l : Loop P)
      → IsValid l.events
      → view l.events idx ≡ some holder
      → holder.event.stolen ≡ false
      → (events : Recycler (EvHolder P.Ev)) × (steal_event idx holder l
          ≡ returns
              (record { pointer = address l.events idx; pointee = holder.event.content })
              (record l { events = events }))
        × (events.block ≡ l.events.block)
        × Held idx holder.generation events
  unfolding steal_event StolenCell.steal ◌>>=◌
  steal_event_lem idx holder l v there free =
      let cell : StolenCell P.Ev = record { content = holder.event.content; stolen = true } in
      let (events, e, u) = index_mut-Updated l.events idx (set_event cell) v there in
      (
        events,
        ground arith,
        u.same_block,
        record {
          valid = u.still_valid;
          holder = set_event cell holder;
          there = ground (arith, u.updated idx);
          same = refl;
          locked = refl;
        },
      )

  -- Taking an event back: the address must be the one at which it was lent out.
  pub unsteal_event_lem :
      (idx g : ℕ) (d : StolenData P.Ev) (l : Loop P) (b : ℕ)
      → d.pointer ≡ (b, idx)
      → Held idx g l.events
      → (l.events.block.buffer ≡ b
          → (l' : Loop P) × (unsteal_event idx d l ≡ returns tt l')
            × (l'.events.block ≡ l.events.block))
        × (l.events.block.buffer ≢ b → unsteal_event idx d l ≡ panic)
  unfolding unsteal_event StolenCell.unsteal ◌>>=◌
  unsteal_event_lem idx g d l b at held =
      let cell : StolenCell P.Ev = record { content = d.pointee; stolen = false } in
      let (events, e, u) = index_mut-Updated l.events idx (set_event cell) held.valid held.there in
      (
        λ stays. (
          record l { events = events },
          ground (arith, index-view l.events idx, held.there),
          u.same_block,
        ),
        λ moved. ground (arith, index-view l.events idx, held.there),
      )

module _ {P : Types} (env : Env P) where
  -- A call to an event that is there, under its generation and not inside a callback.
  pub event_call_free :
      (h : Handle) (holder : EvHolder P.Ev) (f : P.Ev → Script P) (l : Loop P)
      (scope_of : Handle → Op P → M (Loop P) Reply)
      → view l.events h.id ≡ some holder
      → holder.generation ≡ h.generation
      → holder.event.stolen ≡ false
      → event_call env scope_of h f l ≡ perform_call env (scope_of h) h.id holder f l
  unfolding event_call call_found
  event_call_free h holder f l scope_of there same free =
      ground (arith, valid-view l.events h.id, index-view l.events h.id, there, same, free)

  -- Whatever the callback did, nested callbacks and their errors included: the event is still lent out,
  -- and taking it back depends on the address of the storage only.
  unsteal_after :
      (n : ℕ) (h : Handle) (holder : EvHolder P.Ev) (f : P.Ev → Script P) (l l₁ l₂ : Loop P)
      (stolen : StolenData P.Ev) (ev : P.Ev) (response : Result Bool)
      → IsValid l.events
      → view l.events h.id ≡ some holder
      → holder.event.stolen ≡ false
      → steal_event h.id holder l ≡ returns stolen l₁
      → run_script (perform env n h) (f stolen.pointee) l₁ ≡ returns (ev, response) l₂
      → (l₂.events.block.buffer ≡ l.events.block.buffer
          → (l₃ : Loop P) × (unsteal_event h.id (record stolen { pointee = ev }) l₂ ≡ returns tt l₃)
            × (l₃.events.block ≡ l₂.events.block))
        × (l₂.events.block.buffer ≢ l.events.block.buffer
            → unsteal_event h.id (record stolen { pointee = ev }) l₂ ≡ panic)
  unsteal_after n h holder f l l₁ l₂ stolen ev response v there free stole ran =
      let (events, e, same, held) = steal_event_lem h.id holder l v there free in
      let held₁ : Held h.id holder.generation l₁.events =
        subst (Safe (λ l'. Held h.id holder.generation l'.events)) (sym e ∙ stole) held in
      let kept =
        run_script-Safe {I = λ l'. Held h.id holder.generation l'.events} (perform env n h)
          (perform-Held env h.id holder.generation n h) (λ _ _ _ i. i) (f stolen.pointee) l₁
          held₁ in
      unsteal_event_lem h.id holder.generation (record stolen { pointee = ev }) l₂
        l.events.block.buffer (ground arith)
        (subst (Safe (λ l'. Held h.id holder.generation l'.events)) ran kept)

  -- The raw pointer that a callback works through is good as long as the storage of the events does not
  -- move. Whatever the callback did, nested callbacks and their errors included: when it has responded, the
  -- event can be taken back without a panic if the events still lie in the memory block in which they lay
  -- before the call.
  pub callback_returns :
      (n : ℕ) (h : Handle) (holder : EvHolder P.Ev) (f : P.Ev → Script P) (l l₁ l₂ : Loop P)
      (stolen : StolenData P.Ev) (ev : P.Ev) (response : Result Bool)
      → IsValid l.events
      → view l.events h.id ≡ some holder
      → holder.event.stolen ≡ false
      → steal_event h.id holder l ≡ returns stolen l₁
      → run_script (perform env n h) (f stolen.pointee) l₁ ≡ returns (ev, response) l₂
      → l₂.events.block.buffer ≡ l.events.block.buffer
      → (l₃ : Loop P) × (unsteal_event h.id (record stolen { pointee = ev }) l₂ ≡ returns tt l₃)
  callback_returns n h holder f l l₁ l₂ stolen ev response v there free stole ran = λ stays.
      let (l₃, e, _) =
        (unsteal_after n h holder f l l₁ l₂ stolen ev response v there free stole ran).0 stays in
      (l₃, e)

  -- And if the storage of the events was moved to another memory block while the callback ran, then the
  -- loop panics when the event is to be taken back.
  pub callback_moved :
      (n : ℕ) (h : Handle) (holder : EvHolder P.Ev) (f : P.Ev → Script P) (l l₁ l₂ : Loop P)
      (stolen : StolenData P.Ev) (ev : P.Ev) (response : Result Bool)
      → IsValid l.events
      → view l.events h.id ≡ some holder
      → holder.event.stolen ≡ false
      → steal_event h.id holder l ≡ returns stolen l₁
      → run_script (perform env n h) (f stolen.pointee) l₁ ≡ returns (ev, response) l₂
      → l₂.events.block.buffer ≢ l.events.block.buffer
      → unsteal_event h.id (record stolen { pointee = ev }) l₂ ≡ panic
  callback_moved n h holder f l l₁ l₂ stolen ev response v there free stole ran =
      (unsteal_after n h holder f l l₁ l₂ stolen ev response v there free stole ran).1
