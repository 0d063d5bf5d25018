-- ===== src/Loop/Events/Kill.antt =====
-- What `event_kill` of src/core.rs leaves behind of an event.
use eveboros.Base.{
  ℕ, ◌+◌, ◌≡◌, ◌≢◌, refl, sym, ap, subst, ◌∙◌, false, ◌&&◌, ◌||◌, ◌==◌, not, Option, none, some,
  List, [], ◌∷◌, arith, if◌then◌else◌, nat_eq, lookup, without, member, add, remove, contains_key,
  member-add, member-remove, lookup-without,
}
use eveboros.Error.{IoError, io}
use eveboros.Any.{Any}
use eveboros.Handle.{Handle, handle_eq}
use eveboros.Outcome.{returns, fails, or_panic, panic_on_error, modify, ◌>>=◌, ◌>>◌}
use eveboros.Outcome.Ensures.{Ensures, bind-Ensures, Ensures-map, modify-bind-Ensures}
use eveboros.Recycler.{Recycler, view}
use eveboros.Recycler.Invariant.{IsValid, Released, release-Released, index-view, valid-view}
use eveboros.StolenCell
use eveboros.StolenCell.{StolenCell}
use eveboros.Loop.{Types, Loop, Env, EvHolder, IoHolder}
use eveboros.Loop.Timers.{alive_in, event_alive}
use eveboros.Loop.Events.{outside, release_ios, forget_children, bury, event_kill}

-- `release_ios` changes the world and puts ids aside, and nothing else.
record SetAside {P : Types} (ios : List (ℕ × IoHolder)) (l l' : Loop P) : Type 0 where
  world : P.World
  released : List ℕ
  frame : l' ≡ record l { world = world; ios_released = released }
  exactly : (k : ℕ) → member k released ≡ (contains_key k ios || member k l.ios_released)

pub lookup-forget_children :
    (pids : List ℕ) (pid : ℕ) (children : List (ℕ × Handle))
    → lookup pid (forget_children pids children)
      ≡ (if member pid pids then none else lookup pid children)
unfolding forget_children member
lookup-forget_children [] pid children = refl
lookup-forget_children (p ∷ pids) pid children =
    ground
      (arith, lookup-forget_children pids pid (without p children), lookup-without p pid children)

module _ {P : Types} where
  -- A call of the poll that panics on failure changes the world only.
  abbrev OnlyWorld : Loop P → Unit {0} → Loop P → Type 0
  OnlyWorld l _ l' = (w : P.World) × (l' ≡ record l { world = w })

  answer-OnlyWorld :
      (l : Loop P) (failed : Option IoError) (w : P.World)
      → Ensures (OnlyWorld l) (
          panic_on_error (elim failed [
            | none ↦ returns tt (record l { world = w })
            | some e ↦ fails (io e) (record l { world = w })
          ]))
  answer-OnlyWorld l none w = (w, refl)
  answer-OnlyWorld l (some e) w = tt

  outside-OnlyWorld :
      (call : P.World → Option IoError × P.World) (l : Loop P)
      → Ensures (OnlyWorld l) (or_panic (outside call) l)
  unfolding outside or_panic
  outside-OnlyWorld call l = answer-OnlyWorld l (call l.world).0 (call l.world).1

  SetAside-cons :
      (k : ℕ) (v : IoHolder) (ios : List (ℕ × IoHolder)) (l l' : Loop P) (w : P.World)
      → SetAside ios (record l { world = w; ios_released = add k l.ios_released }) l'
      → SetAside ((k, v) ∷ ios) l l'
  unfolding contains_key lookup
  SetAside-cons k v ios l l' w s = record {
    world = s.world;
    released = s.released;
    frame = s.frame;
    exactly = λ j. ground (arith, s.exactly j, member-add k j l.ios_released);
  }

module _ {P : Types} (env : Env P) where
  release_ios-SetAside :
      (ios : List (ℕ × IoHolder)) (l : Loop P)
      → Ensures (λ _ l'. SetAside ios l l') (release_ios env ios l)
  unfolding release_ios
  release_ios-SetAside [] l = record {
    world = l.world;
    released = l.ios_released;
    frame = refl;
    exactly = λ k. unfold contains_key lookup in refl;
  }
  release_ios-SetAside ((k, v) ∷ ios) l =
      bind-Ensures (OnlyWorld l) (λ _ l'. SetAside ((k, v) ∷ ios) l l') _ _ l
        (outside-OnlyWorld (env.deregister v.io) l)
        (λ _ l₁ moved.
          subst
            (λ m.
              Ensures (λ _ l'. SetAside ((k, v) ∷ ios) l l')
                ((modify (put_aside k) >> release_ios env ios) m))
            (sym moved.1)
            (modify-bind-Ensures _ (put_aside k) (release_ios env ios) _ (
              Ensures-map _ _ _ (λ _ l'. SetAside-cons k v ios l l' moved.0)
                (release_ios-SetAside ios _))))
    where
      put_aside : ℕ → Loop P → Loop P
      put_aside j m = record m { ios_released = add j m.ios_released }

  release_ios_returns :
      (ios : List (ℕ × IoHolder)) (l : Loop P)
      → ((io : Any) (w : P.World) → (env.deregister io w).0 ≡ none)
      → (l' : Loop P) × (release_ios env ios l ≡ returns tt l')
  unfolding release_ios outside or_panic ◌>>=◌
  release_ios_returns [] l good = (l, refl)
  release_ios_returns ((k, v) ∷ ios) l good =
      let (l', e) =
        release_ios_returns ios
          (record l {
            world = (env.deregister v.io l.world).1;
            ios_released = add k l.ios_released;
          })
          good in
      (l', ground (arith, good v.io l.world))

alive_in-view :
    {Ev : Type 0} (a b : Recycler (EvHolder Ev)) (h : Handle)
    → view a h.id ≡ view b h.id
    → alive_in a h ≡ alive_in b h
unfolding alive_in
alive_in-view a b h e =
    ground (arith, valid-view a h.id, valid-view b h.id, index-view a h.id, index-view b h.id)

alive_in-none :
    {Ev : Type 0} (a : Recycler (EvHolder Ev)) (h : Handle)
    → view a h.id ≡ none
    → alive_in a h ≡ false
unfolding alive_in
alive_in-none a h e = ground (arith, valid-view a h.id)

-- What is left after the event `handle` with the given holder was killed.
pub record Killed {P : Types} (env : Env P) (idx : ℕ) (holder : EvHolder P.Ev) (l l' : Loop P)
    : Type 0 where
  pub frame : l' ≡ record l {
    events = l'.events;
    timeouts_dead = l'.timeouts_dead;
    want_idle = l'.want_idle;
    signal_recipients = l'.signal_recipients;
    children = l'.children;
    ios_released = l'.ios_released;
    world = l'.world;
  }
  pub holders : (j : ℕ) → view l'.events j ≡ (if j == idx then none else view l.events j)
  pub gone :
      (generation : ℕ) → event_alive l' (record { id = idx; generation = generation }) ≡ false
  pub others : (h : Handle) → h.id ≢ idx → event_alive l' h ≡ event_alive l h
  pub timers : l'.timeouts_dead ≡ l.timeouts_dead + holder.timeouts
  pub not_idle :
      l'.want_idle
      ≡ env.idle_remove (record { id = idx; generation = holder.generation }) l.want_idle
  pub no_signals :
      (signum : ℕ) (h : Handle)
      → member h (l'.signal_recipients signum) ≡ (
          not (handle_eq.beq h (record { id = idx; generation = holder.generation }))
          && member h (l.signal_recipients signum))
  pub no_children :
      (pid : ℕ)
      → lookup pid l'.children
        ≡ (if member pid holder.children then none else lookup pid l.children)
  pub set_aside :
      (k : ℕ) → member k l'.ios_released ≡ (contains_key k holder.ios || member k l.ios_released)

module _ {P : Types} (env : Env P) where
  finish-Killed :
      (idx : ℕ) (holder : EvHolder P.Ev) (l l₁ : Loop P) (events : Recycler (EvHolder P.Ev))
      → Released l.events idx events
      → SetAside holder.ios
          (record l { events = events; timeouts_dead = l.timeouts_dead + holder.timeouts })
          l₁
      → Killed env idx holder l (record l₁ {
        want_idle =
            env.idle_remove (record { id = idx; generation = holder.generation }) l₁.want_idle;
        signal_recipients = λ s.
            remove (record { id = idx; generation = holder.generation }) (l₁.signal_recipients s);
        children = forget_children holder.children l₁.children;
      })
  finish-Killed idx holder l l₁ events d s = record {
    frame =
        ap {A = Loop P}
          (λ m. record m {
            events = l₁.events;
            timeouts_dead = l₁.timeouts_dead;
            want_idle =
                env.idle_remove (record { id = idx; generation = holder.generation }) l₁.want_idle;
            signal_recipients = λ s.
                remove (record { id = idx; generation = holder.generation })
                  (l₁.signal_recipients s);
            children = forget_children holder.children l₁.children;
            ios_released = l₁.ios_released;
            world = l₁.world;
          })
          s.frame;
    holders = λ j. ap (λ m. view m.events j) s.frame ∙ d.gone j;
    gone = λ g.
        alive_in-none l₁.events _
          (ap (λ m. view m.events idx) s.frame ∙ ground (arith, d.gone idx));
    others = λ h ne.
        alive_in-view l₁.events l.events h
          (ap (λ m. view m.events h.id) s.frame ∙ ground (arith, d.gone h.id));
    timers = ap (λ m. m.timeouts_dead) s.frame;
    not_idle =
        ap (λ m. env.idle_remove (record { id = idx; generation = holder.generation }) m.want_idle)
          s.frame;
    no_signals = λ signum h.
        member-remove _ h (l₁.signal_recipients signum)
        ∙ ap
            (λ m.
              not (handle_eq.beq h (record { id = idx; generation = holder.generation }))
              && member h (m.signal_recipients signum))
            s.frame;
    no_children = λ pid.
        lookup-forget_children holder.children pid l₁.children
        ∙ ap (λ m. if member pid holder.children then none else lookup pid m.children) s.frame;
    set_aside = λ k. ap (λ m. member k m.ios_released) s.frame ∙ s.exactly k;
  }

  -- Killing an event that is there and not inside a callback returns the event, as long as mio agrees to
  -- deregister its IOs. Afterwards its slot is free and the other events are as they were, so that no handle
  -- to its slot is alive and every other handle is as alive as before; its timeouts count as dead; it is
  -- removed from the map of those that wait for idle time, and waits for no signal and no child, while all
  -- others still do; exactly its IOs are put aside, with those that were before, to be freed later; and all
  -- else, such as the scheduled tasks, the timeouts and the slots of the IOs, is as it was, but for the world.
  pub event_kill-Killed :
      (idx : ℕ) (holder : EvHolder P.Ev) (l : Loop P)
      → IsValid l.events
      → view l.events idx ≡ some holder
      → holder.event.stolen ≡ false
      → ((io : Any) (w : P.World) → (env.deregister io w).0 ≡ none)
      → (l' : Loop P) × (event_kill env idx l ≡ returns holder.event.content l')
        × Killed env idx holder l l'
  unfolding event_kill bury StolenCell.into_inner ◌>>=◌
  event_kill-Killed idx holder l v there free good =
      let (events, released, d) = release-Released l.events idx v there in
      let l₀ : Loop P = record l {
        events = events;
        timeouts_dead = l.timeouts_dead + holder.timeouts;
      } in
      let (l₁, e) = release_ios_returns env holder.ios l₀ good in
      let s : SetAside holder.ios l₀ l₁ =
        subst (Ensures (λ _ m. SetAside holder.ios l₀ m)) e
          (release_ios-SetAside env holder.ios l₀) in
      (_, ground (arith, released, e), finish-Killed idx holder l l₁ events d s)
