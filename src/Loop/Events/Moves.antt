-- ===== src/Loop/Events/Moves.antt =====
-- A callback that makes the storage of the events move (src/core.rs, `event_call`; src/recycler.rs,
-- `store`).
use eveboros.Base.{
  ℕ, suc, ◌≡◌, ◌≢◌, refl, sym, ap, subst, ◌∙◌, Bool, true, false, Bool-cases, inl, inr, some, [],
  length, set, length-set, arith,
}
use eveboros.Error.{Result, ok}
use eveboros.Handle.{Handle, wrapping_suc}
use eveboros.Outcome.{returns, panic, M, attempt, ◌>>=◌}
use eveboros.Outcome.Ensures.{Ensures}
use eveboros.Recycler.{Recycler, address, view}
use eveboros.Recycler.Invariant.{IsValid, store-Stored, store_full, index_mut_shape}
use eveboros.StolenCell
use eveboros.StolenCell.{StolenCell, StolenData}
use eveboros.Loop.{Types, Loop, Env, EvHolder, Op, Reply, Script, ask, respond, insert_exact}
use eveboros.Loop.Events
use eveboros.Loop.Events.{
  set_event, store_event, new_holder, steal_event, unsteal_event, run_script, perform_call,
  conclude, event_call,
}
use eveboros.Loop.Events.Call.{event_call_free, steal_event_lem, unsteal_event_lem, callback_moved}
use eveboros.Loop.Run.{perform, request}

module _ {P : Types} (env : Env P) where
  -- A callback that responds at once, to go on, leaves the storage of the events where it is.
  respond-block :
      (scope_of : Handle → Op P → M (Loop P) Reply) (h : Handle) (holder : EvHolder P.Ev)
      (f : P.Ev → Script P) (ev : P.Ev) (l : Loop P)
      → IsValid l.events
      → view l.events h.id ≡ some holder
      → holder.generation ≡ h.generation
      → holder.event.stolen ≡ false
      → f holder.event.content ≡ respond ev (ok true)
      → (l' : Loop P) × (event_call env scope_of h f l ≡ returns tt l')
        × (l'.events.block ≡ l.events.block)
  unfolding perform_call run_script conclude ◌>>=◌
  respond-block scope_of h holder f ev l v there same free responds =
      let (events, stole, block, held) = steal_event_lem h.id holder l v there free in
      let (l', back, kept) =
        (unsteal_event_lem h.id holder.generation
            (record { pointer = (l.events.block.buffer, h.id); pointee = ev })
            (record l { events = events }) l.events.block.buffer refl held).0
          (ap (λ b. b.buffer) block) in
      (
        l',
        event_call_free env h holder f l scope_of there same free
            ∙ ground (arith, stole, responds, back),
        kept ∙ block,
      )

  -- Lending an event out keeps the shape of the storage.
  steal_event_shape :
      (idx : ℕ) (holder : EvHolder P.Ev) (l : Loop P) (events : Recycler (EvHolder P.Ev))
      (d : StolenData P.Ev)
      → view l.events idx ≡ some holder
      → steal_event idx holder l ≡ returns d (record l { events = events })
      → (events.free ≡ l.events.free) × (length events.slots ≡ length l.events.slots)
  unfolding steal_event StolenCell.steal ◌>>=◌
  steal_event_shape idx holder l events d there stole =
      let cell : StolenCell P.Ev = record { content = holder.event.content; stolen = true } in
      let shape = index_mut_shape l.events idx (set_event cell) there in
      elim (Bool-cases holder.event.stolen) [
        | inl locked ↦ let never : ⊥ = cc (locked, stole) in absurd never
        | inr free ↦
            let out : steal_event idx holder l
                ≡ returns
                    (record { pointer = address l.events idx; pointee = holder.event.content })
                    (record l {
                      events = record l.events {
                        slots = set l.events.slots idx (some (set_event cell holder));
                      };
                    }) =
              ground (arith, free, shape) in
            subst
              (Ensures (λ _ l'.
                (l'.events.free ≡ l.events.free)
                × (length l'.events.slots ≡ length l.events.slots)))
              (sym out ∙ stole) (refl, length-set l.events.slots idx (some (set_event cell holder)))
      ]

  -- An insertion into a full storage, up to the call of `init`.
  store_event_full :
      (new : P.Ev) (l : Loop P)
      → IsValid l.events
      → l.events.free ≡ []
      → length l.events.slots ≡ l.events.block.capacity
      → (handle : Handle) × (l' : Loop P) × (store_event env new l ≡ returns handle l')
        × (view l'.events handle.id ≡ some (new_holder new l.generation))
        × (l.generation ≡ handle.generation)
        × IsValid l'.events
        × (l'.events.block ≡ (env.fresh_block l.world).0)
  unfolding store_event ◌>>=◌
  store_event_full new l v none_free full =
      let (idx, events, stored, st) =
        store-Stored (env.fresh_block l.world).0 l.events (new_holder new l.generation) v in
      (
        record { id = idx; generation = l.generation },
        record l {
          generation = wrapping_suc l.generation;
          events = events;
          world = (env.fresh_block l.world).1;
        },
        ground (arith, stored),
        ground (arith, st.stored idx),
        refl,
        st.still_valid,
        store_full (env.fresh_block l.world).0 l.events events (new_holder new l.generation) idx
            none_free full stored,
      )

  inserted :
      (n : ℕ) (h : Handle) (s : Script P) (new ev : P.Ev) (response : Result Bool)
      (l₁ l₂ l₃ : Loop P) (handle : Handle)
      → s ≡ ask (insert_exact new) (λ _. respond ev response)
      → store_event env new l₁ ≡ returns handle l₂
      → event_call env (perform env n) handle env.event.init l₂ ≡ returns tt l₃
      → run_script (perform env (suc n) h) s l₁ ≡ returns (ev, response) l₃
  unfolding run_script perform request Events.insert_exact attempt ◌>>=◌
  inserted n h s new ev response l₁ l₂ l₃ handle asks stored called =
      rw asks (rw stored (rw called refl))

  called_panics :
      (request : Op P → M (Loop P) Reply) (idx : ℕ) (holder : EvHolder P.Ev) (f : P.Ev → Script P)
      (l l₁ l₂ : Loop P) (d : StolenData P.Ev) (ev : P.Ev) (response : Result Bool)
      → steal_event idx holder l ≡ returns d l₁
      → run_script request (f d.pointee) l₁ ≡ returns (ev, response) l₂
      → unsteal_event idx (record d { pointee = ev }) l₂ ≡ panic
      → perform_call env request idx holder f l ≡ panic
  unfolding perform_call ◌>>=◌
  called_panics request idx holder f l l₁ l₂ d ev response stole ran panics =
      rw stole (rw ran (rw panics refl))

  -- The storage of the events is full, the allocator hands out a block that lies elsewhere, and the callback
  -- of an event inserts another event, whose `init` responds at once, and then responds. Whatever it
  -- responds, the loop panics in that call: the event that was called is not where it was lent out.
  pub event_call_outgrown :
      (n : ℕ) (h : Handle) (holder : EvHolder P.Ev) (f : P.Ev → Script P) (new ev : P.Ev)
      (response : Result Bool) (l : Loop P)
      → IsValid l.events
      → view l.events h.id ≡ some holder
      → holder.generation ≡ h.generation
      → holder.event.stolen ≡ false
      → l.events.free ≡ []
      → length l.events.slots ≡ l.events.block.capacity
      → (env.fresh_block l.world).0.buffer ≢ l.events.block.buffer
      → f holder.event.content ≡ ask (insert_exact new) (λ _. respond ev response)
      → env.event.init new ≡ respond new (ok true)
      → event_call env (perform env (suc n)) h f l ≡ panic
  unfolding perform_call
  event_call_outgrown n h holder f new ev response l v there same free none_free full elsewhere asks
        responds =
      let (events, stole, block, held) = steal_event_lem h.id holder l v there free in
      let (free_kept, length_kept) = steal_event_shape h.id holder l events _ there stole in
      let l₁ : Loop P = record l { events = events } in
      let (handle, l₂, stored, at, generation, valid, moved) =
        store_event_full new l₁ held.valid (free_kept ∙ none_free)
          (length_kept ∙ full ∙ sym (ap (λ b. b.capacity) block)) in
      let (l₃, called, kept) =
        respond-block (perform env n) handle (new_holder new l.generation) env.event.init new l₂
          valid at generation refl responds in
      let ran =
        inserted n h (f holder.event.content) new ev response l₁ l₂ l₃ handle asks stored called in
      let panics =
        callback_moved env (suc n) h holder f l l₁ l₃ _ ev response v there free stole ran
          (λ e. elsewhere (sym (ap (λ b. b.buffer) (kept ∙ moved)) ∙ e)) in
      event_call_free env h holder f l (perform env (suc n)) there same free
      ∙ called_panics (perform env (suc n) h) h.id holder f l l₁ l₃ _ ev response stole ran panics
