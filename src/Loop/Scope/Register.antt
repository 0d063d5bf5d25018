-- ===== src/Loop/Scope/Register.antt =====
-- Registering an IO (src/core.rs, `io_register_any`).
use eveboros.Base.{
  ℕ, ◌+◌, ◌≡◌, refl, sym, subst, ◌∙◌, ◌⊎◌, inl, inr, Option, none, some, arith, ◌==◌, if◌then◌else◌,
  put, nat_eq,
}
use eveboros.Error.{IoError, io}
use eveboros.Handle.{Handle, IoId, token_shift}
use eveboros.Outcome.{returns, fails, attempt, ◌>>=◌}
use eveboros.Outcome.Ensures.{Ensures}
use eveboros.Recycler.{view}
use eveboros.Recycler.Invariant.{IsValid, store-Stored, release-Released, index_mut-Updated}
use eveboros.Loop.{Types, Loop, Env, EvHolder, IoHolder}
use eveboros.Loop.Events.{outside}
use eveboros.Loop.Scope.{update_holder, finish_register, io_register_any}

answer-cases : (o : Option IoError) → (o ≡ none) ⊎ ((e : IoError) × (o ≡ some e))
answer-cases none = inl refl
answer-cases (some e) = inr (e, refl)

module _ {P : Types} (env : Env P) (h : Handle) (held : IoHolder) (interest opts : ℕ) where
  -- If mio refuses an IO, under whatever token of a free slot it is offered, `io_register_any` offers it
  -- under such a token and fails with the error that mio answers to it; every slot of the IOs holds what it
  -- held, the events are untouched, and the table of IOs is still consistent.
  pub io_register_any_refused :
      (l : Loop P) (error : ℕ → P.World → IoError)
      → IsValid l.ios
      → (refused : (token : ℕ) (w : P.World)
          → (env.register held.io token interest opts w).0 ≡ some (error token w))
      → (idx : ℕ) × (l' : Loop P) × (view l.ios idx ≡ none)
        × (io_register_any env h held interest opts l
            ≡ fails (io (error (idx + token_shift) (env.fresh_block l.world).1)) l')
        × ((j : ℕ) → view l'.ios j ≡ view l.ios j)
        × (l'.events ≡ l.events)
        × IsValid l'.ios
  unfolding io_register_any finish_register outside attempt ◌>>=◌
  io_register_any_refused l error v refused =
      let (idx, ios, stored, st) = store-Stored (env.fresh_block l.world).0 l.ios h v in
      let (ios', released, d) =
        release-Released ios idx {x = h} st.still_valid (ground (arith, st.stored idx)) in
      let w = (env.fresh_block l.world).1 in
      (
        idx,
        record l {
          ios = ios';
          world = (env.register held.io (idx + token_shift) interest opts w).1;
        },
        st.is_fresh,
        ground (arith, stored, released, refused (idx + token_shift) w),
        λ j. ground (arith, d.gone j, st.stored j, st.is_fresh),
        refl,
        d.still_valid,
      )

  -- If mio accepts the IO and the event is there, `io_register_any` returns a token for a slot that was
  -- free; afterwards the slot holds the event's handle, the event owns the IO under that slot, and all
  -- other slots, IOs and events are as they were.
  io_register_any_accepted :
      (l : Loop P) (holder : EvHolder P.Ev)
      → IsValid l.ios
      → IsValid l.events
      → view l.events h.id ≡ some holder
      → (accepted : (token : ℕ) (w : P.World)
          → (env.register held.io token interest opts w).0 ≡ none)
      → (idx : ℕ) × (l' : Loop P) × (io_register_any env h held interest opts l
          ≡ returns (record { token = idx + token_shift }) l')
        × (view l.ios idx ≡ none)
        × ((j : ℕ) → view l'.ios j ≡ (if j == idx then some h else view l.ios j))
        × ((j : ℕ)
            → view l'.events j ≡ (
                if j == h.id
                then some (record holder { ios = put idx held holder.ios })
                else view l.events j))
        × IsValid l'.ios
        × IsValid l'.events
  unfolding io_register_any finish_register update_holder outside attempt ◌>>=◌
  io_register_any_accepted l holder v ve there accepted =
      let (idx, ios, stored, st) = store-Stored (env.fresh_block l.world).0 l.ios h v in
      let (events, e, u) =
        index_mut-Updated l.events h.id (λ x. record x { ios = put idx held x.ios }) ve there in
      let w = (env.fresh_block l.world).1 in
      (
        idx,
        record l {
          ios = ios;
          events = events;
          world = (env.register held.io (idx + token_shift) interest opts w).1;
        },
        ground (arith, stored, e, accepted (idx + token_shift) w),
        st.is_fresh,
        st.stored,
        u.updated,
        st.still_valid,
        u.still_valid,
      )

  -- When `io_register_any` returns, the token is that of a slot, which now holds the event's handle, and the
  -- event owns the IO under that slot.
  abbrev Registered : EvHolder P.Ev → IoId → Loop P → Type 0
  Registered holder id l' =
      (idx : ℕ) × (id ≡ record { token = idx + token_shift })
      × (view l'.ios idx ≡ some h)
      × (view l'.events h.id ≡ some (record holder { ios = put idx held holder.ios }))

  pub io_register_any_returned :
      (l l' : Loop P) (id : IoId) (holder : EvHolder P.Ev)
      → IsValid l.ios
      → IsValid l.events
      → view l.events h.id ≡ some holder
      → io_register_any env h held interest opts l ≡ returns id l'
      → (idx : ℕ) × (id ≡ record { token = idx + token_shift })
        × (view l'.ios idx ≡ some h)
        × (view l'.events h.id ≡ some (record holder { ios = put idx held holder.ios }))
  unfolding io_register_any finish_register update_holder outside attempt ◌>>=◌
  io_register_any_returned l l' id holder v ve there ran =
      let w = (env.fresh_block l.world).1 in
      let (idx, ios, stored, st) = store-Stored (env.fresh_block l.world).0 l.ios h v in
      let (ios', released, d) =
        release-Released ios idx {x = h} st.still_valid (ground (arith, st.stored idx)) in
      let (events, e, u) =
        index_mut-Updated l.events h.id (λ x. record x { ios = put idx held x.ios }) ve there in
      let answer = env.register held.io (idx + token_shift) interest opts w in
      elim (answer-cases answer.0) [
        | inl accepted ↦
            let out : io_register_any env h held interest opts l
                ≡ returns (record { token = idx + token_shift })
                    (record l { ios = ios; events = events; world = answer.1 }) =
              ground (arith, stored, e, accepted) in
            subst (Ensures (Registered holder)) (sym out ∙ ran)
              (idx, refl, ground (arith, st.stored idx), ground (arith, u.updated h.id))
        | inr (error, refused) ↦
            let out : io_register_any env h held interest opts l
                ≡ fails (io error) (record l { ios = ios'; world = answer.1 }) =
              ground (arith, stored, released, refused) in
            let never : ⊥ = cc (sym out ∙ ran) in absurd never
      ]
