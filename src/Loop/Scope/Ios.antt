-- ===== src/Loop/Scope/Ios.antt =====
-- Removing an IO (src/core.rs, `io_remove`), and what it does to the next round of the loop.
use eveboros.Base.{
  ℕ, ◌≡◌, sym, subst, true, Option, none, some, List, [], ◌∷◌, arith, add, member, member-add,
  nat_eq, lookup, Option-cases, inl, inr,
}
use eveboros.Error.{IoError}
use eveboros.Handle.{Handle, IoId}
use eveboros.Outcome.{returns, panic, ◌>>=◌}
use eveboros.Recycler
use eveboros.Recycler.{Recycler, view}
use eveboros.Recycler.Invariant.{IsValid}
use eveboros.Recycler.Inverse.{release-inv}
use mathlib.Core.Path.{subst₂}
use eveboros.Loop.{Types, Loop, Env, EvHolder}
use eveboros.Loop.Events.{outside}
use eveboros.Loop.Gather.{drain_released, tasks_gather}
use eveboros.Loop.Scope.{io_idx, io_at, update_holder, io_remove}
use eveboros.Outcome.Ensures.{
  Ensures, bind-Ensures, unwrap-bind-Ensures, modify-bind-Ensures, unwrap-Ensures,
}

-- An id whose slot is already free waits to be freed.
pub record FreedTwice (ios : Recycler Handle) (ios_released : List ℕ) : Type 0 where
  pub idx : ℕ
  pub waits : member idx ios_released ≡ true
  pub is_free : view ios idx ≡ none
  pub valid : IsValid ios

module _ {P : Types} where
  -- Draining the released ids panics if one of them is free already.
  drain-panic :
      (idx : ℕ) (ids : List ℕ) (l : Loop P)
      → member idx ids ≡ true
      → view l.ios idx ≡ none
      → IsValid l.ios
      → drain_released ids l ≡ panic
  unfolding drain_released member ◌>>=◌
  drain-panic idx [] l m free v = absurd (cc m)
  drain-panic idx (id ∷ ids) l m free v = elim (Option-cases (Recycler.release l.ios id)) [
    | inl e ↦ ground arith
    | inr ((x, ios), e) ↦
        let (there, d) = release-inv l.ios id v e in
        let rest =
          drain-panic idx ids (record l { ios = ios }) (ground (arith, there, free))
            (ground (arith, d.gone idx)) d.still_valid in
        ground (arith, rest)
  ]

  drain-FreedTwice :
      (l : Loop P) → FreedTwice l.ios l.ios_released → drain_released l.ios_released l ≡ panic
  drain-FreedTwice l t = drain-panic t.idx l.ios_released l t.waits t.is_free t.valid

  idx-valid :
      (h : Handle) (id : IoId) (l : Loop P)
      → IsValid l.ios
      → Ensures (λ k l'. IsValid l'.ios) (io_idx h id l)
  unfolding io_idx
  idx-valid h id l v = ground arith

  at-valid :
      (h : Handle) (k : ℕ) (l : Loop P)
      → IsValid l.ios
      → Ensures (λ _ l'. IsValid l'.ios) (io_at h k l)
  unfolding io_at
  at-valid h k l v =
      unwrap-bind-Ensures _ _ _ l (λ holder _. unwrap-Ensures _ (lookup k holder.ios) l (λ _ _. v))

  update-valid :
      (h : Handle) (f : EvHolder P.Ev → EvHolder P.Ev) (l : Loop P)
      → IsValid l.ios
      → Ensures (λ _ l'. IsValid l'.ios) (update_holder h f l)
  unfolding update_holder
  update-valid h f l v = unwrap-bind-Ensures _ _ _ l (λ _ _. v)

  outside-FreedTwice :
      (call : P.World → Option IoError × P.World) (l : Loop P)
      → FreedTwice l.ios l.ios_released
      → Ensures (λ _ l'. FreedTwice l'.ios l'.ios_released) (outside call l)
  unfolding outside
  outside-FreedTwice call l t = ground arith

module _ {P : Types} (env : Env P) where
  -- A loop with such an id panics as soon as it has to gather new tasks.
  pub tasks_gather-panic :
      (l : Loop P) → l.scheduled ≡ [] → FreedTwice l.ios l.ios_released → tasks_gather env l ≡ panic
  unfolding tasks_gather ◌>>=◌
  tasks_gather-panic l idle t = ground (arith, drain-FreedTwice l t)

  io_remove-FreedTwice :
      (h : Handle) (id : IoId) (l : Loop P)
      → IsValid l.ios
      → Ensures (λ _ l'. FreedTwice l'.ios l'.ios_released) (io_remove env h id l)
  unfolding io_remove
  io_remove-FreedTwice h id l v =
      bind-Ensures (λ _ l'. IsValid l'.ios) Q _ _ l (idx-valid h id l v)
        (λ k l₁ v₁.
          bind-Ensures (λ _ l'. IsValid l'.ios) Q _ _ l₁ (at-valid h k l₁ v₁)
            (λ held l₂ v₂.
              bind-Ensures (λ _ l'. IsValid l'.ios) Q _ _ l₂ (update-valid h _ l₂ v₂)
                (λ _ l₃ v₃.
                  bind-Ensures (λ _ l'. (view l'.ios k ≡ none) × IsValid l'.ios) Q _ _ l₃
                    (unwrap-bind-Ensures _ _ _ l₃ (λ p e. freed k l₃ v₃ e))
                    (λ _ l₄ v₄. modify-bind-Ensures Q _ _ l₄ (
                      outside-FreedTwice (env.deregister held.io)
                        (record l₄ { ios_released = add k l₄.ios_released })
                        (record {
                          idx = k;
                          waits = ground (arith, member-add k k l₄.ios_released);
                          is_free = v₄.0;
                          valid = v₄.1;
                        }))))))
    where
      freed :
          (k : ℕ) (l' : Loop P) {p : Handle × Recycler Handle}
          → IsValid l'.ios
          → Recycler.release l'.ios k ≡ some p
          → (view p.1 k ≡ none) × IsValid p.1
      freed k l' v e =
          let (_, d) = release-inv l'.ios k v e in (ground (arith, d.gone k), d.still_valid)

      Q : Unit {0} → Loop P → Type 0
      Q _ l' = FreedTwice l'.ios l'.ios_released

  -- After `io_remove` succeeds, the loop panics the next time it runs out of scheduled tasks and gathers
  -- new ones: the slot of the IO is freed at once and put aside to be freed again. It holds whatever
  -- follows the removal, as long as no IO is registered or removed and nothing is gathered in between.
  pub tasks_gather-io_remove :
      (h : Handle) (id : IoId) (l l' m : Loop P)
      → IsValid l.ios
      → io_remove env h id l ≡ returns tt l'
      → m.ios ≡ l'.ios
      → m.ios_released ≡ l'.ios_released
      → m.scheduled ≡ []
      → tasks_gather env m ≡ panic
  tasks_gather-io_remove h id l l' m v removed same_ios same_released idle =
      let twice =
        subst (Ensures (λ _ n. FreedTwice n.ios n.ios_released)) removed
          (io_remove-FreedTwice h id l v) in
      tasks_gather-panic m idle (subst₂ FreedTwice (sym same_ios) (sym same_released) twice)
