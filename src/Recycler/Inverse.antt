-- ===== src/Recycler/Inverse.antt =====
-- Results of the recycler's operations (src/recycler.rs), read backwards.
use eveboros.Base.{ℕ, ◌≡◌, sym, ap, subst, ◌∙◌, inl, inr, Option-cases, some-inj, some}
use eveboros.Recycler.{Block, Recycler, view, store, release, index_mut}
use eveboros.Recycler.Invariant.{
  IsValid, Stored, Released, Updated, store-Stored, release-Released, index_mut-Updated,
  access_missing,
}

-- What a successful operation shows, read backwards from its result.
module _ {ℓ} {T : Type ℓ} where
  pub store-inv :
      (fresh : Block) (r : Recycler T) (x : T) {idx : ℕ} {r' : Recycler T}
      → IsValid r
      → store fresh r x ≡ some (idx, r')
      → Stored r x idx r'
  store-inv fresh r x v e =
      let (i, s, e', st) = store-Stored fresh r x v in
      subst (λ p. Stored r x p.0 p.1) (some-inj (sym e' ∙ e)) st

  pub release-inv :
      (r : Recycler T) (idx : ℕ) {x : T} {r' : Recycler T}
      → IsValid r
      → release r idx ≡ some (x, r')
      → (view r idx ≡ some x) × Released r idx r'
  release-inv r idx {x} {r'} v e = elim (Option-cases (view r idx)) [
    | inl h ↦ absurd (cc ((access_missing r idx (λ t. t) h).0))
    | inr (y, h) ↦
        let (s, e', d) = release-Released r idx v h in
        let p = some-inj (sym e' ∙ e) in
        (h ∙ ap some (ap (λ q. q.0) p), subst (λ q. Released r idx q) (ap (λ q. q.1) p) d)
  ]

  pub index_mut-inv :
      (r : Recycler T) (idx : ℕ) (f : T → T) {r' : Recycler T}
      → IsValid r
      → index_mut r idx f ≡ some r'
      → (x : T) × (view r idx ≡ some x) × Updated r idx (f x) r'
  index_mut-inv r idx f v e = elim (Option-cases (view r idx)) [
    | inl h ↦ absurd (cc ((access_missing r idx f h).2))
    | inr (x, h) ↦
        let (s, e', u) = index_mut-Updated r idx f v h in
        (x, h, subst (Updated r idx (f x)) (some-inj (sym e' ∙ e)) u)
  ]
