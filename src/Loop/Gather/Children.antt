-- ===== src/Loop/Gather/Children.antt =====
-- A child that terminated (src/core.rs, the closure `push` of `children_gather`).
use eveboros.Base.{
  ℕ, ◌≡◌, refl, true, none, some, [], ◌∷◌, ◌++◌, arith, ◌==◌, if◌then◌else◌, nat_eq, lookup,
  without, lookup-without, member, remove,
}
use eveboros.Handle.{Handle}
use eveboros.Outcome.{returns, ◌>>=◌}
use eveboros.Recycler.{view}
use eveboros.Recycler.Invariant.{IsValid, index_mut-Updated, index-view}
use eveboros.Loop.{Types, Loop, EvHolder, ChildExit, child}
use eveboros.Loop.Gather.{release_child, push_found, push_child}

module _ {P : Types} where
  -- The exit of a child that an event tracks schedules exactly one task for that event, behind the others;
  -- the child is then forgotten by the loop and by the event, other children and other events stay. The
  -- assertion of the code holds as long as the event knows of the child.
  pub push_child_lem :
      (pid : ℕ) (exit : ChildExit) (h : Handle) (holder : EvHolder P.Ev) (l : Loop P)
      → IsValid l.events
      → lookup pid l.children ≡ some h
      → view l.events h.id ≡ some holder
      → member pid holder.children ≡ true
      → (l' : Loop P) × (push_child pid exit l ≡ returns tt l')
        × (l'.scheduled ≡ l.scheduled ++ record { recipient = h; param = child pid exit } ∷ [])
        × ((p : ℕ) → lookup p l'.children ≡ (if p == pid then none else lookup p l.children))
        × ((j : ℕ)
            → view l'.events j ≡ (
                if j == h.id
                then some (record holder { children = remove pid holder.children })
                else view l.events j))
  unfolding push_child push_found release_child ◌>>=◌
  push_child_lem pid exit h holder l v tracked there known =
      let (events, e, u) =
        index_mut-Updated l.events h.id (λ x. record x { children = remove pid x.children }) v
          there in
      (
        record l {
          events = events;
          children = without pid l.children;
          scheduled = l.scheduled ++ record { recipient = h; param = child pid exit } ∷ [];
        },
        ground (arith, tracked, there, known, e, index-view l.events h.id),
        refl,
        λ p. lookup-without pid p l.children,
        u.updated,
      )
