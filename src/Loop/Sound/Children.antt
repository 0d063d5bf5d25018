-- ===== src/Loop/Sound/Children.antt =====
-- The assertion on the children of an event (src/core.rs, `children_gather`) never fails.
use eveboros.Base.{
  ℕ, ◌≡◌, ◌≢◌, refl, subst, true, Option, none, some, List, [], ◌∷◌, arith, lookup, member,
  Option-cases, inl, inr, nat_eq,
}
use eveboros.Error.{sys, invalid_path, eagain, echild, other_errno}
use eveboros.Outcome.{returns, panic, ◌>>=◌, ◌>>◌}
use eveboros.Outcome.Safe.{Safe}
use eveboros.Recycler.{view}
use eveboros.Loop.{
  Types, Loop, Env, EvHolder, ChildExit, WaitAnswer, status, wait_error, WaitStatus, still_alive,
  other_status,
}
use eveboros.Loop.Gather.{push_found, push_child, reap, children_gather}
use eveboros.Loop.Gather.Children.{push_child_lem}
use eveboros.Loop.Local.{On}
use eveboros.Loop.Local.Gathering.{push_child-Local}
use eveboros.Loop.Sound.{Sound, Sound-Local, knows}

-- A slot that knows of a child holds something.
knows-some :
    {Ev : Type 0} (o : Option (EvHolder Ev)) (pid : ℕ)
    → knows o pid ≡ true
    → (holder : EvHolder Ev) × (o ≡ some holder) × (member pid holder.children ≡ true)
knows-some none pid h = absurd (ground (arith, h))
knows-some (some holder) pid h = (holder, refl, h)

module _ {P : Types} where
  -- In a well-formed loop the exit of any child is handled without a panic, and the loop stays well-formed.
  push_child_total :
      (pid : ℕ) (exit : ChildExit) (l : Loop P)
      → On P (Sound P) l
      → (l' : Loop P) × (push_child pid exit l ≡ returns tt l') × On P (Sound P) l'
  unfolding push_child push_found
  push_child_total pid exit l s = elim (Option-cases (lookup pid l.children)) [
    | inl gone ↦ (l, ground (arith, gone), s)
    | inr (h, tracked) ↦
        let (holder, there, known) =
          knows-some (view l.events h.id) pid (s.tracked pid h tracked) in
        let (l', e, _, _, _) =
          push_child_lem pid exit h holder l s.events_valid tracked there known in
        (l', e, subst (Safe (On P (Sound P))) e (push_child-Local (Sound-Local P) pid exit l s))
  ]

  reap_rest :
      (pid : ℕ) (exit : ChildExit) (rest : List WaitAnswer) (l : Loop P)
      → On P (Sound P) l
      → ((l' : Loop P) → On P (Sound P) l' → reap rest l' ≢ panic)
      → (push_child pid exit >> reap rest) l ≢ panic
  unfolding ◌>>=◌
  reap_rest pid exit rest l s never =
      let (l', e, s') = push_child_total pid exit l s in rw e (never l' s')

  reap_safe : (answers : List WaitAnswer) (l : Loop P) → On P (Sound P) l → reap answers l ≢ panic
  unfolding reap
  reap_safe [] l s = λ e. ground (arith, e)
  reap_safe (wait_error (sys eagain) ∷ rest) l s = λ e. ground (arith, e)
  reap_safe (wait_error (sys echild) ∷ rest) l s = λ e. ground (arith, e)
  reap_safe (wait_error (sys (other_errno n)) ∷ rest) l s = λ e. ground (arith, e)
  reap_safe (wait_error invalid_path ∷ rest) l s = λ e. ground (arith, e)
  reap_safe (status still_alive ∷ rest) l s = λ e. ground (arith, e)
  reap_safe (status other_status ∷ rest) l s = reap_safe rest l s
  reap_safe (status (WaitStatus.exited pid code) ∷ rest) l s =
      reap_rest pid (ChildExit.exited code) rest l s (reap_safe rest)
  reap_safe (status (WaitStatus.signaled pid signum) ∷ rest) l s =
      reap_rest pid (ChildExit.signaled signum) rest l s (reap_safe rest)

  -- In a well-formed loop, collecting the children that terminated never panics, whatever `waitpid`
  -- answers: the event of a tracked child is there, and the assertion that it knows of the child holds.
  pub children_gather_safe :
      (env : Env P) (l : Loop P)
      → Sound P l.events l.ios l.timeouts l.children
      → children_gather env l ≢ panic
  unfolding children_gather
  children_gather_safe env l s =
      reap_safe (env.waits l.world).0 (record l { world = (env.waits l.world).1 }) s
