-- ===== src/Loop/Gather/Signals.antt =====
-- What a look at the flags of the signals does to the tasks (src/core.rs, `tasks_gather_io`).
use eveboros.Base.{
  ℕ, ◌≡◌, refl, sym, ap, ◌∙◌, Option, none, some, List, [], ◌∷◌, ◌++◌, lookup, nat_eq,
}
use mathlib.Core.List.{append-nil, append_assoc}
use eveboros.Error.{sys, invalid_path, eagain, echild, other_errno}
use eveboros.Handle.{Handle}
use eveboros.Outcome.Safe.{Safe, bind-Safe, unwrap-bind-Safe, modify-bind-Safe}
use eveboros.Loop.{
  Types, Loop, Env, Task, TaskParam, io_ready, timeout, signal, message, child, idle, ChildExit,
  WaitAnswer, status, wait_error, WaitStatus, still_alive, other_status,
}
use eveboros.Loop.Gather.{release_child, push_found, push_child, reap, children_gather}

-- The signal that a task announces.
abbrev pub signal_of : Handle → TaskParam → List (Handle × ℕ)
signal_of h (signal signum) = (h, signum) ∷ []
signal_of h (io_ready id ready) = []
signal_of h (timeout id) = []
signal_of h (message m) = []
signal_of h (child pid exit) = []
signal_of h idle = []

-- Who is told of which signal, in order.
abbrev pub signal_tasks : List Task → List (Handle × ℕ)
signal_tasks [] = []
signal_tasks (t ∷ ts) = signal_of t.recipient t.param ++ signal_tasks ts

pub signal_tasks-append :
    (xs ys : List Task) → signal_tasks (xs ++ ys) ≡ signal_tasks xs ++ signal_tasks ys
signal_tasks-append [] ys = refl
signal_tasks-append (x ∷ xs) ys =
    ap (λ l. signal_of x.recipient x.param ++ l) (signal_tasks-append xs ys)
    ∙ sym (append_assoc (signal_of x.recipient x.param) (signal_tasks xs) (signal_tasks ys))

module _ {P : Types} where
  -- Nothing was done about signals.
  abbrev pub Kept : Loop P → Loop P → Type 0
  Kept l l' =
      (signal_tasks l'.scheduled ≡ signal_tasks l.scheduled)
      × (l'.signal_recipients ≡ l.signal_recipients)
      × (l'.world ≡ l.world)

  push_found-Kept :
      (l0 : Loop P) (pid : ℕ) (exit : ChildExit) (o : Option Handle) (l : Loop P)
      → Kept l0 l
      → Safe (Kept l0) (push_found pid exit o l)
  unfolding push_found release_child
  push_found-Kept l0 pid exit none l i = i
  push_found-Kept l0 pid exit (some h) l (tasks, recipients, world) =
      modify-bind-Safe (Kept l0) _ _ l (
        bind-Safe (Kept l0) _ _ _
          (unwrap-bind-Safe (Kept l0) _ _ _ (λ holder there.
            unwrap-bind-Safe (Kept l0) _ _ _
              (λ _ _. unwrap-bind-Safe (Kept l0) _ _ _ (λ _ _. (tasks, recipients, world)))))
          (λ _ l' (t, r, w). (signal_tasks-append l'.scheduled _ ∙ (append-nil _ ∙ t), r, w)))

  push_child-Kept :
      (l0 : Loop P) (pid : ℕ) (exit : ChildExit) (l : Loop P)
      → Kept l0 l
      → Safe (Kept l0) (push_child pid exit l)
  unfolding push_child
  push_child-Kept l0 pid exit l i = push_found-Kept l0 pid exit (lookup pid l.children) l i

  reap-Kept :
      (l0 : Loop P) (answers : List WaitAnswer) (l : Loop P)
      → Kept l0 l
      → Safe (Kept l0) (reap answers l)
  unfolding reap
  reap-Kept l0 [] l i = tt
  reap-Kept l0 (wait_error (sys eagain) ∷ rest) l i = i
  reap-Kept l0 (wait_error (sys echild) ∷ rest) l i = i
  reap-Kept l0 (wait_error (sys (other_errno n)) ∷ rest) l i = i
  reap-Kept l0 (wait_error invalid_path ∷ rest) l i = i
  reap-Kept l0 (status still_alive ∷ rest) l i = i
  reap-Kept l0 (status other_status ∷ rest) l i = reap-Kept l0 rest l i
  reap-Kept l0 (status (WaitStatus.exited pid code) ∷ rest) l i =
      bind-Safe (Kept l0) _ _ l (push_child-Kept l0 pid (ChildExit.exited code) l i)
        (λ _ l' i'. reap-Kept l0 rest l' i')
  reap-Kept l0 (status (WaitStatus.signaled pid s) ∷ rest) l i =
      bind-Safe (Kept l0) _ _ l (push_child-Kept l0 pid (ChildExit.signaled s) l i)
        (λ _ l' i'. reap-Kept l0 rest l' i')

  -- Collecting the children tells nobody of a signal, and leaves what `waitpid` left outside.
  pub children_gather-Kept :
      (env : Env P) (l : Loop P)
      → Safe (Kept (record l { world = (env.waits l.world).1 })) (children_gather env l)
  unfolding children_gather
  children_gather-Kept env l =
      reap-Kept (record l { world = (env.waits l.world).1 }) (env.waits l.world).0
        (record l { world = (env.waits l.world).1 }) (refl, refl, refl)
