-- ===== src/Adapt/Dispatch.antt =====
-- The dispatch of `combined!` (src/adapt.rs): what the loop sees of a combined event.
use eveboros.Base.{◌≡◌, refl, Bool}
use eveboros.Error.{Result}
use eveboros.Outcome.{Outcome, returns, fails, panic, out_of_fuel, M, attempt, continue, ◌>>=◌}
use eveboros.Loop.{
  Types, Loop, Event, Callback, respond, get_context, effect, abort, set_context, ask, Op, Reply,
  TaskParam, io_ready, timeout, signal, message, child, idle, react,
}
use eveboros.Loop.Events.{run_script}
use eveboros.Adapt.{in_place, combined, from}

-- The same outcome, with the event that it returns put elsewhere.
abbrev pub placed :
    {S A B : Type 0} → (A → B) → Outcome S (A × Result Bool) → Outcome S (B × Result Bool)
placed f (returns (ev, response) s) = returns (f ev, response) s
placed f (fails e s) = fails e s
placed f panic = panic
placed f out_of_fuel = out_of_fuel

module _ {P : Types} (request : Op P → M (Loop P) Reply) where
  placed-continue :
      {A B : Type 0} (f : A → B) (o : Outcome (Loop P) (Result Reply))
      (k k' : Result Reply → M (Loop P) (A × Result Bool))
      (m : Result Reply → M (Loop P) (B × Result Bool))
      → ((r : Result Reply) (l : Loop P) → m r l ≡ placed f (k r l))
      → continue o m ≡ placed f (continue o k)
  placed-continue f (returns r l) k k' m same = same r l
  placed-continue f (fails e l) k k' m same = refl
  placed-continue f panic k k' m same = refl
  placed-continue f out_of_fuel k k' m same = refl

  run_script-in_place :
      {A B : Type 0} (f : A → B) (s : Callback P A) (l : Loop P)
      → run_script request (in_place f s) l ≡ placed f (run_script request s l)
  unfolding run_script in_place ◌>>=◌
  run_script-in_place f (respond ev response) l = refl
  run_script-in_place f (get_context k) l = run_script-in_place f (k l.context) l
  run_script-in_place f (effect change k) l =
      run_script-in_place f (k l.world) (record l { world = change l.world })
  run_script-in_place f abort l = refl
  run_script-in_place f (set_context c s) l = run_script-in_place f s (record l { context = c })
  run_script-in_place f (ask op k) l =
      placed-continue f (attempt (request op) l) (λ r. run_script request (k r))
        (λ r. run_script request (k r)) _ (λ r l'. run_script-in_place f (k r) l')

module _ {P : Types} (request : Op P → M (Loop P) Reply) {I : Type 0} {Sub : I → Type 0}
    (events : (i : I) → Event P (Sub i)) where
  -- Whatever a combined event is called for, its insertion or any task: the loop sees exactly the requests
  -- of the variant's own event, with the same answers and effects, and what that event leaves behind is
  -- again a value of the same variant, with the same response.
  pub run_script-combined :
      (i : I) (ev : Sub i) (param : TaskParam) (l : Loop P)
      → (run_script request ((combined events).init (from i ev)) l
          ≡ placed (from i) (run_script request ((events i).init ev) l))
        × (run_script request (react (combined events) param (from i ev)) l
            ≡ placed (from i) (run_script request (react (events i) param ev) l))
  unfolding combined
  run_script-combined i ev param l = (run_script-in_place request (from i) _ l, reacted param)
    where
      reacted :
          (param : TaskParam)
          → run_script request (react (combined events) param (from i ev)) l
            ≡ placed (from i) (run_script request (react (events i) param ev) l)
      reacted (io_ready id ready) = run_script-in_place request (from i) _ l
      reacted (timeout id) = run_script-in_place request (from i) _ l
      reacted (signal signum) = run_script-in_place request (from i) _ l
      reacted (message m) = run_script-in_place request (from i) _ l
      reacted (child pid exit) = run_script-in_place request (from i) _ l
      reacted idle = run_script-in_place request (from i) _ l
