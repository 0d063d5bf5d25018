-- ===== src/Loop/Examples/Scenario.antt =====
-- Runs of the example program.
use eveboros.Base.{ℕ, ◌≡◌, refl}
use eveboros.Outcome.{returns, M, ◌>>=◌, ◌>>◌}
use eveboros.Recycler
use eveboros.Loop.{Loop}
use eveboros.Loop.Run.{loop_insert, loop_run_until_complete}
use eveboros.Loop.Examples.{types, roomy, start, running, value_of}

-- An event that waits for its timeout is gone once `run_until_complete` returns.
waited : M (Loop types) ℕ
waited = do
  h ← loop_insert roomy 9 2
  loop_run_until_complete roomy 9 h
  (λ l. returns (Recycler.len l.events) l)

waited_lem : value_of 7 (waited (start roomy)) ≡ 0
unfolding waited running
waited_lem = refl
