-- ===== src/Message/Examples.antt =====
-- The theorems on messages of src/core.rs at single messages and tasks.
use eveboros.Base.{◌≡◌, true, [], ◌∷◌}
use eveboros.Error.{ok, err, background_panicked, iter_end}
use eveboros.Any.{Ty, nominal}
use eveboros.Handle.{Handle, BackgroundId}
use eveboros.Message.{background, finished, panicked, run_background, run_background_iter}
use eveboros.Message.Background.{received, received-background, received-background_iter}

abbrev number : Ty
number = nominal 4

abbrev requestor : Handle
requestor = record { id = 0; generation = 2 }

abbrev task : BackgroundId
task = record { number = 6 }

received-background_example :
    received number (run_background requestor number task panicked)
    ≡ (requestor, background task, err background_panicked) ∷ []
received-background_example = received-background requestor number task panicked

received-background_iter_example :
    received number (
      run_background_iter requestor number task
        (finished (ok (record { items = 1 ∷ 2 ∷ []; ends = true }))))
    ≡ (requestor, background task, ok 1)
      ∷ (requestor, background task, ok 2)
      ∷ (requestor, background task, err iter_end)
      ∷ []
received-background_iter_example =
    received-background_iter requestor number task
      (finished (ok (record { items = 1 ∷ 2 ∷ []; ends = true })))
