-- ===== src/Loop/Scope/Ready.antt =====
-- A registered IO that mio reports calls the event that registered it (src/core.rs, `io_register_any`,
-- `tasks_gather_io` and `run_one`).
use eveboros.Base.{nat_eq}
use eveboros.Handle.{Handle}
use eveboros.Recycler
use eveboros.Loop.{Loop}
