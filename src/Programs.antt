-- ===== src/Programs.antt =====
-- The programs under src/examples/ and src/tests/, as events of the loop.
pub mod Echo
pub mod Pargs
pub mod Handling
use eveboros.Error.{IoError}

-- `std::io::Result`
pub data IoResult (A : Type 0) : Type 0 where
  done : A → IoResult A
  failed : IoError → IoResult A
