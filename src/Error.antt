-- ===== src/Error.antt =====
-- src/error.rs: the error type, its texts, and the result that fallible operations return.
-- The errors of std::io and nix and the boxed user errors are opaque: what the code reads of them is
-- an argument (`Texts`).
use Prim.Native.String.{String}
use eveboros.Base.{ℕ, Option, none, some}

-- std::io::Error, as far as the code looks at it: its kind is `Interrupted`, `WouldBlock`
-- or another.
pub data IoError : Type 0 where
  interrupted would_block : IoError
  other_io : ℕ → IoError

-- nix::Error. `eagain` and `echild` are the two numbers that the code tests for.
pub data Errno : Type 0 where
  eagain echild : Errno
  other_errno : ℕ → Errno

pub data NixError : Type 0 where
  sys : Errno → NixError
  invalid_path : NixError

pub data Error : Type 0 where
  io : IoError → Error
  nix : NixError → Error
  default_impl dead_lock missing missing_io busy empty io_type : Error
  msg_type msg_unexpected loop_gone background_panicked iter_end : Error
  user : Option ℕ → Error
  user_str : String → Error

pub data Result {ℓ} (A : Type ℓ) : Type ℓ where
  ok : A → Result A
  err : Error → Result A

-- `description` and `cause` of the errors that other crates define. An error that is nobody's cause
-- has none.
pub record Texts (Cause : Type 0) : Type 0 where
  pub io_description : IoError → String
  pub nix_description : NixError → String
  pub user_description : ℕ → String
  pub io_cause : IoError → Cause
  pub nix_cause : NixError → Cause
  pub user_cause : ℕ → Option Cause

module _ {Cause : Type 0} (texts : Texts Cause) where
  pub description : Error → String
  description (io e) = texts.io_description e
  description (nix e) = texts.nix_description e
  description default_impl =
      "The default Event implementation called (if you register something, handle it)"
  description dead_lock = "An event recursively waits for itself to finish"
  description missing = "Referring to a non-existing event"
  description missing_io = "Referring to a non-existing IO"
  description busy = "Can't call callbacks on an event that is already in a callback"
  description empty = "The event loop has no events and wants to run (it would never finish"
  description io_type = "The requested IO is of a different type"
  description msg_type = "The message is of a different type"
  description msg_unexpected = "Sending a message of a type not expected by the event"
  description loop_gone = "The loop the Channel leads to no longer exists"
  description background_panicked = "The background task panicked"
  description iter_end = "An iterator ended (which may be OK)"
  description (user none) = "User error (no content)"
  description (user (some e)) = texts.user_description e
  description (user_str text) = text

  pub cause : Error → Option Cause
  cause (io e) = some (texts.io_cause e)
  cause (nix e) = some (texts.nix_cause e)
  cause (user (some e)) = texts.user_cause e
  cause _ = none
