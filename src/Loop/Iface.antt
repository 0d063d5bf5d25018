-- ===== src/Loop/Iface.antt =====
-- The methods with a body of the traits `LoopIface`, `ScopeObjSafe` and `Scope` (src/core.rs), as code of
-- callbacks. What follows the call is the continuation `k`, which gets what the method returned.
pub mod Watched
use eveboros.Base.{ℕ, ◌+◌, Option, none, some}
use eveboros.Error.{Error, Result, ok, err, io_type}
use eveboros.Any.{Any, Ty, Value, box, downcast}
use eveboros.Handle.{Handle, IoId}
use eveboros.Loop.{
  Types, Callback, respond, get_context, set_context, ask, effect, abort, Op, insert_exact,
  send_impl, post_impl, now, timeout_at, handle, io_register_any, io_mut, Reply, of_number,
  of_handle, of_any,
}

module _ {P : Types} {E : Type 0} where
  -- `?`, with the event as it is at this point.
  unfoldable pub or_return : {A : Type 0} → E → (A → Callback P E) → Result A → Callback P E
  or_return ev k (ok a) = k a
  or_return ev k (err e) = respond ev (err e)

  unfoldable pub insert :
      {A : Type 0} → (A → P.Ev) → A → (Result Reply → Callback P E) → Callback P E
  insert into event k = ask (insert_exact (into event)) k

  unfoldable pub with_context :
      {R : Type 0} → (P.Context → Result R × P.Context) → (Result R → Callback P E) → Callback P E
  with_context f k = get_context (λ c. let (r, c') = f c in set_context c' (k r))

  unfoldable pub send : Handle → (t : Ty) → Value t → (Result Reply → Callback P E) → Callback P E
  send h t data' k = ask (send_impl h (box t data') t) k

  unfoldable pub post : Handle → (t : Ty) → Value t → (Result Reply → Callback P E) → Callback P E
  post h t data' k = ask (post_impl h (box t data') t) k

  -- The scope answers `now` with a number and `handle` with a handle, and nothing else.
  unfoldable pub at_now : ℕ → (Result Reply → Callback P E) → Result Reply → Callback P E
  at_now after k (ok (of_number n)) = ask (timeout_at (n + after)) k
  at_now after k _ = abort

  unfoldable pub timeout_after : ℕ → (Result Reply → Callback P E) → Callback P E
  unfolding at_now
  timeout_after after k = ask now (at_now after k)

  unfoldable pub register_for :
      Any → ℕ → ℕ → (Result Reply → Callback P E) → Result Reply → Callback P E
  register_for content interest opts k (ok (of_handle h)) =
      ask (io_register_any (record { recipient = h; io = content }) interest opts) k
  register_for content interest opts k _ = abort

  unfoldable pub io_register : Any → ℕ → ℕ → (Result Reply → Callback P E) → Callback P E
  unfolding register_for
  io_register content interest opts k = ask handle (register_for content interest opts k)

  -- The function that `with_io` is given works through the IO on something outside, as a read from a
  -- socket does, and leaves the IO itself as it is.
  unfoldable pub through :
      {R : Type 0} {V : Type 0}
      → (V → P.World → Result R × P.World)
      → (Result R → Callback P E)
      → Option V
      → Callback P E
  through f k none = k (err io_type)
  through f k (some v) = effect (λ w. (f v w).1) (λ w. k (f v w).0)

  unfoldable pub found_io :
      {R : Type 0} (t : Ty)
      → (Value t → P.World → Result R × P.World)
      → (Result R → Callback P E)
      → Result Reply
      → Callback P E
  unfolding through
  found_io t f k (ok (of_any content)) = through f k (downcast t content)
  found_io t f k (ok _) = abort
  found_io t f k (err e) = k (err e)

  unfoldable pub with_io :
      {R : Type 0} (t : Ty)
      → IoId
      → (Value t → P.World → Result R × P.World)
      → (Result R → Callback P E)
      → Callback P E
  unfolding found_io
  with_io t id f k = ask (io_mut id) (found_io t f k)
