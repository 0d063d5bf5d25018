-- ===== src/Message/Background.antt =====
-- Background tasks, from their end to the receiver's `Message::get` (src/core.rs).
use eveboros.Base.{
  Bool, ◌≡◌, refl, sym, ap, ◌∙◌, true, false, List, [], ◌∷◌, ◌++◌, map, if◌then◌else◌,
}
use mathlib.Core.List.{map-append}
use eveboros.Error.{Result, ok, err, background_panicked, iter_end}
use eveboros.Any.{Ty, Value, result}
use eveboros.Handle.{Handle, BackgroundId}
use eveboros.Message.{
  RemoteMessage, DeliveryMode, background, get, to_message, Run, finished, panicked, run_background,
  send_value, Items, run_background_iter,
}
use eveboros.Message.Get.{get-background}

-- To whom each message goes, how it is delivered, and what the receiver extracts at the task's type.
abbrev pub received :
    (t : Ty) → List RemoteMessage → List (Handle × DeliveryMode × Result (Value t))
received t = map λ m. (m.recipient, m.mode, get t (to_message m))

-- The result that a task stands for.
abbrev pub outcome : {A : Type 0} → Run (Result A) → Result A
outcome (finished r) = r
outcome panicked = err background_panicked

-- Whatever way a background task ends, exactly one message is sent: it goes to the requestor under the
-- task's id, and extracting it gives the task's own result, or `BackgroundPanicked` if the task panicked.
pub received-background :
    (handle : Handle) (t : Ty) (id : BackgroundId) (r : Run (Result (Value t)))
    → received t (run_background handle t id r) ≡ (handle, background id, outcome r) ∷ []
unfolding run_background to_message
received-background handle t id (finished r) =
    ap (λ x. (handle, background id, x) ∷ []) (get-background t r t id)
received-background handle t id panicked =
    ap (λ x. (handle, background id, x) ∷ [])
      (get-background t (err background_panicked) (result t) id)

-- The messages of `background_iter`, as the receiver reads them: the items in order, then the mark of
-- the end if the iterator ended.
abbrev pub outcomes : {A : Type 0} → Run (Result (Items A)) → List (Result A)
outcomes (finished (ok iter)) = map ok iter.items ++ (if iter.ends then err iter_end ∷ [] else [])
outcomes (finished (err e)) = err e ∷ []
outcomes panicked = []

module _ (handle : Handle) (t : Ty) (id : BackgroundId) where
  -- A result as the requestor receives it under the task's id.
  abbrev addressed : Result (Value t) → Handle × DeliveryMode × Result (Value t)
  addressed r = (handle, background id, r)

  received-send_value :
      (r : Result (Value t)) (rest : List RemoteMessage)
      → received t (send_value handle t id r ∷ rest) ≡ addressed r ∷ received t rest
  unfolding send_value to_message
  received-send_value r rest =
      ap (λ x. (handle, background id, x) ∷ received t rest) (get-background t r t id)

  received-items :
      (vs : List (Value t)) (rest : List RemoteMessage)
      → received t (map (λ v. send_value handle t id (ok v)) vs ++ rest)
        ≡ map addressed (map ok vs) ++ received t rest
  received-items [] rest = refl
  received-items (v ∷ vs) rest =
      received-send_value (ok v) (map (λ x. send_value handle t id (ok x)) vs ++ rest)
      ∙ ap (λ x. addressed (ok v) ∷ x) (received-items vs rest)

  received-end :
      (ends : Bool)
      → received t (if ends then send_value handle t id (err iter_end) ∷ [] else [])
        ≡ map addressed (if ends then err iter_end ∷ [] else [])
  received-end true = received-send_value (err iter_end) []
  received-end false = refl

  -- An iterator task sends its requestor, under the task's id and as messages from which the receiver
  -- extracts just these results: its items in their order and then `IterEnd` if the iterator ended; if
  -- the task failed, only its error; and if it panicked before it gave an iterator, nothing.
  pub received-background_iter :
      (r : Run (Result (Items (Value t))))
      → received t (run_background_iter handle t id r)
        ≡ map (λ x. (handle, background id, x)) (outcomes r)
  unfolding run_background_iter
  received-background_iter (finished (ok iter)) =
      received-items iter.items _
      ∙ ap (λ x. map addressed (map ok iter.items) ++ x) (received-end iter.ends)
      ∙ sym (map-append addressed (map ok iter.items) _)
  received-background_iter (finished (err e)) = received-send_value (err e) []
  received-background_iter panicked = refl

-- The type that a background message announces differs with the way the task ended: the type of the
-- result, but the type of a `Result` around it after a panic.
real_type-background :
    (handle : Handle) (t : Ty) (id : BackgroundId) (r : Result (Value t))
    → (map (λ m. m.real_type) (run_background handle t id (finished r)) ≡ t ∷ [])
      × (map (λ m. m.real_type) (run_background handle t id panicked) ≡ result t ∷ [])
unfolding run_background
real_type-background handle t id r = (refl, refl)
