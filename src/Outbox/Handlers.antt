-- ===== src/Outbox/Handlers.antt =====
-- commons/outbox/handler.go: the registry of event handlers. A handler is a function of the event
-- and of the world that it acts on; it answers no error or one of the type X.
use lib_commons.Base.{ℕ, Bool, true, false, List, Option, none, some, if◌then◌else◌}
use lib_commons.Base.Result.{Result, ok, err, ◌>>◌, refuse}
use lib_commons.Base.Runes.{Runes, trim_space, is_empty_text, text_key}
use lib_commons.Base.Assoc.{find, put}
use lib_commons.Outbox.Repository.{OutboxEvent}

-- The errors of a publish: those of the package, one of a handler or of a wait, and the wrappers that
-- publishEventWithRetry puts round them.
pub data PublishError (X : Type 0) : Type 0 where
  payload_required type_required not_registered stuck_attempts_exhausted : PublishError X
  handler_failed : X → PublishError X
  attempt_failed : ℕ → ℕ → PublishError X → PublishError X
  wait_interrupted : X → PublishError X

pub data RegistryError : Type 0 where
  event_type_required handler_required already_registered : RegistryError

abbrev pub Handler : Type 0 → Type 0 → Type 0
Handler W X = OutboxEvent → W → Option X × W

abbrev pub HandlerRegistry : Type 0 → Type 0 → Type 0
HandlerRegistry W X = List (Runes × Handler W X)

-- Whether a map holds a key.
abbrev pub is_taken {ℓ} : {A : Type ℓ} → Option A → Bool
is_taken none = false
is_taken (some h) = true

module _ {W X : Type 0} where
  -- Register; `none` is a nil handler.
  unfoldable pub register :
      Runes
      → Option (Handler W X)
      → HandlerRegistry W X
      → Result RegistryError (HandlerRegistry W X)
  register event_type none registry = do
    refuse (is_empty_text (trim_space event_type)) event_type_required
    err handler_required
  register event_type (some handler) registry = do
    refuse (is_empty_text (trim_space event_type)) event_type_required
    refuse (is_taken (find (trim_space event_type) registry)) already_registered
    ok (put (trim_space event_type) handler registry)

  abbrev pub answer : Option X × W → Option (PublishError X) × W
  answer (none, w) = (none, w)
  answer (some x, w) = (some (handler_failed x), w)

  unfoldable pub run_handler : Option (Handler W X) → OutboxEvent → W → Option (PublishError X) × W
  run_handler none event w = (some not_registered, w)
  run_handler (some handler) event w = answer (handler event w)

  unfoldable pub handle : HandlerRegistry W X → OutboxEvent → W → Option (PublishError X) × W
  handle registry event w =
      let event_type = trim_space event.event_type in
      if is_empty_text event_type
      then (some type_required, w)
      else run_handler (find event_type registry) event w
