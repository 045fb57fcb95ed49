-- ===== src/Outbox/Status.antt =====
-- commons/outbox/status.go: the lifecycle of an outbox event.
use lib_commons.Base.{◌≡◌, refl, Bool, true, false, not, String, if◌then◌else◌, ◌↔◌}
use lib_commons.Base.Text.{str_eq}
use lib_commons.Base.Result.{Result, ok, err, ◌>>=◌, refuse}

pub data OutboxEventStatus : Type 0 where
  pending processing published failed invalid : OutboxEventStatus

pub data StatusError : Type 0 where
  status_invalid transition_invalid : StatusError

-- The text of a status.
unfoldable pub to_string : OutboxEventStatus → String
to_string pending = "PENDING"
to_string processing = "PROCESSING"
to_string published = "PUBLISHED"
to_string failed = "FAILED"
to_string invalid = "INVALID"

-- A text that IsValid accepts is the text of one of the five.
unfoldable pub parse_outbox_event_status : String → Result StatusError OutboxEventStatus
parse_outbox_event_status raw =
    if str_eq raw "PENDING"
    then ok pending
    else (if str_eq raw "PROCESSING"
        then ok processing
        else (if str_eq raw "PUBLISHED"
            then ok published
            else (if str_eq raw "FAILED"
                then ok failed
                else (if str_eq raw "INVALID" then ok invalid else err status_invalid))))

unfoldable pub can_transition_to : OutboxEventStatus → OutboxEventStatus → Bool
can_transition_to pending processing = true
can_transition_to failed processing = true
can_transition_to processing processing = true
can_transition_to processing published = true
can_transition_to processing failed = true
can_transition_to processing invalid = true
can_transition_to _ _ = false

unfoldable pub validate_outbox_transition : String → String → Result StatusError (Unit {0})
validate_outbox_transition from_raw to_raw = do
  from ← parse_outbox_event_status from_raw
  to ← parse_outbox_event_status to_raw
  refuse (not (can_transition_to from to)) transition_invalid

-- Every status survives printing and parsing.
pub parse-to_string : (s : OutboxEventStatus) → parse_outbox_event_status (to_string s) ≡ ok s
unfolding parse_outbox_event_status to_string
parse-to_string pending = refl
parse-to_string _ = refl

-- On the texts of two statuses ValidateOutboxTransition decides CanTransitionTo.
pub validate_outbox_transition-can_transition_to :
    (s t : OutboxEventStatus)
    → (validate_outbox_transition (to_string s) (to_string t) ≡ ok tt)
      ↔ (can_transition_to s t ≡ true)
unfolding validate_outbox_transition
validate_outbox_transition-can_transition_to s t =
    rw (parse-to_string s, parse-to_string t) (decides (can_transition_to s t))
  where
    decides : (b : Bool) → (refuse (not b) transition_invalid ≡ ok tt) ↔ (b ≡ true)
    decides true = ((λ _. refl), (λ _. refl))
    decides false = ((λ h. cc), (λ h. cc))
