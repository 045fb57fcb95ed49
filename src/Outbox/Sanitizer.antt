-- ===== src/Outbox/Sanitizer.antt =====
-- commons/outbox/sanitizer.go: SanitizeErrorMessageForStorage. `redact` is redactSensitiveData, whose
-- regular expressions are not modelled.
use lib_commons.Base.{
  ℕ, ◌≤◌, ◌-◌, [], ◌∷◌, ◌++◌, leb, length, length-append, take, length-take, if◌then◌else◌, arith,
}
use lib_commons.Base.Runes.{Runes, trim_space}

abbrev pub max_error_length : ℕ
max_error_length = 512

-- "... (truncated)"
abbrev pub error_truncated_suffix : Runes
error_truncated_suffix =
    46 ∷ 46 ∷ 46 ∷ 32 ∷ 40 ∷ 116 ∷ 114 ∷ 117 ∷ 110 ∷ 99 ∷ 97 ∷ 116 ∷ 101 ∷ 100 ∷ 41 ∷ []

unfoldable pub truncate_error : Runes → ℕ → Runes → Runes
truncate_error msg max_runes suffix =
    if leb (length msg) max_runes
    then msg
    else (if leb max_runes (length suffix)
        then take max_runes msg
        else take (max_runes - length suffix) msg ++ suffix)

unfoldable pub sanitize_error_message_for_storage : (Runes → Runes) → Runes → Runes
sanitize_error_message_for_storage redact msg =
    truncate_error (redact (trim_space msg)) max_error_length error_truncated_suffix

length-truncate_error :
    (msg : Runes) (n : ℕ) (suffix : Runes) → length (truncate_error msg n suffix) ≤ n
unfolding truncate_error
length-truncate_error msg n suffix = ground (
  arith,
  length-take n msg,
  length-take (n - length suffix) msg,
  length-append (take (n - length suffix) msg) suffix,
)

-- A sanitized message fits the column, whatever the redaction does.
pub length-sanitize_error_message_for_storage :
    (redact : Runes → Runes) (msg : Runes)
    → length (sanitize_error_message_for_storage redact msg) ≤ 512
unfolding sanitize_error_message_for_storage
length-sanitize_error_message_for_storage redact msg =
    length-truncate_error (redact (trim_space msg)) max_error_length error_truncated_suffix
