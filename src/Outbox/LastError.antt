-- ===== src/Outbox/LastError.antt =====
-- commons/outbox/last_error.go: the causes of failed dispatches, accumulated in one bounded text. A
-- text is the list of its code points. accumulate_cause is the CASE expression of the UPDATE that
-- MarkFailed runs in commons/outbox/postgres/state_transitions.go.
pub mod Bounded
use lib_commons.Base.{
  ℕ, ◌-◌, ◌+◌, Bool, true, false, ◌&&◌, ◌||◌, List, [], ◌∷◌, ◌++◌, ◌==◌, leb, length, take,
  if◌then◌else◌,
}
use lib_commons.Base.Runes.{
  Runes, all_space, trim_space, contains, split_on, has_text, is_empty_text,
}

abbrev pub max_last_error_length : ℕ
max_last_error_length = 512

-- A line feed and "... (later causes truncated)".
abbrev pub last_error_truncation_marker : Runes
last_error_truncation_marker =
    10 ∷ 46 ∷ 46 ∷ 46 ∷ 32 ∷ 40 ∷ 108 ∷ 97 ∷ 116 ∷ 101 ∷ 114 ∷ 32 ∷ 99 ∷ 97 ∷ 117 ∷ 115 ∷ 101 ∷ 115
    ∷ 32 ∷ 116 ∷ 114 ∷ 117 ∷ 110 ∷ 99 ∷ 97 ∷ 116 ∷ 101 ∷ 100 ∷ 41 ∷ []

-- "abandoned in processing with no dispatch attempts left"
abbrev pub stuck_in_processing_cause : Runes
stuck_in_processing_cause =
    97 ∷ 98 ∷ 97 ∷ 110 ∷ 100 ∷ 111 ∷ 110 ∷ 101 ∷ 100 ∷ 32 ∷ 105 ∷ 110 ∷ 32 ∷ 112 ∷ 114 ∷ 111 ∷ 99
    ∷ 101 ∷ 115 ∷ 115 ∷ 105 ∷ 110 ∷ 103 ∷ 32 ∷ 119 ∷ 105 ∷ 116 ∷ 104 ∷ 32 ∷ 110 ∷ 111 ∷ 32 ∷ 100
    ∷ 105 ∷ 115 ∷ 112 ∷ 97 ∷ 116 ∷ 99 ∷ 104 ∷ 32 ∷ 97 ∷ 116 ∷ 116 ∷ 101 ∷ 109 ∷ 112 ∷ 116 ∷ 115 ∷ 32
    ∷ 108 ∷ 101 ∷ 102 ∷ 116 ∷ []

unfoldable pub last_error_cause_budget : ℕ
last_error_cause_budget = max_last_error_length - length last_error_truncation_marker

abbrev pub starts_line_feed : Runes → Bool
starts_line_feed [] = false
starts_line_feed (c ∷ cs) = c == 10

-- The replacer turns "\r\n", "\n" and "\r" into one space each. The space of "\r\n" is the one that
-- its line feed leaves.
unfoldable pub fold_newlines : Runes → Runes
fold_newlines [] = []
fold_newlines (c ∷ cs) =
    let rest = fold_newlines cs in
    if c == 13 && starts_line_feed cs
    then rest
    else (if c == 13 || c == 10 then 32 ∷ rest else c ∷ rest)

-- Without a newline the replacer changes nothing, so it is run always.
unfoldable pub normalize_cause : Runes → Runes
normalize_cause cause = trim_space (fold_newlines cause)

unfoldable pub has_cause : Runes → Runes → Bool
has_cause existing cause = has_text cause (split_on 10 existing)

unfoldable pub truncate_to_rune_budget : Runes → ℕ → Runes
truncate_to_rune_budget s budget = if leb (length s) budget then s else take budget s

unfoldable pub bound_error_cause : Runes → Runes
bound_error_cause raw =
    let cause = normalize_cause raw in
    if leb (length cause) last_error_cause_budget
    then cause
    else truncate_to_rune_budget cause last_error_cause_budget ++ last_error_truncation_marker

-- AppendErrorCause for a cause that is normalized already.
unfoldable pub append_normalized : Runes → Runes → Runes
append_normalized existing cause =
    if is_empty_text cause
    then existing
    else (if is_empty_text (trim_space existing)
        then bound_error_cause cause
        else (if has_cause existing cause
            then existing
            else (if contains existing last_error_truncation_marker
                then existing
                else (if leb (length existing + 1 + length cause) last_error_cause_budget
                    then existing ++ (10 ∷ cause)
                    else truncate_to_rune_budget existing last_error_cause_budget
                      ++ last_error_truncation_marker))))

unfoldable pub append_error_cause : Runes → Runes → Runes
append_error_cause existing cause = append_normalized existing (normalize_cause cause)

-- btrim(s) = '': the text consists of spaces.
unfoldable pub only_spaces : Runes → Bool
only_spaces [] = true
only_spaces (c ∷ cs) = c == 32 && only_spaces cs

-- A NULL last_error is the empty text.
unfoldable pub accumulate_cause : Runes → Runes → Runes
accumulate_cause last_error cause =
    if only_spaces last_error
    then cause
    else (if is_empty_text cause
        then last_error
        else (if contains (10 ∷ last_error ++ 10 ∷ []) (10 ∷ cause ++ 10 ∷ [])
            then last_error
            else (if contains last_error last_error_truncation_marker
                then last_error
                else (if leb (length last_error + 1 + length cause) last_error_cause_budget
                    then last_error ++ (10 ∷ cause)
                    else take last_error_cause_budget last_error ++ last_error_truncation_marker))))
