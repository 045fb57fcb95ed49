-- ===== src/Base/Runes.antt =====
-- Texts as lists of code points, with the functions of Go's `strings` that the components call.
use lib_commons.Base.{
  ℕ, Bool, true, false, ◌&&◌, ◌||◌, List, [], ◌∷◌, ◌==◌, if◌then◌else◌, ◌≡◌, refl, ◌↔◌, arith,
}
use lib_commons.Base.Text.{is_space}
use lib_commons.Base.Assoc.{Key}

abbrev pub Runes : Type 0
Runes = List ℕ

abbrev pub is_empty_text : Runes → Bool
is_empty_text [] = true
is_empty_text (_ ∷ _) = false

-- Every character is white space.
unfoldable pub all_space : Runes → Bool
all_space [] = true
all_space (c ∷ cs) = is_space c && all_space cs

unfoldable pub trim_left : Runes → Runes
trim_left [] = []
trim_left (c ∷ cs) = let rest = trim_left cs in if is_space c then rest else c ∷ cs

unfoldable pub trim_right : Runes → Runes
trim_right [] = []
trim_right (c ∷ cs) =
    let rest = trim_right cs in if is_space c && is_empty_text rest then [] else c ∷ rest

-- strings.TrimSpace
unfoldable pub trim_space : Runes → Runes
unfolding trim_left trim_right
trim_space s = trim_right (trim_left s)

-- Equality of texts.
unfoldable pub same_text : Runes → Runes → Bool
same_text [] [] = true
same_text (a ∷ as') (b ∷ bs) = a == b && same_text as' bs
same_text _ _ = false

unfoldable pub has_prefix : Runes → Runes → Bool
has_prefix [] s = true
has_prefix (p ∷ ps) [] = false
has_prefix (p ∷ ps) (c ∷ cs) = p == c && has_prefix ps cs

-- strings.Contains(s, part)
unfoldable pub contains : Runes → Runes → Bool
contains [] part = has_prefix part []
contains (c ∷ cs) part = has_prefix part (c ∷ cs) || contains cs part

abbrev pub cons_first : ℕ → List Runes → List Runes
cons_first c [] = (c ∷ []) ∷ []
cons_first c (p ∷ ps) = (c ∷ p) ∷ ps

-- strings.Split(s, sep) for a separator of one character.
unfoldable pub split_on : ℕ → Runes → List Runes
split_on sep [] = [] ∷ []
split_on sep (c ∷ cs) =
    let rest = split_on sep cs in if c == sep then [] ∷ rest else cons_first c rest

-- slices.Contains on texts.
unfoldable pub has_text : Runes → List Runes → Bool
has_text s [] = false
has_text s (t ∷ ts) = same_text t s || has_text s ts

pub same_text_iff : (s t : Runes) → (same_text s t ≡ true) ↔ (s ≡ t)
unfolding same_text
same_text_iff [] [] = ((λ h. refl), (λ h. refl))
same_text_iff [] (b ∷ bs) = ((λ h. cc), (λ h. cc))
same_text_iff (a ∷ as') [] = ((λ h. cc), (λ h. cc))
same_text_iff (a ∷ as') (b ∷ bs) = ground (arith, same_text_iff as' bs)

-- Texts as keys of maps.
instance abbrev pub text_key : Key Runes
text_key = record { same = same_text; same_iff = same_text_iff }
