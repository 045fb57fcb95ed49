-- ===== src/Base/Text.antt =====
-- Texts: equality, and the standard library's test `strings.TrimSpace(s) == ""`.
use Prim.Native.Char.{code}
use text.Mathlib.Text.{◌==◌ as native_eq}
use text.Mathlib.TextEquality.{eq_iff}
use lib_commons.Base.{
  ℕ, ◌≡◌, refl, ◌⊎◌, inl, inr, Bool, true, false, ◌&&◌, ◌||◌, String, leb, ◌==◌, Bool-cases,
}

-- Go's `==` on strings.
abbrev pub str_eq : String → String → Bool
str_eq = native_eq

pub str_eq→≡ : (s t : String) → str_eq s t ≡ true → s ≡ t
str_eq→≡ s t = (eq_iff s t).0

pub str_eq_refl : (s : String) → str_eq s s ≡ true
str_eq_refl s = (eq_iff s s).1 refl

-- A comparison with its meaning, to split on.
pub str_eq_cases : (s t : String) → ((str_eq s t ≡ true) × (s ≡ t)) ⊎ (str_eq s t ≡ false)
str_eq_cases s t = elim (Bool-cases (str_eq s t)) [
  | inl e ↦ inl (e, str_eq→≡ s t e)
  | inr e ↦ inr e
]

-- `unicode.IsSpace`.
abbrev pub is_space : ℕ → Bool
is_space c =
    (leb 9 c && leb c 13)
    || c == 32
    || c == 0x85
    || c == 0xA0
    || c == 0x1680
    || (leb 0x2000 c && leb c 0x200a)
    || c == 0x2028
    || c == 0x2029
    || c == 0x202f
    || c == 0x205f
    || c == 0x3000

-- `strings.TrimSpace(s) == ""`: every character is white space.
unfoldable pub is_blank : String → Bool
is_blank String.[] = true
is_blank (String.◌∷◌ c s) = is_space (code c) && is_blank s
