-- ===== src/Base/Dict.antt =====
-- A Go map keyed by strings, as an association list: reading, writing, deleting.
use mathlib.Core.Option
use lib_commons.Base.{
  List, [], ◌∷◌, Option, some, none, String, if◌then◌else◌, ◌≡◌, refl, Bool, false, arith, inl, inr,
  subst,
}
use lib_commons.Base.Text.{str_eq, str_eq→≡, str_eq_refl, str_eq_cases}

module _ {ℓ} {V : Type ℓ} where
  unfoldable pub lookup : String → List (String × V) → Option V
  lookup key [] = none
  lookup key ((k, value) ∷ entries) = if str_eq k key then some value else lookup key entries

  unfoldable pub insert : String → V → List (String × V) → List (String × V)
  insert key new [] = (key, new) ∷ []
  insert key new ((k, value) ∷ entries) =
      if str_eq k key then (k, new) ∷ entries else (k, value) ∷ insert key new entries

  -- Every entry of the key goes.
  unfoldable pub delete : String → List (String × V) → List (String × V)
  delete key [] = []
  delete key ((k, value) ∷ entries) =
      let rest = delete key entries in if str_eq k key then rest else (k, value) ∷ rest

  unfoldable pub map_values {κ} : {W : Type κ} → (V → W) → List (String × V) → List (String × W)
  map_values f [] = []
  map_values f ((k, value) ∷ entries) = (k, f value) ∷ map_values f entries

  -- The entries whose value fails the test.
  unfoldable pub reject : (V → Bool) → List (String × V) → List (String × V)
  reject test [] = []
  reject test ((k, value) ∷ entries) =
      let rest = reject test entries in if test value then rest else (k, value) ∷ rest

  pub lookup-insert_self :
      (key : String) (v : V) (m : List (String × V)) → lookup key (insert key v m) ≡ some v
  unfolding lookup insert
  lookup-insert_self key v [] = rw (str_eq_refl key)
  lookup-insert_self key v ((k, w) ∷ m) =
      ground (arith, str_eq_refl key, lookup-insert_self key v m)

  pub lookup-insert_other :
      (key other : String) (v : V) (m : List (String × V))
      → str_eq key other ≡ false
      → lookup other (insert key v m) ≡ lookup other m
  unfolding lookup insert
  lookup-insert_other key other v [] h = rw h
  lookup-insert_other key other v ((k, w) ∷ m) h =
      ground (arith, str_eq→≡ k key, lookup-insert_other key other v m h)

  pub lookup-delete_self : (key : String) (m : List (String × V)) → lookup key (delete key m) ≡ none
  unfolding lookup delete
  lookup-delete_self key [] = refl
  lookup-delete_self key ((k, w) ∷ m) = ground (arith, lookup-delete_self key m)

  pub lookup-delete_other :
      (key other : String) (m : List (String × V))
      → str_eq key other ≡ false
      → lookup other (delete key m) ≡ lookup other m
  unfolding lookup delete
  lookup-delete_other key other [] h = refl
  lookup-delete_other key other ((k, w) ∷ m) h =
      ground (arith, str_eq→≡ k key, lookup-delete_other key other m h)

module _ {ℓ κ} {V : Type ℓ} {W : Type κ} (f : V → W) where
  pub lookup-map_values :
      (key : String) (m : List (String × V))
      → lookup key (map_values f m) ≡ Option.map f (lookup key m)
  unfolding lookup map_values
  lookup-map_values key [] = refl
  lookup-map_values key ((k, v) ∷ m) = ground (arith, lookup-map_values key m)

-- Each key has one entry, as in a Go map.
abbrev pub Unique {ℓ} : {V : Type ℓ} → List (String × V) → Type ℓ
Unique [] = Unit
Unique ((k, v) ∷ m) = (lookup k m ≡ none) × Unique m

abbrev pub keep_unless {ℓ} : {V : Type ℓ} → (V → Bool) → Option V → Option V
keep_unless test none = none
keep_unless test (some v) = if test v then none else some v

module _ {ℓ} {V : Type ℓ} where
  pub insert-Unique :
      (key : String) (v : V) (m : List (String × V)) → Unique m → Unique (insert key v m)
  unfolding insert lookup
  insert-Unique key v [] u = (refl, tt)
  insert-Unique key v ((k, w) ∷ m) (a, u) = elim (str_eq_cases k key) [
    | inl (e, _) ↦ rw e (a, u)
    | inr e ↦ rw e (fresh k key v m e a, insert-Unique key v m u)
  ]
    where
      fresh :
          (k key : String) (v : V) (m : List (String × V))
          → str_eq k key ≡ false
          → lookup k m ≡ none
          → lookup k (insert key v m) ≡ none
      fresh k key v m e a =
          ground (arith, lookup-insert_other key k v m, str_eq→≡ key k, str_eq_refl k)

  lookup-delete-none :
      (k key : String) (m : List (String × V)) → lookup k m ≡ none → lookup k (delete key m) ≡ none
  lookup-delete-none k key m h = elim (str_eq_cases key k) [
    | inl (e, same) ↦ subst (λ x. lookup x (delete key m) ≡ none) same (lookup-delete_self key m)
    | inr e ↦ rw (lookup-delete_other key k m e) h
  ]

  pub delete-Unique : (key : String) (m : List (String × V)) → Unique m → Unique (delete key m)
  unfolding delete
  delete-Unique key [] u = tt
  delete-Unique key ((k, w) ∷ m) (a, u) =
      ground (arith, lookup-delete-none k key m a, delete-Unique key m u)

  module _ (test : V → Bool) where
    lookup-reject-none :
        (k : String) (m : List (String × V)) → lookup k m ≡ none → lookup k (reject test m) ≡ none
    unfolding reject lookup
    lookup-reject-none k [] h = refl
    lookup-reject-none k ((j, w) ∷ m) h = ground (arith, lookup-reject-none k m)

    pub reject-Unique : (m : List (String × V)) → Unique m → Unique (reject test m)
    unfolding reject
    reject-Unique [] u = tt
    reject-Unique ((k, w) ∷ m) (a, u) = ground (arith, lookup-reject-none k m a, reject-Unique m u)

    pub lookup-reject :
        (k : String) (m : List (String × V))
        → Unique m
        → lookup k (reject test m) ≡ keep_unless test (lookup k m)
    unfolding reject lookup
    lookup-reject k [] u = refl
    lookup-reject k ((j, w) ∷ m) (a, u) =
        ground (arith, str_eq→≡ j k, lookup-reject k m u, lookup-reject-none j m a)
