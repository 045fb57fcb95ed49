-- ===== src/Base/Assoc.antt =====
-- Go maps over any comparable key, as association lists that hold a key at most once.
use lib_commons.Base.{
  suc, ◌≤◌, ◌≡◌, refl, ◌↔◌, inl, inr, Bool, true, false, List, [], ◌∷◌, Option, none, some,
  if◌then◌else◌, length, Bool-cases, arith,
}

-- Go's `==` on a type of keys.
pub record Key (K : Type 0) : Type 0 where
  pub same : K → K → Bool
  pub same_iff : (a b : K) → (same a b ≡ true) ↔ (a ≡ b)

pub same_self : {K : Type 0} ⦃key : Key K⦄ (k : K) → key.same k k ≡ true
same_self ⦃key⦄ k = (key.same_iff k k).1 refl

module _ {ℓ} {K : Type 0} {V : Type ℓ} ⦃key : Key K⦄ where
  unfoldable pub find : K → List (K × V) → Option V
  find k [] = none
  find k ((j, v) ∷ m) = if key.same j k then some v else find k m

  unfoldable pub put : K → V → List (K × V) → List (K × V)
  put k v [] = (k, v) ∷ []
  put k v ((j, w) ∷ m) = let rest = put k v m in if key.same j k then (j, v) ∷ m else (j, w) ∷ rest

  unfoldable pub drop_key : K → List (K × V) → List (K × V)
  drop_key k [] = []
  drop_key k ((j, w) ∷ m) = let rest = drop_key k m in if key.same j k then rest else (j, w) ∷ rest

  -- The entries that pass the test.
  unfoldable pub retain : (K → V → Bool) → List (K × V) → List (K × V)
  retain test [] = []
  retain test ((j, w) ∷ m) = let rest = retain test m in if test j w then (j, w) ∷ rest else rest

  pub find-put_self : (k : K) (v : V) (m : List (K × V)) → find k (put k v m) ≡ some v
  unfolding find put
  find-put_self k v [] = rw (same_self k)
  find-put_self k v ((j, w) ∷ m) = ground (arith, same_self k, find-put_self k v m)

  pub find-put_other :
      (k j : K) (v : V) (m : List (K × V)) → key.same k j ≡ false → find j (put k v m) ≡ find j m
  unfolding find put
  find-put_other k j v [] h = rw h
  find-put_other k j v ((i, w) ∷ m) h =
      ground (arith, key.same_iff i k, key.same_iff i j, key.same_iff k j, find-put_other k j v m h)

  -- A write makes a map longer only if the key is new.
  pub length-put_old :
      (k : K) (v w : V) (m : List (K × V)) → find k m ≡ some w → length (put k v m) ≡ length m
  unfolding find put
  length-put_old k v w [] h = cc
  length-put_old k v w ((j, x) ∷ m) h = ground (arith, length-put_old k v w m)

  pub length-put : (k : K) (v : V) (m : List (K × V)) → length (put k v m) ≤ suc (length m)
  unfolding put
  length-put k v [] = omega arith
  length-put k v ((j, x) ∷ m) = ground (arith, length-put k v m)

  pub length-drop_key : (k : K) (m : List (K × V)) → length (drop_key k m) ≤ length m
  unfolding drop_key
  length-drop_key k [] = omega arith
  length-drop_key k ((j, x) ∷ m) = ground (arith, length-drop_key k m)

  pub find-drop_key :
      (k j : K) (m : List (K × V)) → key.same k j ≡ false → find j (drop_key k m) ≡ find j m
  unfolding find drop_key
  find-drop_key k j [] h = refl
  find-drop_key k j ((i, x) ∷ m) h =
      ground (arith, key.same_iff i k, key.same_iff i j, key.same_iff k j, find-drop_key k j m h)

  pub find-retain-none :
      (test : K → V → Bool) (k : K) (m : List (K × V))
      → find k m ≡ none
      → find k (retain test m) ≡ none
  unfolding find retain
  find-retain-none test k [] h = refl
  find-retain-none test k ((j, x) ∷ m) h = ground (arith, find-retain-none test k m)

  -- An entry that passes the test under its key stays.
  pub find-retain-some :
      (test : K → V → Bool) (k : K) (v : V) (m : List (K × V))
      → find k m ≡ some v
      → test k v ≡ true
      → find k (retain test m) ≡ some v
  unfolding find retain
  find-retain-some test k v [] h t = cc
  find-retain-some test k v ((j, x) ∷ m) h t = elim (Bool-cases (key.same j k)) [
    | inl e ↦ ground (arith, (key.same_iff j k).0 e)
    | inr e ↦ ground (arith, find-retain-some test k v m)
  ]
