-- ===== src/Base/Result.antt =====
-- A Go function that returns a value and an `error`, as a sum; `do` returns at the first error.
use lib_commons.Base.{◌≡◌, refl, Bool, true, false, ◌⊎◌, inl, inr}

pub data Result {ℓ} (E : Type 0) (A : Type ℓ) : Type ℓ where
  err : E → Result E A
  ok : A → Result E A

module _ {E : Type 0} where
  infixl 5 ◌>>◌ ◌>>=◌
  abbrev pub ◌>>=◌ {ℓ κ} : {T : Type ℓ} {U : Type κ} → Result E T → (T → Result E U) → Result E U
  err cause >>= next = err cause
  ok value >>= next = next value

  abbrev pub ◌>>◌ {κ} : {U : Type κ} → Result E (Unit {0}) → Result E U → Result E U
  check >> rest = check >>= λ _. rest

-- `if test { return err }`.
abbrev pub refuse : {E : Type 0} → Bool → E → Result E (Unit {0})
refuse test cause = elim test [ false ↦ ok tt | true ↦ err cause ]

module _ {ℓ κ} {E : Type 0} {T : Type ℓ} {U : Type κ} where
  -- If a chain returned a value, so did its first step and the rest.
  pub >>=-eq-ok :
      (step : Result E T) (next : T → Result E U) {out : U}
      → (step >>= next) ≡ ok out
      → (value : T) × (step ≡ ok value) × (next value ≡ ok out)
  >>=-eq-ok (err cause) next h = cc
  >>=-eq-ok (ok value) next h = (value, refl, h)

pub refuse-eq-ok : {E : Type 0} (b : Bool) (e : E) {u : Unit {0}} → refuse b e ≡ ok u → b ≡ false
refuse-eq-ok true e h = cc
refuse-eq-ok false e h = refl

pub ok-injective {ℓ} :
    {E : Type 0} {A : Type ℓ} {a b : A} → ◌≡◌ {A = Result E A} (ok a) (ok b) → a ≡ b
ok-injective h = cc

pub Result-cases {ℓ} :
    {E : Type 0} {A : Type ℓ} (r : Result E A) → ((e : E) × (r ≡ err e)) ⊎ ((a : A) × (r ≡ ok a))
Result-cases (err e) = inl (e, refl)
Result-cases (ok a) = inr (a, refl)
