-- ===== src/Transaction/Plan/Sum.antt =====
-- Sums of postings, their signs, and what writing the remainder into its posting does to both.
use lib_commons.Base.{ℕ, zero, suc, ◌≡◌, Bool, String, List, [], ◌∷◌, All}
use lib_commons.Base.Int.{ℤ, pos, ◌+ℤ◌, int_laws}
use lib_commons.Transaction.Decimal.{DecimalApi}
use lib_commons.Transaction.{TransactionStatus, Allocation, Posting}
use lib_commons.Transaction.Plan.{set_amount}
use lib_commons.Transaction.Plan.Shape.{Positive, Answers}

module _ (d : DecimalApi) where
  open d use {
    Decimal, units, units-add, units-sub, units-zero_value, zero_value, add, sub, is_positive_lem,
    equal_lem,
  }

  -- The exact sum of the amounts.
  unfoldable pub sum_units : List (Posting Decimal) → ℤ
  sum_units [] = pos 0
  sum_units (p ∷ ps) = units p.amount +ℤ sum_units ps

  abbrev pub AllPositive : List (Posting Decimal) → Type 0
  AllPositive = All (λ p. Positive d p.amount)

  -- The posting at `k` has a zero amount, and all others a positive one.
  abbrev pub OneHole : ℕ → List (Posting Decimal) → Type 0
  OneHole k [] = ⊥
  OneHole zero (p ∷ ps) = (p.amount ≡ zero_value) × AllPositive ps
  OneHole (suc k) (p ∷ ps) = Positive d p.amount × OneHole k ps

  abbrev pub AllAnswer :
      String
      → Bool
      → TransactionStatus
      → Bool
      → List (Allocation Decimal)
      → List (Posting Decimal)
      → Type 0
  AllAnswer asset pending status is_source [] [] = Unit
  AllAnswer asset pending status is_source (a ∷ as') (p ∷ ps) =
      Answers d asset pending status is_source a p × AllAnswer asset pending status is_source as' ps
  AllAnswer asset pending status is_source _ _ = ⊥

  pub set_amount-AllPositive :
      (k : ℕ) (x : Decimal) (ps : List (Posting Decimal))
      → OneHole k ps
      → Positive d x
      → AllPositive (set_amount d k x ps)
  unfolding set_amount
  set_amount-AllPositive k x [] h v = absurd h
  set_amount-AllPositive zero x (p ∷ ps) h v = (v, h.1)
  set_amount-AllPositive (suc k) x (p ∷ ps) h v = (h.0, set_amount-AllPositive k x ps h.1 v)

  pub sum_units-set_amount :
      (k : ℕ) (x : Decimal) (ps : List (Posting Decimal))
      → OneHole k ps
      → sum_units (set_amount d k x ps) ≡ sum_units ps +ℤ units x
  unfolding set_amount sum_units
  sum_units-set_amount k x [] h = absurd h
  sum_units-set_amount zero x (p ∷ ps) h = rw (h.0, units-zero_value) (omega int_laws)
  sum_units-set_amount (suc k) x (p ∷ ps) h = rw (sum_units-set_amount k x ps h.1) (omega int_laws)

  pub set_amount-AllAnswer :
      (asset : String) (pending : Bool) (status : TransactionStatus) (is_source : Bool) (k : ℕ)
      (x : Decimal) (as' : List (Allocation Decimal)) (ps : List (Posting Decimal))
      → AllAnswer asset pending status is_source as' ps
      → AllAnswer asset pending status is_source as' (set_amount d k x ps)
  unfolding set_amount
  set_amount-AllAnswer asset pending status is_source k x [] [] h = tt
  set_amount-AllAnswer asset pending status is_source k x [] (p ∷ ps) h = absurd h
  set_amount-AllAnswer asset pending status is_source k x (a ∷ as') [] h = absurd h
  set_amount-AllAnswer asset pending status is_source zero x (a ∷ as') (p ∷ ps) h = (
    record {
      target = h.0.target;
      account_named = h.0.account_named;
      balance_named = h.0.balance_named;
      route = h.0.route;
      asset_kept = h.0.asset_kept;
      status_kept = h.0.status_kept;
      operation = h.0.operation;
    },
    h.1,
  )
  set_amount-AllAnswer asset pending status is_source (suc k) x (a ∷ as') (p ∷ ps) h =
      (h.0, set_amount-AllAnswer asset pending status is_source k x as' ps h.1)
