-- ===== src/Transaction/Decimal.antt =====
-- The decimals of github.com/shopspring/decimal, which the repository uses and does not contain:
-- an interface of the operations that commons/transaction and commons/safe call, with the laws that
-- its documentation states. A decimal is coefficient * 10 ^ exponent with an exponent of 32 bits, so
-- `units` reads every decimal as a whole number of 10 ^ (-2 ^ 31); sums, differences and comparisons
-- are exact. Nothing is assumed of products and quotients, which round.
use lib_commons.Base.{ℕ, ◌≡◌, Bool, ◌||◌, not, ltb}
use lib_commons.Base.Int.{ℤ, pos, negsuc, ◌+ℤ◌, ◌-ℤ◌, ltb_ℤ, eq_ℤ}

pub record DecimalApi : Type 1 where
  pub Decimal : Type 0
  pub zero_value : Decimal
  pub one_hundred : Decimal
  pub add : Decimal → Decimal → Decimal
  pub sub : Decimal → Decimal → Decimal
  pub mul : Decimal → Decimal → Decimal
  pub div : Decimal → Decimal → Decimal
  pub is_positive : Decimal → Bool
  pub is_negative : Decimal → Bool
  pub less_than : Decimal → Decimal → Bool
  pub equal : Decimal → Decimal → Bool
  pub exponent : Decimal → ℤ
  pub num_digits : Decimal → ℕ
  pub units : Decimal → ℤ
  pub units-zero_value : units zero_value ≡ pos 0
  pub units-add : (a b : Decimal) → units (add a b) ≡ units a +ℤ units b
  pub units-sub : (a b : Decimal) → units (sub a b) ≡ units a -ℤ units b
  pub is_positive_lem : (a : Decimal) → is_positive a ≡ ltb_ℤ (pos 0) (units a)
  pub is_negative_lem : (a : Decimal) → is_negative a ≡ ltb_ℤ (units a) (pos 0)
  pub less_than_lem : (a b : Decimal) → less_than a b ≡ ltb_ℤ (units a) (units b)
  pub equal_lem : (a b : Decimal) → equal a b ≡ eq_ℤ (units a) (units b)

-- safe.CheckDecimal, as the test that it returns no error.
module _ (d : DecimalApi) where
  open d use {Decimal, exponent, num_digits}

  unfoldable pub check_decimal : Decimal → Bool
  check_decimal x =
      not (
        ltb_ℤ (pos 1000) (exponent x) || ltb_ℤ (exponent x) (negsuc 999) || ltb 1000 (num_digits x))
