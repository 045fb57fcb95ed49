-- ===== src/Transaction/Eligibility/Checked.antt =====
-- What ValidateBalanceEligibility has checked of every balance of a plan that it accepts.
use lib_commons.Base.{
  ◌≡◌, sym, ◌⊎◌, inl, inr, true, false, not, arith, String, List, [], ◌∷◌, some, Option-cases, All,
}
use lib_commons.Base.Int.{pos, ◌≤ℤ◌, eq_of_parts}
use lib_commons.Base.Text.{str_eq, str_eq→≡}
use lib_commons.Base.Dict.{lookup}
use lib_commons.Base.Result.{Result, ok, refuse, >>=-eq-ok, ok-injective}
use lib_commons.Transaction.Decimal.{DecimalApi, check_decimal}
use lib_commons.Transaction.{Balance, Posting, IntentPlan, DomainError}
use lib_commons.Transaction.Apply.{check_bounds}
use lib_commons.Transaction.Eligibility.{
  Scope, no_scope, is_external, validate_scope, validate_external_destination_balance, check_source,
  validate_source_posting, check_destination, validate_destination_posting, validate_each,
  validate_balance_eligibility,
}

module _ (d : DecimalApi) where
  open d use {
    Decimal, units, less_than, less_than_lem, is_positive, is_positive_lem, is_negative,
    is_negative_lem,
  }

  -- The balance belongs to the scope, or names no organization and no ledger.
  abbrev pub InScope : Balance Decimal → Scope → Type 0
  InScope b s =
      ((b.organization_id ≡ "") × (b.ledger_id ≡ ""))
      ⊎ ((b.organization_id ≡ s.organization_id) × (b.ledger_id ≡ s.ledger_id))

  -- The scope is kept once it is set.
  abbrev pub Extends : Scope → Scope → Type 0
  Extends s t = ((s.organization_id ≡ "") × (s.ledger_id ≡ "")) ⊎ (t ≡ s)

  validate_scope-InScope :
      (s : Scope) (b : Balance Decimal) (f : String) {t : Scope}
      → validate_scope d s b f ≡ ok t
      → InScope b t × Extends s t
  unfolding validate_scope
  validate_scope-InScope s b f h = ground (
    arith,
    str_eq→≡ b.organization_id "",
    str_eq→≡ b.ledger_id "",
    str_eq→≡ s.organization_id "",
    str_eq→≡ s.ledger_id "",
    str_eq→≡ b.organization_id s.organization_id,
    str_eq→≡ b.ledger_id s.ledger_id,
  )

  -- A source's balance.
  pub record SourceChecked (plan : IntentPlan Decimal) (p : Posting Decimal) (b : Balance Decimal)
      : Type 0 where
    pub account : b.account_id ≡ p.target.account_id
    pub asset : b.asset ≡ plan.asset
    pub sending : b.allow_sending ≡ true
    pub in_bounds : check_decimal d p.amount ≡ true
    pub funds : units p.amount ≤ℤ units b.available
    pub hold_internal : plan.pending ≡ true → is_external b.account_type ≡ false

  pub record DestinationChecked (plan : IntentPlan Decimal) (p : Posting Decimal)
      (b : Balance Decimal) : Type 0 where
    pub account : b.account_id ≡ p.target.account_id
    pub asset : b.asset ≡ plan.asset
    pub receiving : b.allow_receiving ≡ true
    pub external_empty : is_external b.account_type ≡ true → units b.available ≡ pos 0

  check_source-Checked :
      (plan : IntentPlan Decimal) (p : Posting Decimal) (b : Balance Decimal) (s : Scope)
      {t : Scope}
      → check_source d plan p b s ≡ ok t
      → SourceChecked plan p b × InScope b t × Extends s t
  unfolding check_source check_bounds
  check_source-Checked plan p b s h =
      let (_, a, h₁) = >>=-eq-ok (refuse (not (str_eq b.account_id p.target.account_id)) _) _ h in
      let (t, sc, h₂) = >>=-eq-ok (validate_scope d s b "sources") _ h₁ in
      let scope = validate_scope-InScope s b "sources" sc in
      (
        ground (
          arith,
          str_eq→≡ b.account_id p.target.account_id,
          str_eq→≡ b.asset plan.asset,
          less_than_lem b.available p.amount,
        ),
        ground (arith, scope),
        ground (arith, scope),
      )

  external_zero :
      (b : Balance Decimal) {u : Unit {0}}
      → validate_external_destination_balance d b ≡ ok u
      → is_external b.account_type ≡ true
      → units b.available ≡ pos 0
  unfolding validate_external_destination_balance
  external_zero b h e =
      eq_of_parts _ _ (ground (arith, is_positive_lem b.available, is_negative_lem b.available))

  check_destination-Checked :
      (plan : IntentPlan Decimal) (p : Posting Decimal) (b : Balance Decimal) (s : Scope)
      {t : Scope}
      → check_destination d plan p b s ≡ ok t
      → DestinationChecked plan p b × InScope b t × Extends s t
  unfolding check_destination
  check_destination-Checked plan p b s h =
      let (_, a, h₁) = >>=-eq-ok (refuse (not (str_eq b.account_id p.target.account_id)) _) _ h in
      let (t, sc, h₂) = >>=-eq-ok (validate_scope d s b "destinations") _ h₁ in
      let (_, as', h₃) = >>=-eq-ok (refuse (not (str_eq b.asset plan.asset)) _) _ h₂ in
      let (_, r, h₄) = >>=-eq-ok (refuse (not b.allow_receiving) _) _ h₃ in
      let (_, x, h₅) = >>=-eq-ok (validate_external_destination_balance d b) _ h₄ in
      let scope = validate_scope-InScope s b "destinations" sc in
      (
        record {
          account = ground (arith, str_eq→≡ b.account_id p.target.account_id);
          asset = ground (arith, str_eq→≡ b.asset plan.asset);
          receiving = ground arith;
          external_empty = external_zero b x;
        },
        ground (arith, scope),
        ground (arith, scope),
      )

  -- The posting's balance is in the catalog and was checked, within the scope.
  abbrev pub Found :
      (Posting Decimal → Balance Decimal → Type 0)
      → List (String × Balance Decimal)
      → Scope
      → Posting Decimal
      → Type 0
  Found Checked balances t p =
      (b : Balance Decimal) × (lookup p.target.balance_id balances ≡ some b)
      × Checked p b
      × InScope b t

  Found-Extends :
      (C : Posting Decimal → Balance Decimal → Type 0) (balances : List (String × Balance Decimal))
      (t u : Scope) (p : Posting Decimal)
      → Extends t u
      → Found C balances t p
      → Found C balances u p
  Found-Extends C balances t u p x (b, e, c, i) = (b, e, c, ground arith)

  validate_source_posting-Found :
      (plan : IntentPlan Decimal) (balances : List (String × Balance Decimal)) (p : Posting Decimal)
      (s t : Scope)
      → validate_source_posting d plan balances p s ≡ ok t
      → Found (SourceChecked plan) balances t p × Extends s t
  unfolding validate_source_posting
  validate_source_posting-Found plan balances p s t h =
      elim (Option-cases (lookup p.target.balance_id balances)) [
        | inl e ↦ absurd (ground arith)
        | inr (b, e) ↦
            let h' : check_source d plan p b s ≡ ok t = ground arith in
            let (c, i, x) = check_source-Checked plan p b s h' in ((b, e, c, i), x)
      ]

  validate_destination_posting-Found :
      (plan : IntentPlan Decimal) (balances : List (String × Balance Decimal)) (p : Posting Decimal)
      (s t : Scope)
      → validate_destination_posting d plan balances p s ≡ ok t
      → Found (DestinationChecked plan) balances t p × Extends s t
  unfolding validate_destination_posting
  validate_destination_posting-Found plan balances p s t h =
      elim (Option-cases (lookup p.target.balance_id balances)) [
        | inl e ↦ absurd (ground arith)
        | inr (b, e) ↦
            let h' : check_destination d plan p b s ≡ ok t = ground arith in
            let (c, i, x) = check_destination-Checked plan p b s h' in ((b, e, c, i), x)
      ]

  module _ (check : Posting Decimal → Scope → Result DomainError Scope)
      (C : Posting Decimal → Balance Decimal → Type 0) (balances : List (String × Balance Decimal))
      (step : (p : Posting Decimal) (s t : Scope)
        → check p s ≡ ok t
        → Found C balances t p × Extends s t) where
    -- A loop that returned has found every balance, in its last scope.
    validate_each-Found :
        (ps : List (Posting Decimal)) (s : Scope) {t : Scope}
        → validate_each d check ps s ≡ ok t
        → All (Found C balances t) ps × Extends s t
    unfolding validate_each
    validate_each-Found [] s h = (tt, inr (sym (ok-injective h)))
    validate_each-Found (p ∷ ps) s {t} h =
        let (s', e, h') = >>=-eq-ok (check p s) _ h in
        let (found, x) = step p s s' e in
        let (rest, y) = validate_each-Found ps s' h' in
        ((Found-Extends C balances s' t p y found, rest), ground arith)

  All-Extends :
      (C : Posting Decimal → Balance Decimal → Type 0) (balances : List (String × Balance Decimal))
      (t u : Scope) (ps : List (Posting Decimal))
      → Extends t u
      → All (Found C balances t) ps
      → All (Found C balances u) ps
  All-Extends C balances t u [] x h = tt
  All-Extends C balances t u (p ∷ ps) x h =
      (Found-Extends C balances t u p x h.0, All-Extends C balances t u ps x h.1)

  -- Accepted eligibility: every posting of the plan has its balance in the catalog, of the posting's
  -- account and the plan's asset. A source may send, its available amount covers the posting's, which
  -- is within the decimal bounds, and it is not external if the plan is pending. A destination may
  -- receive, and holds nothing if it is external. All balances that name an organization or a ledger
  -- name the same ones.
  pub validate_balance_eligibility-Found :
      (plan : IntentPlan Decimal) (balances : List (String × Balance Decimal)) {u : Unit {0}}
      → validate_balance_eligibility d plan balances ≡ ok u
      → (t : Scope) × All (Found (SourceChecked plan) balances t) plan.sources
        × All (Found (DestinationChecked plan) balances t) plan.destinations
  unfolding validate_balance_eligibility
  validate_balance_eligibility-Found plan [] h = cc
  validate_balance_eligibility-Found plan (entry ∷ rest) h =
      let balances = entry ∷ rest in
      let (s, e, h₁) =
        >>=-eq-ok (validate_each d (validate_source_posting d plan balances) plan.sources no_scope)
          _ h in
      let (t, e', h₂) =
        >>=-eq-ok
          (validate_each d (validate_destination_posting d plan balances) plan.destinations s) _
          h₁ in
      let (sources, _) =
        validate_each-Found (validate_source_posting d plan balances) (SourceChecked plan) balances
          (validate_source_posting-Found plan balances) plan.sources no_scope e in
      let (destinations, x) =
        validate_each-Found (validate_destination_posting d plan balances) (DestinationChecked plan)
          balances (validate_destination_posting-Found plan balances) plan.destinations s e' in
      (t, All-Extends (SourceChecked plan) balances s t plan.sources x sources, destinations)
