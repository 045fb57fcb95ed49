-- ===== src/Transaction/Plan/Intent.antt =====
-- What BuildIntentPlan guarantees of the plan that it returns, and when it returns one.
use lib_commons.Base.{
  ◌≡◌, refl, ◌∙◌, ◌≢◌, inl, inr, Bool, true, false, not, ◌||◌, arith, List, [], ◌∷◌, In, subst,
}
use lib_commons.Base.Int.{pos, ◌≤ℤ◌}
use lib_commons.Base.Text.{is_blank, str_eq_refl}
use lib_commons.Base.Result.{ok, refuse, >>=-eq-ok, refuse-eq-ok, ok-injective}
use lib_commons.Transaction.Decimal.{DecimalApi, check_decimal}
use lib_commons.Transaction.{
  TransactionStatus, TransactionIntentInput, Allocation, Posting, IntentPlan,
}
use lib_commons.Transaction.Apply.{check_bounds}
use lib_commons.Transaction.Plan.{
  is_empty, build_postings, sum_postings, has_balance, any_shared, build_intent_plan,
}
use lib_commons.Transaction.Plan.Sum.{sum_units, AllPositive, AllAnswer}
use lib_commons.Transaction.Plan.Total.{sum_postings-sum_units, build_postings-Side}

module _ (d : DecimalApi) where
  open d use {Decimal, units, equal, equal_lem, is_positive, is_positive_lem}

  has_balance-In :
      (ps : List (Posting Decimal)) (p : Posting Decimal)
      → In p ps
      → has_balance d p.target.balance_id ps ≡ true
  unfolding has_balance
  has_balance-In [] p m = absurd m
  has_balance-In (q ∷ ps) p (inl e) = ground (arith, str_eq_refl p.target.balance_id)
  has_balance-In (q ∷ ps) p (inr m) = ground (arith, has_balance-In ps p m)

  -- No balance stands on both sides.
  any_shared-disjoint :
      (ps qs : List (Posting Decimal))
      → any_shared d ps qs ≡ false
      → (p q : Posting Decimal) → In p ps
      → In q qs
      → p.target.balance_id ≢ q.target.balance_id
  unfolding any_shared
  any_shared-disjoint ps [] h p q m n e = absurd n
  any_shared-disjoint ps (r ∷ qs) h p q m (inl n) e = ground (arith, has_balance-In ps p m)
  any_shared-disjoint ps (r ∷ qs) h p q m (inr n) e =
      any_shared-disjoint ps qs (ground arith) p q m n e

  pub record IsPlanOf (input : TransactionIntentInput Decimal) (status : TransactionStatus)
      (plan : IntentPlan Decimal) : Type 0 where
    pub asset : plan.asset ≡ input.asset
    pub total : plan.total ≡ input.total
    pub pending : plan.pending ≡ input.pending
    pub total_positive : pos 1 ≤ℤ units plan.total
    pub sources :
        AllAnswer d input.asset input.pending status true input.sources plan.sources
        × AllPositive d plan.sources
        × (sum_units d plan.sources ≡ units input.total)
    pub destinations :
        AllAnswer d input.asset input.pending status false input.destinations plan.destinations
        × AllPositive d plan.destinations
        × (sum_units d plan.destinations ≡ units input.total)
    pub disjoint :
        (p q : Posting Decimal)
        → In p plan.sources
        → In q plan.destinations
        → p.target.balance_id ≢ q.target.balance_id

  -- A plan that BuildIntentPlan returns keeps the input's asset, total and pending flag; the total is
  -- positive; on each side the postings answer to the allocations one by one, all amounts are
  -- positive and add up to exactly the total; and no balance is both source and destination.
  pub build_intent_plan-IsPlanOf :
      (input : TransactionIntentInput Decimal) (status : TransactionStatus)
      {plan : IntentPlan Decimal}
      → build_intent_plan d input status ≡ ok plan
      → IsPlanOf input status plan
  unfolding build_intent_plan
  build_intent_plan-IsPlanOf input status h =
      let (_, _, h₁) = >>=-eq-ok (refuse (is_blank input.asset) _) _ h in
      let (_, _, h₂) = >>=-eq-ok (check_bounds d input.total _) _ h₁ in
      let (_, positive, h₃) = >>=-eq-ok (refuse (not (is_positive input.total)) _) _ h₂ in
      let (_, _, h₄) = >>=-eq-ok (refuse (is_empty input.sources) _) _ h₃ in
      let (_, _, h₅) = >>=-eq-ok (refuse (is_empty input.destinations) _) _ h₄ in
      let (ps, e, h₆) =
        >>=-eq-ok (build_postings d input.asset input.total input.pending status input.sources true)
          _ h₅ in
      let (qs, e', h₇) =
        >>=-eq-ok
          (build_postings d input.asset input.total input.pending status input.destinations false) _
          h₆ in
      let (_, _, h₈) =
        >>=-eq-ok
          (refuse
            (not (equal (sum_postings d ps) input.total)
              || not (equal (sum_postings d qs) input.total))
            _)
          _ h₇ in
      let (_, apart, h₉) = >>=-eq-ok (refuse (any_shared d ps qs) _) _ h₈ in
      subst (IsPlanOf input status) (ok-injective h₉) (record {
        asset = refl;
        total = refl;
        pending = refl;
        total_positive =
            let b = refuse-eq-ok (not (is_positive input.total)) _ positive in
            ground (arith, is_positive_lem input.total);
        sources =
            build_postings-Side d input.asset input.total input.pending status input.sources true e;
        destinations =
            build_postings-Side d input.asset input.total input.pending status input.destinations
              false e';
        disjoint = any_shared-disjoint ps qs (refuse-eq-ok (any_shared d ps qs) _ apart);
      })

  -- The sums of two sides that buildPostings returned pass the comparison with the total.
  sums_pass :
      (input : TransactionIntentInput Decimal) (status : TransactionStatus)
      (as' : List (Allocation Decimal)) (is_source : Bool) {ps : List (Posting Decimal)}
      → build_postings d input.asset input.total input.pending status as' is_source ≡ ok ps
      → equal (sum_postings d ps) input.total ≡ true
  sums_pass input status as' is_source {ps} h =
      let side =
        build_postings-Side d input.asset input.total input.pending status as' is_source h in
      equal_lem _ _ ∙ rw (sum_postings-sum_units d ps ∙ side.2) (ground arith)

  -- No allocation makes no positive total.
  empty_refused :
      (input : TransactionIntentInput Decimal) (status : TransactionStatus)
      (as' : List (Allocation Decimal)) (is_source : Bool) {ps : List (Posting Decimal)}
      → is_positive input.total ≡ true
      → build_postings d input.asset input.total input.pending status as' is_source ≡ ok ps
      → is_empty as' ≡ false
  unfolding sum_units
  empty_refused input status (a ∷ as') is_source v h = refl
  empty_refused input status [] is_source {ps} v h = absurd (
      nothing ps
        (build_postings-Side d input.asset input.total input.pending status [] is_source h))
    where
      nothing :
          (ps : List (Posting Decimal))
          → AllAnswer d input.asset input.pending status is_source [] ps
            × AllPositive d ps
            × (sum_units d ps ≡ units input.total)
          → ⊥
      nothing [] (_, _, e) = ground (arith, is_positive_lem input.total)
      nothing (p ∷ ps) (a, _, _) = a

  -- Whenever the asset is named, the total in bounds and positive, both sides can be built and share
  -- no balance, BuildIntentPlan returns the plan of those sides: its later comparison of the sums
  -- with the total never refuses one.
  pub build_intent_plan_complete :
      (input : TransactionIntentInput Decimal) (status : TransactionStatus)
      (ps qs : List (Posting Decimal))
      → is_blank input.asset ≡ false
      → check_decimal d input.total ≡ true
      → is_positive input.total ≡ true
      → build_postings d input.asset input.total input.pending status input.sources true ≡ ok ps
      → build_postings d input.asset input.total input.pending status input.destinations false
        ≡ ok qs
      → any_shared d ps qs ≡ false
      → build_intent_plan d input status
        ≡ ok (record {
          asset = input.asset;
          total = input.total;
          pending = input.pending;
          sources = ps;
          destinations = qs;
        })
  unfolding build_intent_plan check_bounds
  build_intent_plan_complete input status ps qs blank bounds v e e' apart = rw (
    blank,
    bounds,
    v,
    empty_refused input status input.sources true v e,
    empty_refused input status input.destinations false v e',
    e,
    e',
    sums_pass input status input.sources true e,
    sums_pass input status input.destinations false e',
    apart,
  )
