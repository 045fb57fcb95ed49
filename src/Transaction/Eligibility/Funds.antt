-- ===== src/Transaction/Eligibility/Funds.antt =====
-- From BuildIntentPlan over ValidateBalanceEligibility to ApplyPosting: each source posting of an
-- eligible plan, taken alone.
use lib_commons.Base.{
  ◌≡◌, sym, ◌∙◌, ◌⊎◌, inl, inr, Bool, true, false, arith, String, List, [], ◌∷◌, In, All-In, subst,
  some, ◌+◌, ◌%◌, ◌^◌,
}
use lib_commons.Base.Int.{pos, ◌≤ℤ◌, int_laws}
use lib_commons.Base.Text.{is_blank, str_eq_refl}
use lib_commons.Base.Dict.{lookup}
use lib_commons.Base.Result.{ok}
use lib_commons.Transaction.Decimal.{DecimalApi, check_decimal}
use lib_commons.Transaction.{
  TransactionStatus, created, pending, Balance, Posting, Allocation, IntentPlan,
  TransactionIntentInput, Operation,
}
use lib_commons.Transaction.Apply.{
  validate_target, check_bounds, validate_posting_against_balance, apply_operation, apply_posting,
}
use lib_commons.Transaction.Apply.Lifecycle.{apply_posting-ok}
use lib_commons.Transaction.Resolve.{resolve_operation}
use lib_commons.Transaction.Plan.{build_intent_plan}
use lib_commons.Transaction.Plan.Shape.{Answers, Positive}
use lib_commons.Transaction.Plan.Sum.{AllAnswer}
use lib_commons.Transaction.Plan.Intent.{build_intent_plan-IsPlanOf}
use lib_commons.Transaction.Eligibility.{validate_balance_eligibility}
use lib_commons.Transaction.Eligibility.Checked.{
  SourceChecked, Found, validate_balance_eligibility-Found,
}

module _ (d : DecimalApi) where
  open d use {Decimal, units, add, sub, units-add, units-sub, is_positive, is_positive_lem}

  AllAnswer-In :
      (asset : String) (pend : Bool) (status : TransactionStatus) (is_source : Bool)
      (as' : List (Allocation Decimal)) (ps : List (Posting Decimal)) (p : Posting Decimal)
      → AllAnswer d asset pend status is_source as' ps
      → In p ps
      → (a : Allocation Decimal) × Answers d asset pend status is_source a p
  AllAnswer-In asset pend status is_source [] [] p h m = absurd m
  AllAnswer-In asset pend status is_source [] (q ∷ ps) p h m = absurd h
  AllAnswer-In asset pend status is_source (a ∷ as') [] p h m = absurd m
  AllAnswer-In asset pend status is_source (a ∷ as') (q ∷ ps) p h (inl e) =
      (a, subst (Answers d asset pend status is_source a) (sym e) h.0)
  AllAnswer-In asset pend status is_source (a ∷ as') (q ∷ ps) p h (inr m) =
      AllAnswer-In asset pend status is_source as' ps p h.1 m

  valid_posting :
      (b : Balance Decimal) (p : Posting Decimal)
      → is_blank p.target.account_id ≡ false
      → is_blank p.target.balance_id ≡ false
      → b.id ≡ p.target.balance_id
      → b.account_id ≡ p.target.account_id
      → b.asset ≡ p.asset
      → check_decimal d p.amount ≡ true
      → Positive d p.amount
      → validate_posting_against_balance d b p ≡ ok tt
  unfolding validate_posting_against_balance validate_target check_bounds
  valid_posting b p n₁ n₂ e₁ e₂ e₃ bounds v =
      let positive : is_positive p.amount ≡ true = is_positive_lem p.amount ∙ ground arith in
      rw (
        n₁,
        n₂,
        e₁,
        str_eq_refl p.target.balance_id,
        e₂,
        str_eq_refl p.target.account_id,
        e₃,
        str_eq_refl p.asset,
        bounds,
        positive,
      )

  -- The first posting of a source, direct or pending, takes only what is available.
  first_operation :
      (pend : Bool) (st : TransactionStatus) (op : Operation) (b : Balance Decimal) (x : Decimal)
      → (st ≡ created) ⊎ (st ≡ pending)
      → resolve_operation pend true st ≡ ok op
      → pos 0 ≤ℤ units b.on_hold
      → units x ≤ℤ units b.available
      → Positive d x
      → (u : Balance Decimal) × (apply_operation d op st b x ≡ ok u)
        × (pos 0 ≤ℤ units u.available)
        × (pos 0 ≤ℤ units u.on_hold)
  unfolding resolve_operation apply_operation
  first_operation false created op b x first r h k v = (
    record b { available = sub b.available x },
    ground arith,
    rw (units-sub b.available x) (omega int_laws),
    h,
  )
  first_operation true pending op b x first r h k v = (
    record b { available = sub b.available x; on_hold = add b.on_hold x },
    ground arith,
    rw (units-sub b.available x) (omega int_laws),
    rw (units-add b.on_hold x) (omega int_laws),
  )
  first_operation pend st op b x first r h k v = absurd (ground arith)

  -- Take a plan that BuildIntentPlan made for a direct (CREATED) or a pending (PENDING) transaction
  -- and that ValidateBalanceEligibility accepted. ApplyPosting then accepts each source posting, taken
  -- alone, on its balance of the catalog, provided that the catalog lists the balance under its own id
  -- and that its held amount is not negative. Neither is checked by ValidateBalanceEligibility, and
  -- several source postings of one balance are not accumulated.
  pub eligible-apply_posting :
      (input : TransactionIntentInput Decimal) (status : TransactionStatus)
      (plan : IntentPlan Decimal) (balances : List (String × Balance Decimal)) (p : Posting Decimal)
      (b : Balance Decimal)
      → build_intent_plan d input status ≡ ok plan
      → validate_balance_eligibility d plan balances ≡ ok tt
      → (status ≡ created) ⊎ (status ≡ pending)
      → In p plan.sources
      → lookup p.target.balance_id balances ≡ some b
      → b.id ≡ p.target.balance_id
      → pos 0 ≤ℤ units b.on_hold
      → (c : Balance Decimal) × (apply_posting d b p ≡ ok c)
  eligible-apply_posting input status plan balances p b built eligible first m found id held =
      let q = build_intent_plan-IsPlanOf d input status built in
      let (a, ans) =
        AllAnswer-In input.asset input.pending status true input.sources plan.sources p q.sources.0
          m in
      let v : Positive d p.amount = All-In (λ p. Positive d p.amount) plan.sources q.sources.1 m in
      let (t, all, _) = validate_balance_eligibility-Found d plan balances eligible in
      let (b', found', c, _) =
        All-In (Found d (SourceChecked d plan) balances t) plan.sources all m in
      let same : b' ≡ b = cc in
      let checked : SourceChecked d plan p b = subst (SourceChecked d plan p) same c in
      let valid =
        valid_posting b p (rw ans.target ans.account_named) (rw ans.target ans.balance_named) id
          checked.account (checked.asset ∙ q.asset ∙ sym ans.asset_kept) checked.in_bounds v in
      let (u, applied, free, on_hold_left) =
        first_operation input.pending p.status p.operation b p.amount (rw ans.status_kept first)
          (rw ans.status_kept ans.operation) held checked.funds v in
      (
        record u { version = (u.version + 1) % 2 ^ 64 },
        apply_posting-ok d b u p valid applied free on_hold_left,
      )
