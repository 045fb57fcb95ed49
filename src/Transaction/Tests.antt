-- ===== src/Transaction/Tests.antt =====
-- Whole numbers as decimals, and the transaction component's theorems at concrete inputs.
use lib_commons.Base.{
  ◌≤◌, ℕ, ◌≡◌, ◌↔◌, refl, inl, inr, Bool, true, false, String, List, [], ◌∷◌, none, some, arith,
  All, ◌/◌, if◌then◌else◌,
}
use lib_commons.Base.Int.{ℤ, pos, pos_part, ◌+ℤ◌, ◌-ℤ◌, ◌*ℤ◌, ltb_ℤ, eq_ℤ}
use lib_commons.Base.Text.{is_blank}
use lib_commons.Base.Dict.{lookup}
use lib_commons.Base.Result.{Result, ok}
use lib_commons.Transaction.Decimal.{DecimalApi, check_decimal}
use lib_commons.Transaction.{
  DomainError, Operation, TransactionStatus, Balance, LedgerTarget, Allocation,
  TransactionIntentInput, Posting, IntentPlan, debit, credit, on_hold, release, created, approved,
  pending, canceled, internal,
}
use lib_commons.Transaction.Apply.{
  apply_operation, apply_posting, apply_posting_operation, validate_posting_against_balance,
  validate_posting_result, validate_target, check_bounds,
}
use lib_commons.Transaction.Apply.Effect.{Posted, total, apply_posting-Posted}
use lib_commons.Transaction.Apply.Lifecycle.{
  is_ok, Phase, apply_operation-resolve_operation, hold-release, hold-settle, created_conserves,
  canceled_conserves, approved_gains,
}
use lib_commons.Transaction.Resolve.{resolve_operation}
use lib_commons.Transaction.Plan.{
  build_postings, any_shared, build_intent_plan, has_balance, build_loop,
  build_posting_from_allocation, validate_allocation_strategy, resolve_allocation_amount, advance,
  fill_remainder, set_amount, compute_remainder_allocation, validate_allocated_total, sum_from,
  sum_postings,
}
use lib_commons.Transaction.Plan.Sum.{sum_units}
use lib_commons.Transaction.Plan.Amounts.{AllAllotted, count_remainders, build_postings-AllAllotted}
use lib_commons.Transaction.Plan.Intent.{
  IsPlanOf, build_intent_plan-IsPlanOf, build_intent_plan_complete,
}
use lib_commons.Transaction.Eligibility.{
  Scope, validate_balance_eligibility, validate_each, validate_source_posting,
  validate_destination_posting, check_source, check_destination, validate_scope,
  validate_external_destination_balance,
}
use lib_commons.Transaction.Eligibility.Checked.{
  Found, SourceChecked, DestinationChecked, validate_balance_eligibility-Found,
}
use lib_commons.Transaction.Eligibility.Funds.{eligible-apply_posting}

-- Decimals with exponent 0, of at most nine digits.
abbrev whole : DecimalApi
whole = record {
  Decimal = ℤ;
  zero_value = pos 0;
  one_hundred = pos 100;
  add = ◌+ℤ◌;
  sub = ◌-ℤ◌;
  mul = ◌*ℤ◌;
  div = λ a b. if ltb_ℤ a (pos 0) then a else pos (pos_part a / pos_part b);
  is_positive = λ a. ltb_ℤ (pos 0) a;
  is_negative = λ a. ltb_ℤ a (pos 0);
  less_than = ltb_ℤ;
  equal = eq_ℤ;
  exponent = λ _. pos 0;
  num_digits = λ _. 9;
  units = λ a. a;
  units-zero_value = refl;
  units-add = λ a b. refl;
  units-sub = λ a b. refl;
  is_positive_lem = λ a. refl;
  is_negative_lem = λ a. refl;
  less_than_lem = λ a b. refl;
  equal_lem = λ a b. refl;
}

abbrev at : String → String → LedgerTarget
at account balance = record { account_id = account; balance_id = balance }

abbrev fixed : LedgerTarget → ℕ → Allocation ℤ
fixed t n = record {
  target = t;
  amount = some (pos n);
  share = none;
  remainder = false;
  route = "r";
}

abbrev the_rest : LedgerTarget → Allocation ℤ
the_rest t = record { target = t; amount = none; share = none; remainder = true; route = "r" }

abbrev input_of : Bool → TransactionIntentInput ℤ
input_of pend = record {
  asset = "BRL";
  total = pos 100;
  pending = pend;
  sources = fixed (at "alice" "a1") 60 ∷ the_rest (at "bob" "b1") ∷ [];
  destinations = fixed (at "shop" "s1") 100 ∷ [];
}

abbrev posting_of : LedgerTarget → ℕ → Operation → TransactionStatus → Posting ℤ
posting_of t n op st = record {
  target = t;
  asset = "BRL";
  amount = pos n;
  operation = op;
  status = st;
  route = "r";
}

abbrev direct_sources : List (Posting ℤ)
direct_sources =
    posting_of (at "alice" "a1") 60 debit created ∷ posting_of (at "bob" "b1") 40 debit created ∷ []

abbrev direct_destinations : List (Posting ℤ)
direct_destinations = posting_of (at "shop" "s1") 100 credit created ∷ []

abbrev direct_plan : IntentPlan ℤ
direct_plan = record {
  asset = "BRL";
  total = pos 100;
  pending = false;
  sources = direct_sources;
  destinations = direct_destinations;
}

abbrev balance_of : LedgerTarget → ℕ → ℕ → Balance ℤ
balance_of t free held = record {
  id = t.balance_id;
  organization_id = "org";
  ledger_id = "led";
  account_id = t.account_id;
  asset = "BRL";
  available = pos free;
  on_hold = pos held;
  version = 7;
  account_type = internal;
  allow_sending = true;
  allow_receiving = true;
  created_at = 0;
  updated_at = 0;
  deleted_at = none;
  metadata = [];
}

abbrev with_version : Balance ℤ → ℕ → Balance ℤ
with_version b n = record b { version = n }

abbrev catalog : List (String × Balance ℤ)
catalog =
    ("a1", balance_of (at "alice" "a1") 80 5)
    ∷ ("b1", balance_of (at "bob" "b1") 40 0)
    ∷ ("s1", balance_of (at "shop" "s1") 0 0)
    ∷ []

plan_built : build_intent_plan whole (input_of false) created ≡ ok direct_plan
unfolding build_intent_plan build_postings any_shared has_balance build_loop
    build_posting_from_allocation validate_allocation_strategy resolve_allocation_amount advance
    fill_remainder set_amount compute_remainder_allocation validate_allocated_total sum_from
    sum_postings validate_target check_bounds check_decimal is_blank resolve_operation ◌+ℤ◌ ◌-ℤ◌
plan_built = refl

build_intent_plan-IsPlanOf_example : IsPlanOf whole (input_of false) created direct_plan
build_intent_plan-IsPlanOf_example =
    build_intent_plan-IsPlanOf whole (input_of false) created plan_built

sources_built :
    build_postings whole "BRL" (pos 100) false created (input_of false).sources true
    ≡ ok direct_sources
unfolding build_postings build_loop build_posting_from_allocation validate_allocation_strategy
    resolve_allocation_amount advance fill_remainder set_amount compute_remainder_allocation
    validate_allocated_total validate_target check_bounds check_decimal is_blank resolve_operation
    ◌+ℤ◌ ◌-ℤ◌
sources_built = refl

destinations_built :
    build_postings whole "BRL" (pos 100) false created (input_of false).destinations false
    ≡ ok direct_destinations
unfolding build_postings build_loop build_posting_from_allocation validate_allocation_strategy
    resolve_allocation_amount advance fill_remainder validate_allocated_total validate_target
    check_bounds check_decimal is_blank resolve_operation ◌+ℤ◌
destinations_built = refl

build_postings-AllAllotted_example :
    AllAllotted whole (pos 100) (input_of false).sources direct_sources
    × (count_remainders whole (input_of false).sources ≤ 1)
    × (sum_units whole direct_sources ≡ pos 100)
build_postings-AllAllotted_example =
    build_postings-AllAllotted whole "BRL" (pos 100) false created (input_of false).sources true
      sources_built

build_intent_plan_complete_example :
    build_intent_plan whole (input_of false) created ≡ ok direct_plan
unfolding is_blank check_decimal any_shared has_balance
build_intent_plan_complete_example =
    build_intent_plan_complete whole (input_of false) created direct_sources direct_destinations
      refl refl refl sources_built destinations_built refl

plan_eligible : validate_balance_eligibility whole direct_plan catalog ≡ ok tt
unfolding validate_balance_eligibility validate_each validate_source_posting
    validate_destination_posting check_source check_destination validate_scope
    validate_external_destination_balance check_bounds check_decimal lookup
plan_eligible = refl

validate_balance_eligibility-Found_example :
    (t : Scope) × All (Found whole (SourceChecked whole direct_plan) catalog t) direct_sources
    × All (Found whole (DestinationChecked whole direct_plan) catalog t) direct_destinations
validate_balance_eligibility-Found_example =
    validate_balance_eligibility-Found whole direct_plan catalog plan_eligible

eligible-apply_posting_example :
    (c : Balance ℤ) × (apply_posting whole
        (balance_of (at "bob" "b1") 40 0)
        (posting_of (at "bob" "b1") 40 debit created)
      ≡ ok c)
unfolding lookup
eligible-apply_posting_example =
    eligible-apply_posting whole (input_of false) created direct_plan catalog
      (posting_of (at "bob" "b1") 40 debit created) (balance_of (at "bob" "b1") 40 0) plan_built
      plan_eligible (inl refl) (inr (inl refl)) refl refl (omega arith)

apply_operation-resolve_operation_example :
    (is_ok (apply_operation whole debit canceled (balance_of (at "bob" "b1") 40 0) (pos 3)) ≡ true)
    ↔ ((pend : Bool) × (source : Bool) × (resolve_operation pend source canceled ≡ ok debit))
apply_operation-resolve_operation_example =
    apply_operation-resolve_operation whole debit canceled (balance_of (at "bob" "b1") 40 0) (pos 3)

-- A hold of 30 on 100, and what follows it.
abbrev alice : ℕ → ℕ → ℕ → Balance ℤ
alice free held v = with_version (balance_of (at "alice" "a1") free held) v

abbrev shop : ℕ → ℕ → Balance ℤ
shop free v = with_version (balance_of (at "shop" "s1") free 0) v

abbrev alices : Operation → TransactionStatus → Posting ℤ
alices op st = posting_of (at "alice" "a1") 30 op st

abbrev shops : Operation → TransactionStatus → Posting ℤ
shops op st = posting_of (at "shop" "s1") 30 op st

-- ApplyPosting, with all that a run of it unfolds.
run_posting : Balance ℤ → Posting ℤ → Result DomainError (Balance ℤ)
unfolding apply_posting validate_posting_against_balance validate_target check_bounds check_decimal
    is_blank apply_posting_operation apply_operation validate_posting_result ◌+ℤ◌ ◌-ℤ◌
run_posting = apply_posting whole

alice_held : apply_posting whole (alice 100 0 7) (alices on_hold pending) ≡ ok (alice 70 30 8)
unfolding run_posting
alice_held = refl

alice_settled : apply_posting whole (alice 70 30 8) (alices debit approved) ≡ ok (alice 70 0 9)
unfolding run_posting
alice_settled = refl

alice_released : apply_posting whole (alice 70 30 8) (alices release canceled) ≡ ok (alice 100 0 9)
unfolding run_posting
alice_released = refl

alice_debited : apply_posting whole (alice 100 0 7) (alices debit created) ≡ ok (alice 70 0 8)
unfolding run_posting
alice_debited = refl

shop_paid : apply_posting whole (shop 0 7) (shops credit created) ≡ ok (shop 30 8)
unfolding run_posting
shop_paid = refl

shop_credited : apply_posting whole (shop 0 7) (shops credit pending) ≡ ok (shop 30 8)
unfolding run_posting
shop_credited = refl

shop_reversed : apply_posting whole (shop 30 8) (shops debit canceled) ≡ ok (shop 0 9)
unfolding run_posting
shop_reversed = refl

shop_credited_again : apply_posting whole (shop 30 8) (shops credit approved) ≡ ok (shop 60 9)
unfolding run_posting
shop_credited_again = refl

apply_posting-Posted_example : Posted whole (alice 100 0 7) (alices on_hold pending) (alice 70 30 8)
apply_posting-Posted_example =
    apply_posting-Posted whole (alice 100 0 7) (alices on_hold pending) alice_held

hold-release_example :
    (e : Balance ℤ) × (apply_posting whole (alice 70 30 8) (alices release canceled) ≡ ok e)
    × (e.available ≡ pos 100)
    × (e.on_hold ≡ pos 0)
hold-release_example =
    hold-release whole (alice 100 0 7) (alice 70 30 8) (alices on_hold pending)
      (alices release canceled) (refl, refl, refl) (omega arith) refl refl alice_held refl refl

hold-settle_example :
    (e : Balance ℤ) × (apply_posting whole (alice 70 30 8) (alices debit approved) ≡ ok e)
    × (e.available ≡ pos 100 -ℤ pos 30)
    × (e.on_hold ≡ pos 0)
hold-settle_example =
    hold-settle whole (alice 100 0 7) (alice 70 30 8) (alices on_hold pending)
      (alices debit approved) (refl, refl, refl) (omega arith) refl refl alice_held refl refl

abbrev phase :
    (pend source : Bool) (p : Posting ℤ) (b c : Balance ℤ)
    → resolve_operation pend source p.status ≡ ok p.operation
    → apply_posting whole b p ≡ ok c
    → Phase whole pend source p.status p.amount b c
phase pend source p b c r e = record {
  posting = p;
  resolved = r;
  in_status = refl;
  of_amount = refl;
  applied = e;
}

created_conserves_example :
    total whole (alice 70 0 8) +ℤ total whole (shop 30 8)
    ≡ total whole (alice 100 0 7) +ℤ total whole (shop 0 7)
unfolding resolve_operation
created_conserves_example =
    created_conserves whole (pos 30) (alice 100 0 7) (alice 70 0 8) (shop 0 7) (shop 30 8)
      (phase false true (alices debit created) (alice 100 0 7) (alice 70 0 8) refl alice_debited)
      (phase false false (shops credit created) (shop 0 7) (shop 30 8) refl shop_paid)

canceled_conserves_example :
    total whole (alice 100 0 9) +ℤ total whole (shop 0 9)
    ≡ total whole (alice 100 0 7) +ℤ total whole (shop 0 7)
unfolding resolve_operation
canceled_conserves_example =
    canceled_conserves whole (pos 30) (alice 100 0 7) (alice 70 30 8) (alice 100 0 9) (shop 0 7)
      (shop 30 8) (shop 0 9)
      (phase true true (alices on_hold pending) (alice 100 0 7) (alice 70 30 8) refl alice_held)
      (phase true false (shops credit pending) (shop 0 7) (shop 30 8) refl shop_credited)
      (phase true true (alices release canceled) (alice 70 30 8) (alice 100 0 9) refl
        alice_released)
      (phase true false (shops debit canceled) (shop 30 8) (shop 0 9) refl shop_reversed)

approved_gains_example :
    total whole (alice 70 0 9) +ℤ total whole (shop 60 9)
    ≡ total whole (alice 100 0 7) +ℤ total whole (shop 0 7) +ℤ pos 30
unfolding resolve_operation
approved_gains_example =
    approved_gains whole (pos 30) (alice 100 0 7) (alice 70 30 8) (alice 70 0 9) (shop 0 7)
      (shop 30 8) (shop 60 9)
      (phase true true (alices on_hold pending) (alice 100 0 7) (alice 70 30 8) refl alice_held)
      (phase true false (shops credit pending) (shop 0 7) (shop 30 8) refl shop_credited)
      (phase true true (alices debit approved) (alice 70 30 8) (alice 70 0 9) refl alice_settled)
      (phase true false (shops credit approved) (shop 30 8) (shop 60 9) refl shop_credited_again)
