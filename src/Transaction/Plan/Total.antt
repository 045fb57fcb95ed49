-- ===== src/Transaction/Plan/Total.antt =====
-- The postings of one side of a plan: as many as the allocations, each positive, together the total.
use lib_commons.Base.{
  ◌≡◌, sym, ap, subst, ◌∙◌, inl, inr, Bool, true, arith, String, List, [], ◌∷◌, none, some,
  if◌then◌else◌,
}
use lib_commons.Base.Int.{◌+ℤ◌, int_laws, eq_of_parts}
use lib_commons.Base.Result.{ok, >>=-eq-ok, ok-injective}
use lib_commons.Transaction.Decimal.{DecimalApi}
use lib_commons.Transaction.{TransactionStatus, Allocation, Posting}
use lib_commons.Transaction.Plan.{
  build_loop, fill_remainder, compute_remainder_allocation, validate_allocated_total,
  build_postings, sum_from, sum_postings,
}
use lib_commons.Transaction.Plan.Shape.{Positive}
use lib_commons.Transaction.Plan.Sum.{
  sum_units, AllPositive, AllAnswer, set_amount-AllPositive, sum_units-set_amount,
  set_amount-AllAnswer,
}
use lib_commons.Transaction.Plan.Loop.{Built, Open, loop-Open}

module _ (d : DecimalApi) where
  open d use {
    Decimal, units, units-add, units-sub, units-zero_value, zero_value, add, sub, is_positive_lem,
    equal, equal_lem,
  }

  equal-units : (a b : Decimal) → equal a b ≡ true → units a ≡ units b
  equal-units a b h = eq_of_parts _ _ (ground (arith, equal_lem a b))

  compute_remainder-Positive :
      (total allocated : Decimal) {r : Decimal}
      → compute_remainder_allocation d total allocated ≡ ok r
      → (r ≡ sub total allocated) × Positive d r
  unfolding compute_remainder_allocation
  compute_remainder-Positive total allocated h =
      ground (arith, is_positive_lem (sub total allocated))

  validate_allocated_total-units :
      (allocated total : Decimal) {u : Unit {0}}
      → validate_allocated_total d allocated total ≡ ok u
      → units allocated ≡ units total
  unfolding validate_allocated_total
  validate_allocated_total-units a t h = equal-units a t (ground arith)

  from_zero :
      (after : Decimal) (ps : List (Posting Decimal))
      → units after ≡ units zero_value +ℤ sum_units d ps
      → sum_units d ps ≡ units after
  from_zero after ps h = sym (h ∙ rw units-zero_value (omega int_laws))

  sum_from-sum_units :
      (t : Decimal) (ps : List (Posting Decimal))
      → units (sum_from d t ps) ≡ units t +ℤ sum_units d ps
  unfolding sum_from sum_units
  sum_from-sum_units t [] = omega int_laws
  sum_from-sum_units t (p ∷ ps) =
      sum_from-sum_units (add t p.amount) ps ∙ rw (units-add t p.amount) (omega int_laws)

  -- The program's sum is the exact one.
  pub sum_postings-sum_units :
      (ps : List (Posting Decimal)) → units (sum_postings d ps) ≡ sum_units d ps
  unfolding sum_postings
  sum_postings-sum_units ps =
      sum_from-sum_units zero_value ps ∙ rw units-zero_value (omega int_laws)

  module _ (asset : String) (total : Decimal) (pending : Bool) (status : TransactionStatus)
      (is_source : Bool) (side : String) (allocations : List (Allocation Decimal)) where
    abbrev Side : List (Posting Decimal) → Type 0
    Side ps =
        AllAnswer d asset pending status is_source allocations ps
        × AllPositive d ps
        × (sum_units d ps ≡ units total)

    -- The remainder, put in its place, completes the total.
    fill_remainder-Side :
        (r : Built d asset total pending status is_source side)
        (filled : List (Posting Decimal) × Decimal)
        → Open d asset total pending status is_source side zero_value 0 allocations r
        → fill_remainder d total r.0 r.1 r.2 ≡ ok filled
        → units filled.1 ≡ units total
        → Side filled.0
    unfolding fill_remainder
    fill_remainder-Side r filled ((ans, sums), inl (all, e)) h t =
        let q = ok-injective (subst (λ o. fill_remainder d total r.0 r.1 o ≡ ok filled) e h) in
        subst (λ (f : List (Posting Decimal) × Decimal). units f.1 ≡ units total → Side f.0) q
          (λ t'. (ans, all, from_zero r.1 r.0 sums ∙ t')) t
    fill_remainder-Side r filled ((ans, sums), inr (k, hole, e)) h t =
        let o : r.2 ≡ some k = e ∙ ap some (omega arith) in
        let h' = subst (λ o. fill_remainder d total r.0 r.1 o ≡ ok filled) o h in
        let (x, c, h'') = >>=-eq-ok (compute_remainder_allocation d total r.1) _ h' in
        let (_, v) = compute_remainder-Positive total r.1 c in
        subst (λ (f : List (Posting Decimal) × Decimal). units f.1 ≡ units total → Side f.0)
          (ok-injective h'')
          (λ t'. (
            set_amount-AllAnswer d asset pending status is_source k x allocations r.0 ans,
            set_amount-AllPositive d k x r.0 hole v,
            sum_units-set_amount d k x r.0 hole
                ∙ ap (λ y. y +ℤ units x) (from_zero r.1 r.0 sums)
                ∙ sym (units-add r.1 x)
                ∙ t',
          ))
          t

-- The postings that buildPostings returns are one for each allocation, in order, each for its target
-- and route, with the operation that ResolveOperation gives; every amount is positive, also the
-- remainder's, and the amounts add up to exactly the total.
pub build_postings-Side :
    (d : DecimalApi) (asset : String) (total : d.Decimal) (pending : Bool)
    (status : TransactionStatus) (allocations : List (Allocation d.Decimal)) (is_source : Bool)
    {ps : List (Posting d.Decimal)}
    → build_postings d asset total pending status allocations is_source ≡ ok ps
    → AllAnswer d asset pending status is_source allocations ps
      × AllPositive d ps
      × (sum_units d ps ≡ d.units total)
unfolding build_postings
build_postings-Side d asset total pending status allocations is_source h =
    let side = if is_source then "sources" else "destinations" in
    let (r, e, h₁) =
      >>=-eq-ok
        (build_loop d asset total pending status is_source side 0 d.zero_value none allocations) _
        h in
    let (f, e', h₂) = >>=-eq-ok (fill_remainder d total r.0 r.1 r.2) _ h₁ in
    let (_, v, h₃) = >>=-eq-ok (validate_allocated_total d f.1 total) _ h₂ in
    subst
      (λ ps.
        AllAnswer d asset pending status is_source allocations ps
        × AllPositive d ps
        × (sum_units d ps ≡ d.units total))
      (ok-injective h₃)
      (fill_remainder-Side d asset total pending status is_source side allocations r f
        (loop-Open d asset total pending status is_source side 0 d.zero_value allocations e) e'
        (validate_allocated_total-units d f.1 total v))
