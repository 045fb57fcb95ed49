-- ===== src/Transaction/Plan/Amounts.antt =====
-- buildPostings of commons/transaction/validations.go: the amount of each posting.
use lib_commons.Base.{
  ℕ, zero, suc, ◌+◌, ◌≤◌, ◌≡◌, refl, sym, ap, subst, ◌∙◌, inl, inr, Bool, true, false, arith,
  String, List, [], ◌∷◌, Option, none, some, if◌then◌else◌,
}
use lib_commons.Base.Int.{pos, ◌≤ℤ◌, int_laws}
use lib_commons.Base.Result.{ok, >>=-eq-ok, ok-injective}
use lib_commons.Transaction.Decimal.{DecimalApi}
use lib_commons.Transaction.{TransactionStatus, Field, Allocation, Posting, indexed}
use lib_commons.Transaction.Apply.{validate_target}
use lib_commons.Transaction.Resolve.{resolve_operation}
use lib_commons.Transaction.Plan.{
  advance, validate_allocated_total, validate_allocation_strategy, resolve_allocation_amount,
  build_posting_from_allocation, set_amount, compute_remainder_allocation, fill_remainder,
  build_postings, build_loop,
}
use lib_commons.Transaction.Plan.Shape.{Positive}
use lib_commons.Transaction.Plan.Sum.{sum_units, OneHole}
use lib_commons.Transaction.Plan.Loop.{Built, Open, loop-cons, loop-Open}
use lib_commons.Transaction.Plan.Total.{build_postings-Side}

-- An allocation with neither an amount nor a share takes the remainder.
abbrev takes_remainder {ℓ} : {A : Type ℓ} → Option A → Option A → ℕ
takes_remainder none none = 1
takes_remainder _ _ = 0

module _ (d : DecimalApi) where
  open d use {Decimal, units, units-zero_value, zero_value, mul, div, one_hundred, is_positive_lem}

  -- The amount of an allocation with an amount or a share.
  abbrev AllottedBy : Decimal → Option Decimal → Option Decimal → Decimal → Type 0
  AllottedBy total (some amount) share x = (x ≡ amount) × Positive d x
  AllottedBy total none (some share) x = (x ≡ mul total (div share one_hundred)) × Positive d x
  AllottedBy total none none x = Unit

  abbrev pub AllAllotted : Decimal → List (Allocation Decimal) → List (Posting Decimal) → Type 0
  AllAllotted total [] [] = Unit
  AllAllotted total (a ∷ as') (p ∷ ps) =
      AllottedBy total a.amount a.share p.amount × AllAllotted total as' ps
  AllAllotted total _ _ = ⊥

  -- How many allocations take the remainder.
  abbrev pub count_remainders : List (Allocation Decimal) → ℕ
  count_remainders [] = 0
  count_remainders (a ∷ as') = takes_remainder a.amount a.share + count_remainders as'

  resolve_allocation_amount-AllottedBy :
      (total : Decimal) (amount share : Option Decimal) (rem : Bool) (f : Field)
      {r : Decimal × Bool}
      → resolve_allocation_amount d total amount share rem f ≡ ok r
      → AllottedBy total amount share (if r.1 then zero_value else r.0)
        × (r.1 ≡ false → takes_remainder amount share ≡ 0)
  unfolding resolve_allocation_amount
  resolve_allocation_amount-AllottedBy total (some x) share rem f h =
      ground (arith, is_positive_lem x)
  resolve_allocation_amount-AllottedBy total none (some s) rem f h =
      ground (arith, is_positive_lem (mul total (div s one_hundred)))
  resolve_allocation_amount-AllottedBy total none none rem f h = ground arith

  not_positive : Positive d zero_value → ⊥
  not_positive v = omega (int_laws, subst (λ z. pos 1 ≤ℤ z) units-zero_value v)

  set_amount-AllottedBy :
      (total : Decimal) (amount share : Option Decimal) (x y : Decimal)
      → x ≡ zero_value
      → AllottedBy total amount share x
      → AllottedBy total amount share y
  set_amount-AllottedBy total (some a) share x y e h =
      absurd (not_positive (subst (Positive d) e h.1))
  set_amount-AllottedBy total none (some s) x y e h =
      absurd (not_positive (subst (Positive d) e h.1))
  set_amount-AllottedBy total none none x y e h = tt

  -- The remainder is written where no amount and no share was given.
  set_amount-AllAllotted :
      (total : Decimal) (k : ℕ) (y : Decimal) (as' : List (Allocation Decimal))
      (ps : List (Posting Decimal))
      → OneHole d k ps
      → AllAllotted total as' ps
      → AllAllotted total as' (set_amount d k y ps)
  unfolding set_amount
  set_amount-AllAllotted total k y as' [] hole h = absurd hole
  set_amount-AllAllotted total k y [] (p ∷ ps) hole h = absurd h
  set_amount-AllAllotted total zero y (a ∷ as') (p ∷ ps) hole h =
      (set_amount-AllottedBy total a.amount a.share p.amount y hole.0 h.0, h.1)
  set_amount-AllAllotted total (suc k) y (a ∷ as') (p ∷ ps) hole h =
      (h.0, set_amount-AllAllotted total k y as' ps hole.1 h.1)

  module _ (asset : String) (total : Decimal) (pending : Bool) (status : TransactionStatus)
      (is_source : Bool) where
    build_posting-AllottedBy :
        (a : Allocation Decimal) (f : Field) {r : Posting Decimal × Decimal × Bool}
        → build_posting_from_allocation d asset total pending status is_source a f ≡ ok r
        → AllottedBy total a.amount a.share r.0.amount
          × (r.2 ≡ false → takes_remainder a.amount a.share ≡ 0)
    unfolding build_posting_from_allocation
    build_posting-AllottedBy a f {r} h =
        let (_, _, h₁) = >>=-eq-ok (validate_target a.target _) _ h in
        let (_, _, h₂) = >>=-eq-ok (validate_allocation_strategy d a f) _ h₁ in
        let (_, _, h₃) = >>=-eq-ok (resolve_operation pending is_source status) _ h₂ in
        let (q, m, h₄) =
          >>=-eq-ok (resolve_allocation_amount d total a.amount a.share a.remainder f) _ h₃ in
        subst
          (λ (z : Posting Decimal × Decimal × Bool).
            AllottedBy total a.amount a.share z.0.amount
            × (z.2 ≡ false → takes_remainder a.amount a.share ≡ 0))
          (ok-injective h₄)
          (resolve_allocation_amount-AllottedBy total a.amount a.share a.remainder f m)

  -- How many later allocations may take the remainder.
  room : Option ℕ → ℕ
  room none = 1
  room (some j) = 0

  advance-room :
      (f : Field) (i : ℕ) (before : Decimal) (j : Option ℕ) (x : Decimal) (u : Bool) (taken : ℕ)
      {n : Decimal × Option ℕ}
      → advance d f i before j x u ≡ ok n
      → (u ≡ false → taken ≡ 0)
      → taken ≤ 1
      → taken + room n.1 ≤ room j
  unfolding advance room
  advance-room f i before j x false taken h none_taken most =
      subst (λ (m : Decimal × Option ℕ). taken + room m.1 ≤ room j) (ok-injective h)
        (omega (arith, none_taken refl))
  advance-room f i before none x true taken h none_taken most =
      subst (λ (m : Decimal × Option ℕ). taken + room m.1 ≤ 1) (ok-injective h)
        (omega (arith, most))
  advance-room f i before (some j) x true taken h none_taken most = cc h

  takes_remainder_most : {A : Type 0} (x y : Option A) → takes_remainder x y ≤ 1
  takes_remainder_most none none = omega arith
  takes_remainder_most none (some y) = omega arith
  takes_remainder_most (some x) y = omega arith

  module _ (asset : String) (total : Decimal) (pending : Bool) (status : TransactionStatus)
      (is_source : Bool) (side : String) where
    loop-AllAllotted :
        (i : ℕ) (before : Decimal) (j : Option ℕ) (as' : List (Allocation Decimal))
        {r : Built d asset total pending status is_source side}
        → build_loop d asset total pending status is_source side i before j as' ≡ ok r
        → AllAllotted total as' r.0 × (count_remainders as' ≤ room j)
    unfolding build_loop room
    loop-AllAllotted i before j [] h =
        subst
          (λ (r : Built d asset total pending status is_source side).
            AllAllotted total [] r.0 × (0 ≤ room j))
          (ok-injective h) (tt, omega arith)
    loop-AllAllotted i before j (a ∷ as') h =
        let (b, n, rest, e₁, e₂, e₃, e₄) =
          loop-cons d asset total pending status is_source side i before j a as' h in
        let (allotted, plain) =
          build_posting-AllottedBy asset total pending status is_source a (indexed side i) e₁ in
        let (later, most) = loop-AllAllotted (suc i) n.0 n.1 as' e₃ in
        let one =
          advance-room (indexed side i) i before j b.1 b.2 (takes_remainder a.amount a.share) e₂
            plain (takes_remainder_most a.amount a.share) in
        subst
          (λ (r : Built d asset total pending status is_source side).
            AllAllotted total (a ∷ as') r.0
            × (takes_remainder a.amount a.share + count_remainders as' ≤ room j))
          (sym e₄) ((allotted, later), omega (arith, most, one))

    fill_remainder-AllAllotted :
        (as' : List (Allocation Decimal)) (r : Built d asset total pending status is_source side)
        (filled : List (Posting Decimal) × Decimal)
        → Open d asset total pending status is_source side zero_value 0 as' r
        → AllAllotted total as' r.0
        → fill_remainder d total r.0 r.1 r.2 ≡ ok filled
        → AllAllotted total as' filled.0
    unfolding fill_remainder
    fill_remainder-AllAllotted as' r filled (_, inl (all, e)) allotted h =
        let q = ok-injective (subst (λ o. fill_remainder d total r.0 r.1 o ≡ ok filled) e h) in
        subst (λ (f : List (Posting Decimal) × Decimal). AllAllotted total as' f.0) q allotted
    fill_remainder-AllAllotted as' r filled (_, inr (k, hole, e)) allotted h =
        let o : r.2 ≡ some k = e ∙ ap some (omega arith) in
        let h' = subst (λ o. fill_remainder d total r.0 r.1 o ≡ ok filled) o h in
        let (x, c, h'') = >>=-eq-ok (compute_remainder_allocation d total r.1) _ h' in
        subst (λ (f : List (Posting Decimal) × Decimal). AllAllotted total as' f.0)
          (ok-injective h'') (set_amount-AllAllotted total k x as' r.0 hole allotted)

-- buildPostings returns one posting for each allocation, in order: with an explicit amount, that
-- amount, and with a share, total * (share / 100), both positive; at most one allocation has neither
-- and takes the remainder; and the amounts add up to exactly the total, so that the posting with the
-- remainder has what the others leave of it.
pub build_postings-AllAllotted :
    (d : DecimalApi) (asset : String) (total : d.Decimal) (pending : Bool)
    (status : TransactionStatus) (allocations : List (Allocation d.Decimal)) (is_source : Bool)
    {ps : List (Posting d.Decimal)}
    → build_postings d asset total pending status allocations is_source ≡ ok ps
    → AllAllotted d total allocations ps
      × (count_remainders d allocations ≤ 1)
      × (sum_units d ps ≡ d.units total)
unfolding build_postings room
build_postings-AllAllotted d asset total pending status allocations is_source {ps} h =
    let side = if is_source then "sources" else "destinations" in
    let (r, e, h₁) =
      >>=-eq-ok
        (build_loop d asset total pending status is_source side 0 d.zero_value none allocations) _
        h in
    let (f, e', h₂) = >>=-eq-ok (fill_remainder d total r.0 r.1 r.2) _ h₁ in
    let (_, _, h₃) = >>=-eq-ok (validate_allocated_total d f.1 total) _ h₂ in
    let (allotted, most) =
      loop-AllAllotted d asset total pending status is_source side 0 d.zero_value none allocations
        e in
    (
      subst (AllAllotted d total allocations) (ok-injective h₃) (
          fill_remainder-AllAllotted d asset total pending status is_source side allocations r f
            (loop-Open d asset total pending status is_source side 0 d.zero_value allocations e)
            allotted e'),
      most,
      (build_postings-Side d asset total pending status allocations is_source h).2,
    )
