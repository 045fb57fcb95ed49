-- ===== src/Transaction/Apply/Lifecycle.antt =====
-- ApplyPosting along the life of a transaction: which postings are accepted, and what a hold
-- followed by its release or its settlement leaves.
use lib_commons.Base.{◌+◌, ◌%◌, ◌^◌, ◌≡◌, refl, ◌↔◌, Bool, true, false, arith, ◌∙◌}
use lib_commons.Base.Int.{ℤ, pos, ◌+ℤ◌, ◌-ℤ◌, ◌≤ℤ◌, int_laws}
use lib_commons.Base.Result.{Result, ok, err, >>=-eq-ok}
use lib_commons.Transaction.Decimal.{DecimalApi}
use lib_commons.Transaction.{
  Operation, other, TransactionStatus, Balance, Posting, debit, credit, on_hold, release, created,
  approved, pending, canceled,
}
use lib_commons.Transaction.Apply.{
  validate_posting_against_balance, apply_operation, apply_posting_operation,
  validate_posting_result, apply_posting,
}
use lib_commons.Transaction.Apply.Effect.{SameOwner, total, signed, apply_posting-Posted}
use lib_commons.Transaction.Resolve.{resolve_operation}

abbrev pub is_ok {ℓ} : {E : Type 0} {A : Type ℓ} → Result E A → Bool
is_ok (ok _) = true
is_ok (err _) = false

-- What a transaction's phase does to a balance on one of its sides: the posting that
-- ResolveOperation gives for the phase was applied to it.
pub record Phase (d : DecimalApi) (pend source : Bool) (st : TransactionStatus) (x : ℤ)
    (b c : Balance d.Decimal) : Type 0 where
  pub posting : Posting d.Decimal
  pub resolved : resolve_operation pend source st ≡ ok posting.operation
  pub in_status : posting.status ≡ st
  pub of_amount : d.units posting.amount ≡ x
  pub applied : apply_posting d b posting ≡ ok c

module _ (d : DecimalApi) where
  open d use {Decimal, units, units-add, units-sub, add, sub, is_negative, is_negative_lem}

  -- The switches of ApplyPosting accept an operation under a status exactly when ResolveOperation
  -- gives that operation for that status, on one side of a pending or of a direct transaction.
  pub apply_operation-resolve_operation :
      (op : Operation) (st : TransactionStatus) (b : Balance Decimal) (x : Decimal)
      → (is_ok (apply_operation d op st b x) ≡ true)
        ↔ ((pend : Bool) × (source : Bool) × (resolve_operation pend source st ≡ ok op))
  unfolding apply_operation resolve_operation
  apply_operation-resolve_operation op st b x = (accepted op st, λ r. resolved r.0 r.1 st op r.2)
    where
      accepted :
          (op : Operation) (st : TransactionStatus)
          → is_ok (apply_operation d op st b x) ≡ true
          → (pend : Bool) × (source : Bool) × (resolve_operation pend source st ≡ ok op)
      accepted debit created h = (false, true, refl)
      accepted debit approved h = (true, true, refl)
      accepted debit canceled h = (true, false, refl)
      accepted debit _ h = cc
      accepted credit created h = (false, false, refl)
      accepted credit approved h = (true, false, refl)
      accepted credit pending h = (true, false, refl)
      accepted credit _ h = cc
      accepted on_hold pending h = (true, true, refl)
      accepted on_hold _ h = cc
      accepted release canceled h = (true, true, refl)
      accepted release _ h = cc
      accepted (other s) st h = cc

      resolved :
          (pend source : Bool) (st : TransactionStatus) (op : Operation)
          → resolve_operation pend source st ≡ ok op
          → is_ok (apply_operation d op st b x) ≡ true
      resolved true true st op h = ground arith
      resolved true false st op h = ground arith
      resolved false true st op h = ground arith
      resolved false false st op h = ground arith

  -- The checks on a posting read only these parts of the posting and of the balance.
  validate-congruence :
      (b c : Balance Decimal) (p q : Posting Decimal)
      → SameOwner d b c
      → q.target ≡ p.target
      → q.asset ≡ p.asset
      → q.amount ≡ p.amount
      → validate_posting_against_balance d c q ≡ validate_posting_against_balance d b p
  unfolding validate_posting_against_balance
  validate-congruence b c p q s t a x = rw (t, a, x, s.id, s.account_id, s.asset)

  pub apply_posting-ok :
      (b u : Balance Decimal) (p : Posting Decimal)
      → validate_posting_against_balance d b p ≡ ok tt
      → apply_operation d p.operation p.status b p.amount ≡ ok u
      → pos 0 ≤ℤ units u.available
      → pos 0 ≤ℤ units u.on_hold
      → apply_posting d b p ≡ ok (record u { version = (u.version + 1) % 2 ^ 64 })
  unfolding apply_posting apply_posting_operation validate_posting_result
  apply_posting-ok b u p v a h k =
      rw (v, a) (ground (arith, is_negative_lem u.available, is_negative_lem u.on_hold))

  -- The parts of an accepted posting.
  apply_posting-parts :
      (b : Balance Decimal) (p : Posting Decimal) {c : Balance Decimal}
      → apply_posting d b p ≡ ok c
      → (validate_posting_against_balance d b p ≡ ok tt)
        × (u : Balance Decimal) × (apply_operation d p.operation p.status b p.amount ≡ ok u)
        × (c ≡ record u { version = (u.version + 1) % 2 ^ 64 })
  unfolding apply_posting apply_posting_operation
  apply_posting-parts b p h =
      let (_, v, h₁) = >>=-eq-ok (validate_posting_against_balance d b p) _ h in
      let (u, applied, h₂) = >>=-eq-ok (apply_operation d p.operation p.status b p.amount) _ h₁ in
      let (_, valid, h₃) = >>=-eq-ok (validate_posting_result d u) _ h₂ in
      (v, u, applied, ground arith)

  -- What a hold leaves.
  hold_amounts :
      (b c : Balance Decimal) (p : Posting Decimal)
      → p.operation ≡ on_hold
      → p.status ≡ pending
      → apply_posting d b p ≡ ok c
      → (units c.available ≡ units b.available -ℤ units p.amount)
        × (units c.on_hold ≡ units b.on_hold +ℤ units p.amount)
  unfolding apply_operation
  hold_amounts b c p op st h =
      let (_, u, applied, e) = apply_posting-parts b p h in
      let at : apply_operation d on_hold pending b p.amount ≡ ok u = cc in
      ground (arith, units-sub b.available p.amount, units-add b.on_hold p.amount)

  module _ (b c : Balance Decimal) (p q : Posting Decimal)
      (same : (q.target ≡ p.target) × (q.asset ≡ p.asset) × (q.amount ≡ p.amount))
      (nonneg : (pos 0 ≤ℤ units b.available) × (pos 0 ≤ℤ units b.on_hold))
      (is_hold : p.operation ≡ on_hold) (is_pending : p.status ≡ pending)
      (held : apply_posting d b p ≡ ok c) where
    valid_after : validate_posting_against_balance d c q ≡ ok tt
    valid_after =
        validate-congruence b c p q (apply_posting-Posted d b p held).owner same.0 same.1 same.2
        ∙ (apply_posting-parts b p held).0

    held_back :
        (units (add c.available q.amount) ≡ units b.available)
        × (units (sub c.on_hold q.amount) ≡ units b.on_hold)
    held_back =
        let h = hold_amounts b c p is_hold is_pending held in
        (
          rw (units-add c.available q.amount, same.2, h.0) (omega int_laws),
          rw (units-sub c.on_hold q.amount, same.2, h.1) (omega int_laws),
        )

    -- A hold that was accepted on a balance with no negative amount can be released, and the
    -- release restores the available and the held amount.
    pub hold-release :
        q.operation ≡ release
        → q.status ≡ canceled
        → (e : Balance Decimal) × (apply_posting d c q ≡ ok e)
          × (units e.available ≡ units b.available)
          × (units e.on_hold ≡ units b.on_hold)
    unfolding apply_operation
    hold-release op st =
        let u : Balance Decimal = record c {
          on_hold = sub c.on_hold q.amount;
          available = add c.available q.amount;
        } in
        (
          record u { version = (c.version + 1) % 2 ^ 64 },
          apply_posting-ok c u q valid_after (rw (op, st)) (rw held_back.0 nonneg.0)
              (rw held_back.1 nonneg.1),
          held_back.0,
          held_back.1,
        )

    -- A hold that was accepted on a balance with no negative amount can be settled by the debit of
    -- the approved phase: the amount is gone from the available one, and the held one is as before.
    pub hold-settle :
        q.operation ≡ debit
        → q.status ≡ approved
        → (e : Balance Decimal) × (apply_posting d c q ≡ ok e)
          × (units e.available ≡ units b.available -ℤ units p.amount)
          × (units e.on_hold ≡ units b.on_hold)
    unfolding apply_operation
    hold-settle op st =
        let u : Balance Decimal = record c { on_hold = sub c.on_hold q.amount } in
        (
          record u { version = (c.version + 1) % 2 ^ 64 },
          apply_posting-ok c u q valid_after (rw (op, st))
              (apply_posting-Posted d b p held).available_nonneg (rw held_back.1 nonneg.1),
          (hold_amounts b c p is_hold is_pending held).0,
          held_back.1,
        )

  phase_moved :
      (x : ℤ) (pend source : Bool) (st : TransactionStatus) (b c : Balance Decimal) (op : Operation)
      → Phase d pend source st x b c
      → resolve_operation pend source st ≡ ok op
      → total d c ≡ total d b +ℤ signed op x
  phase_moved x pend source st b c op h r =
      let e : h.posting.operation ≡ op = cc in
      rw (← e, ← h.of_amount) (apply_posting-Posted d b h.posting h.applied).moved

  -- A direct transaction, applied to its source and to its destination, keeps their total value.
  pub created_conserves :
      (x : ℤ) (s s' t t' : Balance Decimal)
      → Phase d false true created x s s'
      → Phase d false false created x t t'
      → total d s' +ℤ total d t' ≡ total d s +ℤ total d t
  unfolding resolve_operation
  created_conserves x s s' t t' h k =
      rw
        (
          phase_moved x false true created s s' debit h refl,
          phase_moved x false false created t t' credit k refl,
        )
        (omega int_laws)

  -- So does a pending transaction that is canceled.
  pub canceled_conserves :
      (x : ℤ) (s s' s'' t t' t'' : Balance Decimal)
      → Phase d true true pending x s s'
      → Phase d true false pending x t t'
      → Phase d true true canceled x s' s''
      → Phase d true false canceled x t' t''
      → total d s'' +ℤ total d t'' ≡ total d s +ℤ total d t
  unfolding resolve_operation
  canceled_conserves x s s' s'' t t' t'' h k h' k' =
      rw
        (
          phase_moved x true true canceled s' s'' release h' refl,
          phase_moved x true false canceled t' t'' debit k' refl,
          phase_moved x true true pending s s' on_hold h refl,
          phase_moved x true false pending t t' credit k refl,
        )
        (omega int_laws)

  -- A pending transaction that is approved does not: its destination is credited in both phases, so
  -- the two balances end with the amount more than they had.
  pub approved_gains :
      (x : ℤ) (s s' s'' t t' t'' : Balance Decimal)
      → Phase d true true pending x s s'
      → Phase d true false pending x t t'
      → Phase d true true approved x s' s''
      → Phase d true false approved x t' t''
      → total d s'' +ℤ total d t'' ≡ total d s +ℤ total d t +ℤ x
  unfolding resolve_operation
  approved_gains x s s' s'' t t' t'' h k h' k' =
      rw
        (
          phase_moved x true true approved s' s'' debit h' refl,
          phase_moved x true false approved t' t'' credit k' refl,
          phase_moved x true true pending s s' on_hold h refl,
          phase_moved x true false pending t t' credit k refl,
        )
        (omega int_laws)
