-- ===== src/Transaction/Plan/Loop.antt =====
-- The loop of buildPostings: what it has built, and where the remainder goes.
use lib_commons.Base.{
  ℕ, suc, ◌+◌, ◌≡◌, refl, sym, ap, subst, ◌∙◌, ◌⊎◌, inl, inr, Bool, true, false, arith, String,
  List, [], ◌∷◌, Option, none, some,
}
use lib_commons.Base.Int.{◌+ℤ◌, int_laws}
use lib_commons.Base.Result.{Result, ok, >>=-eq-ok, ok-injective}
use lib_commons.Transaction.Decimal.{DecimalApi}
use lib_commons.Transaction.{TransactionStatus, Field, Allocation, Posting, DomainError, indexed}
use lib_commons.Transaction.Plan.{build_posting_from_allocation, advance, build_loop}
use lib_commons.Transaction.Plan.Shape.{Positive, Answers, build_posting-Answers}
use lib_commons.Transaction.Plan.Sum.{sum_units, AllPositive, OneHole, AllAnswer}

module _ (d : DecimalApi) where
  open d use {
    Decimal, units, units-add, units-sub, units-zero_value, zero_value, add, sub, is_positive_lem,
    equal_lem,
  }

  module _ (asset : String) (total : Decimal) (pending : Bool) (status : TransactionStatus)
      (is_source : Bool) (side : String) where
    abbrev pub loop :
        ℕ
        → Decimal
        → Option ℕ
        → List (Allocation Decimal)
        → Result DomainError (List (Posting Decimal) × Decimal × Option ℕ)
    loop = build_loop d asset total pending status is_source side

    -- What a run of the loop has built: answers that add up.
    abbrev pub Adds :
        Decimal → List (Allocation Decimal) → List (Posting Decimal) → Decimal → Type 0
    Adds before as' ps after =
        AllAnswer d asset pending status is_source as' ps
        × (units after ≡ units before +ℤ sum_units d ps)

    -- One round, when the loop goes on to return.
    pub loop-cons :
        (i : ℕ) (before : Decimal) (j : Option ℕ) (a : Allocation Decimal)
        (as' : List (Allocation Decimal)) {r : List (Posting Decimal) × Decimal × Option ℕ}
        → loop i before j (a ∷ as') ≡ ok r
        → (b : Posting Decimal × Decimal × Bool) × (n : Decimal × Option ℕ) × (rest : List
              (Posting Decimal)
            × Decimal
            × Option ℕ)
          × (build_posting_from_allocation d asset total pending status is_source a (indexed side i)
              ≡ ok b)
          × (advance d (indexed side i) i before j b.1 b.2 ≡ ok n)
          × (loop (suc i) n.0 n.1 as' ≡ ok rest)
          × (r ≡ (b.0 ∷ rest.0, rest.1, rest.2))
    unfolding build_loop
    loop-cons i before j a as' h =
        let f = indexed side i in
        let (b, e₁, h₁) =
          >>=-eq-ok (build_posting_from_allocation d asset total pending status is_source a f) _
            h in
        let (n, e₂, h₂) = >>=-eq-ok (advance d f i before j b.1 b.2) _ h₁ in
        let (rest, e₃, h₃) = >>=-eq-ok (loop (suc i) n.0 n.1 as') _ h₂ in
        (b, n, rest, e₁, e₂, e₃, cc)

    abbrev answers :
        (a : Allocation Decimal) (f : Field) {b : Posting Decimal × Decimal × Bool}
        → build_posting_from_allocation d asset total pending status is_source a f ≡ ok b
        → Answers d asset pending status is_source a b.0
          × ((b.2 ≡ true) × (b.0.amount ≡ zero_value)
              ⊎ (b.2 ≡ false) × (b.0.amount ≡ b.1) × Positive d b.1)
    answers = build_posting-Answers d asset total pending status is_source

    -- The sums of one round: the amount of the posting, and what the later rounds add.
    add_round :
        (before x after : Decimal) (p : Posting Decimal) (ps : List (Posting Decimal))
        → p.amount ≡ x
        → units after ≡ units (add before x) +ℤ sum_units d ps
        → units after ≡ units before +ℤ sum_units d (p ∷ ps)
    unfolding sum_units
    add_round before x after p ps e h = h ∙ rw (units-add before x, e) (omega int_laws)

    skip_round :
        (before after : Decimal) (p : Posting Decimal) (ps : List (Posting Decimal))
        → p.amount ≡ zero_value
        → units after ≡ units before +ℤ sum_units d ps
        → units after ≡ units before +ℤ sum_units d (p ∷ ps)
    unfolding sum_units
    skip_round before after p ps e h = h ∙ rw (e, units-zero_value) (omega int_laws)

    nothing_added : (before : Decimal) → units before ≡ units before +ℤ sum_units d []
    unfolding sum_units
    nothing_added before = omega int_laws

    advance-taken :
        (f : Field) (i : ℕ) (before : Decimal) (j : ℕ) (x : Decimal) (u : Bool)
        {n : Decimal × Option ℕ}
        → advance d f i before (some j) x u ≡ ok n
        → (u ≡ false) × (n ≡ (add before x, some j))
    unfolding advance
    advance-taken f i before j x true h = cc
    advance-taken f i before j x false h = (refl, cc)

    advance-open :
        (f : Field) (i : ℕ) (before : Decimal) (x : Decimal) (u : Bool) {n : Decimal × Option ℕ}
        → advance d f i before none x u ≡ ok n
        → ((u ≡ false) × (n ≡ (add before x, none))) ⊎ ((u ≡ true) × (n ≡ (before, some i)))
    unfolding advance
    advance-open f i before x true h = inr (refl, cc)
    advance-open f i before x false h = inl (refl, cc)

    abbrev pub Built : Type 0
    Built = List (Posting Decimal) × Decimal × Option ℕ

    abbrev Taken : Decimal → ℕ → List (Allocation Decimal) → Built → Type 0
    Taken before j as' r = Adds before as' r.0 r.1 × AllPositive d r.0 × (r.2 ≡ some j)

    -- Once an allocation took the remainder, no later one does.
    loop-Taken :
        (i : ℕ) (before : Decimal) (j : ℕ) (as' : List (Allocation Decimal)) {r : Built}
        → loop i before (some j) as' ≡ ok r
        → Taken before j as' r
    unfolding build_loop
    loop-Taken i before j [] h =
        subst (Taken before j []) (ok-injective h) ((tt, nothing_added before), tt, refl)
    loop-Taken i before j (a ∷ as') h =
        let (b, n, rest, e₁, e₂, e₃, e₄) = loop-cons i before (some j) a as' h in
        let (ans, kind) = answers a (indexed side i) e₁ in
        let (u, en) = advance-taken (indexed side i) i before j b.1 b.2 e₂ in
        let later : Taken (add before b.1) j as' rest =
          loop-Taken (suc i) (add before b.1) j as'
            (subst (λ m. loop (suc i) m.0 m.1 as' ≡ ok rest) en e₃) in
        let plain : (b.0.amount ≡ b.1) × Positive d b.1 = ground (arith, kind) in
        subst (Taken before j (a ∷ as')) (sym e₄) (
          ((ans, later.0.0), add_round before b.1 rest.1 b.0 rest.0 plain.0 later.0.1),
          (rw plain.0 plain.1, later.1),
          later.2,
        )

    -- While no allocation took the remainder: either none does, or one does and its place is kept.
    abbrev pub Open : Decimal → ℕ → List (Allocation Decimal) → Built → Type 0
    Open before i as' r =
        Adds before as' r.0 r.1
        × ((AllPositive d r.0 × (r.2 ≡ none)) ⊎ ((k : ℕ) × OneHole d k r.0 × (r.2 ≡ some (i + k))))

    pub loop-Open :
        (i : ℕ) (before : Decimal) (as' : List (Allocation Decimal)) {r : Built}
        → loop i before none as' ≡ ok r
        → Open before i as' r
    unfolding build_loop
    loop-Open i before [] h =
        subst (Open before i []) (ok-injective h) ((tt, nothing_added before), inl (tt, refl))
    loop-Open i before (a ∷ as') h =
        let (b, n, rest, e₁, e₂, e₃, e₄) = loop-cons i before none a as' h in
        let (ans, kind) = answers a (indexed side i) e₁ in
        subst (Open before i (a ∷ as')) (sym e₄)
          (elim (advance-open (indexed side i) i before b.1 b.2 e₂) [
            | inl (u, en) ↦
                let plain : (b.0.amount ≡ b.1) × Positive d b.1 = ground (arith, kind) in
                let later =
                  loop-Open (suc i) (add before b.1) as'
                    (subst (λ m. loop (suc i) m.0 m.1 as' ≡ ok rest) en e₃) in
                (
                  ((ans, later.0.0), add_round before b.1 rest.1 b.0 rest.0 plain.0 later.0.1),
                  later_kind i b.0 rest (rw plain.0 plain.1) later.1,
                )
            | inr (u, en) ↦
                let zero_amount : b.0.amount ≡ zero_value = ground (arith, kind) in
                let later =
                  loop-Taken (suc i) before i as'
                    (subst (λ m. loop (suc i) m.0 m.1 as' ≡ ok rest) en e₃) in
                (
                  ((ans, later.0.0), skip_round before rest.1 b.0 rest.0 zero_amount later.0.1),
                  inr (0, (zero_amount, later.1), later.2 ∙ ap some (omega arith)),
                )
          ])
      where
        later_kind :
            (i : ℕ) (p : Posting Decimal) (rest : Built)
            → Positive d p.amount
            → ((AllPositive d rest.0 × (rest.2 ≡ none))
                ⊎ ((k : ℕ) × OneHole d k rest.0 × (rest.2 ≡ some (suc i + k))))
            → ((AllPositive d (p ∷ rest.0) × (rest.2 ≡ none))
                ⊎ ((k : ℕ) × OneHole d k (p ∷ rest.0) × (rest.2 ≡ some (i + k))))
        later_kind i p rest v (inl (all, e)) = inl ((v, all), e)
        later_kind i p rest v (inr (k, hole, e)) = inr (suc k, (v, hole), e ∙ ap some (omega arith))
