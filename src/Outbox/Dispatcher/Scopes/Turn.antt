-- ===== src/Outbox/Dispatcher/Scopes/Turn.antt =====
-- tenantDispatchScopeOrder of commons/outbox/dispatcher.go: no tenant is always last.
use native.Mathlib.Nat.{mod-add-mod, mod-eq_of_lt, add-mod_left, mod-lt}
use lib_commons.Base.{
  ℕ, zero, suc, ◌+◌, ◌-◌, ◌%◌, ◌<◌, ◌≡◌, refl, sym, ap, ◌∙◌, subst, inl, inr, true, false, List, [],
  ◌∷◌, ◌++◌, length, length-append, In, take, leb, Bool-cases, arith,
}
use lib_commons.Outbox.Dispatcher.{Dispatcher, Scope}
use lib_commons.Outbox.Dispatcher.Scopes.{drop, tenant_dispatch_scope_order}

-- The dispatcher after `n` cycles over the same scopes.
unfoldable pub after_cycles : ℕ → Dispatcher → List Scope → Dispatcher
after_cycles zero d scopes = d
after_cycles (suc n) d scopes = after_cycles n (tenant_dispatch_scope_order d scopes).1 scopes

-- A rotation: the two parts of the list, exchanged.
abbrev pub IsRotation : List Scope → List Scope → Type 0
IsRotation scopes ordered =
    (front : List Scope) × (back : List Scope) × (scopes ≡ front ++ back)
    × (ordered ≡ back ++ front)

split_at : (n : ℕ) (xs : List Scope) → xs ≡ take n xs ++ drop n xs
unfolding take drop
split_at zero xs = refl
split_at (suc n) [] = refl
split_at (suc n) (x ∷ xs) = ap (λ ys. x ∷ ys) (split_at n xs)

drop-append : (xs ys : List Scope) → drop (length xs) (xs ++ ys) ≡ ys
unfolding drop
drop-append [] ys = refl
drop-append (x ∷ xs) ys = drop-append xs ys

In-split :
    (s : Scope) (xs : List Scope)
    → In s xs
    → (front : List Scope) × (back : List Scope) × (xs ≡ front ++ s ∷ back)
In-split s [] m = absurd m
In-split s (x ∷ xs) (inl e) = ([], xs, ap (λ y. y ∷ xs) (sym e))
In-split s (x ∷ xs) (inr m) =
    let (front, back, e) = In-split s xs m in (x ∷ front, back, ap (λ ys. x ∷ ys) e)

append_nil : (xs : List Scope) → xs ++ [] ≡ xs
append_nil [] = refl
append_nil (x ∷ xs) = ap (λ ys. x ∷ ys) (append_nil xs)

pub order-IsRotation :
    (d : Dispatcher) (scopes : List Scope)
    → IsRotation scopes (tenant_dispatch_scope_order d scopes).0
unfolding tenant_dispatch_scope_order
order-IsRotation d scopes = elim (Bool-cases (leb (length scopes) 1)) [
  | inl e ↦ rw (e) ([], scopes, refl, sym (append_nil scopes))
  | inr e ↦ rw (e) (
      let start = d.tenant_turn % length scopes in
      (take start scopes, drop start scopes, split_at start scopes, refl))
]

zero_right : (n : ℕ) → n + 0 ≡ n
zero_right n = omega arith

one_then : (n i : ℕ) → n + 1 + i ≡ n + suc i
one_then n i = omega arith

order-eq :
    (d : Dispatcher) (scopes : List Scope)
    → leb (length scopes) 1 ≡ false
    → tenant_dispatch_scope_order d scopes ≡ (
      drop (d.tenant_turn % length scopes) scopes ++ take (d.tenant_turn % length scopes) scopes,
      record d { tenant_turn = (d.tenant_turn + 1) % length scopes },
    )
unfolding tenant_dispatch_scope_order
order-eq d scopes h = rw (h) refl

-- The turn after some cycles over more than one scope.
turn-after_cycles :
    (i : ℕ) (d : Dispatcher) (scopes : List Scope)
    → leb (length scopes) 1 ≡ false
    → (after_cycles i d scopes).tenant_turn % length scopes ≡ (d.tenant_turn + i) % length scopes
unfolding after_cycles
turn-after_cycles zero d scopes h = rw (zero_right d.tenant_turn) refl
turn-after_cycles (suc i) d scopes h =
    let next = record d { tenant_turn = (d.tenant_turn + 1) % length scopes } in
    ap (λ o. (after_cycles i o.1 scopes).tenant_turn % length scopes) (order-eq d scopes h)
    ∙ (turn-after_cycles i next scopes h
        ∙ (mod-add-mod (d.tenant_turn + 1) (length scopes) i
            ∙ ap (λ m. m % length scopes) (one_then d.tenant_turn i)))

at_place : (turn n j i : ℕ) → turn % n + i ≡ j → j < n → (turn + i) % n ≡ j
at_place turn n j i e h = sym (mod-add-mod turn n i) ∙ (ap (λ m. m % n) e ∙ mod-eq_of_lt h)

past_end : (turn n j i : ℕ) → turn % n + i ≡ n + j → j < n → (turn + i) % n ≡ j
past_end turn n j i e h =
    sym (mod-add-mod turn n i) ∙ (ap (λ m. m % n) e ∙ (add-mod_left n j ∙ mod-eq_of_lt h))

-- From every turn, every place gets its turn within as many cycles as there are places.
reaches : (turn n j : ℕ) → j < n → (i : ℕ) × (i < n) × ((turn + i) % n ≡ j)
reaches turn n j h =
    let s = turn % n in
    let s_below : s < n = mod-lt turn (omega (arith, h)) in
    elim (Bool-cases (leb s j)) [
      | inl e ↦ (j - s, omega (arith, h), at_place turn n j (j - s) (ground (arith, e)) h)
      | inr e ↦ (
        n - s + j,
        ground (arith, e, h, s_below),
        past_end turn n j (n - s + j) (ground (arith, s_below)) h,
      )
    ]

-- The scope at the place of the turn is first.
order_starts :
    (d : Dispatcher) (front back : List Scope) (s : Scope)
    → leb (length (front ++ s ∷ back)) 1 ≡ false
    → d.tenant_turn % length (front ++ s ∷ back) ≡ length front
    → (rest : List Scope) × ((tenant_dispatch_scope_order d (front ++ s ∷ back)).0 ≡ s ∷ rest)
order_starts d front back s h t =
    let scopes = front ++ s ∷ back in
    (
      back ++ take (length front) scopes,
      ap (λ o. o.0) (order-eq d scopes h)
          ∙ (ap (λ m. drop m scopes ++ take m scopes) t
              ∙ ap (λ ys. ys ++ take (length front) scopes) (drop-append front (s ∷ back))),
    )

length_front : (front back : List Scope) (s : Scope) → length front < length (front ++ s ∷ back)
length_front front back s = omega (arith, length-append front (s ∷ back))

single :
    (front back : List Scope) (s : Scope)
    → leb (length (front ++ s ∷ back)) 1 ≡ true
    → front ++ s ∷ back ≡ s ∷ back
single [] back s h = refl
single (x ∷ xs) back s h = ground (arith, h, length-append xs (s ∷ back))

first_within :
    (d : Dispatcher) (front back : List Scope) (s : Scope)
    → let scopes = front ++ s ∷ back in
      (i : ℕ) × (i < length scopes)
      × ((rest : List Scope) × ((tenant_dispatch_scope_order (after_cycles i d scopes) scopes).0
            ≡ s ∷ rest))
unfolding tenant_dispatch_scope_order after_cycles
first_within d front back s =
    let scopes = front ++ s ∷ back in
    elim (Bool-cases (leb (length scopes) 1)) [
      | inl e ↦
          (0, omega (arith, length-append front (s ∷ back)), (back, rw (e) (single front back s e)))
      | inr e ↦
          (let (i, below, place) =
              reaches d.tenant_turn (length scopes) (length front) (length_front front back s) in
            (
              i,
              below,
              order_starts (after_cycles i d scopes) front back s e
                  (turn-after_cycles i d scopes e ∙ place),
            ))
    ]

-- Every cycle visits exactly the listed scopes, in a rotation of their order, and every scope is the
-- first of some cycle among as many successive ones as there are scopes, as long as the same scopes
-- are listed.
pub tenant_dispatch_scope_order_fair :
    (d : Dispatcher) (scopes : List Scope)
    → IsRotation scopes (tenant_dispatch_scope_order d scopes).0
      × ((s : Scope)
          → In s scopes
          → (i : ℕ) × (i < length scopes)
            × ((rest : List Scope) × ((tenant_dispatch_scope_order
                    (after_cycles i d scopes)
                    scopes).0
                  ≡ s ∷ rest)))
tenant_dispatch_scope_order_fair d scopes = (
  order-IsRotation d scopes,
  λ s m.
      let (front, back, e) = In-split s scopes m in
      subst
        (λ xs.
          (i : ℕ) × (i < length xs)
          × ((rest : List Scope) × ((tenant_dispatch_scope_order (after_cycles i d xs) xs).0
                ≡ s ∷ rest)))
        (sym e) (first_within d front back s),
)
