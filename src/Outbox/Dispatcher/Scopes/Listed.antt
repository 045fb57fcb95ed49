-- ===== src/Outbox/Dispatcher/Scopes/Listed.antt =====
-- normalizeTenantDispatchScopes of commons/outbox/dispatcher.go: which scopes remain.
use lib_commons.Base.{
  ◌≡◌, refl, sym, ap, subst, ◌↔◌, ◌⊎◌, inl, inr, Bool, true, false, ◌||◌, List, [], ◌∷◌, In,
  Bool-cases, arith,
}
use lib_commons.Base.Runes.{is_empty_text}
use lib_commons.Outbox.Dispatcher.{Scope, same_scope, same_scope_iff}
use lib_commons.Outbox.Dispatcher.Scopes.{
  trimmed, is_among, normalize_from, normalize_tenant_dispatch_scopes,
}

pub is_among-In : (s : Scope) (xs : List Scope) → is_among s xs ≡ true → In s xs
unfolding is_among
is_among-In s [] h = cc
is_among-In s (x ∷ xs) h = elim (Bool-cases (same_scope x s)) [
  | inl e ↦ inl (sym ((same_scope_iff x s).0 e))
  | inr e ↦ inr (is_among-In s xs (ground (arith, e, h)))
]

In-is_among : (s : Scope) (xs : List Scope) → In s xs → is_among s xs ≡ true
unfolding is_among
In-is_among s [] m = absurd m
In-is_among s (x ∷ xs) (inl e) = ground (arith, (same_scope_iff x s).1 (sym e))
In-is_among s (x ∷ xs) (inr m) = ground (arith, In-is_among s xs m)

-- No scope twice.
abbrev pub AllDifferent : List Scope → Type 0
AllDifferent [] = Unit
AllDifferent (s ∷ xs) = (is_among s xs ≡ false) × AllDifferent xs

-- A scope with a tenant, that some scope of the list is when its blanks are trimmed.
abbrev pub IsListed : Scope → List Scope → Type 0
IsListed s raws =
    (raw : Scope) × In raw raws × (trimmed raw ≡ s) × (is_empty_text s.tenant_id ≡ false)

-- The tests of the loop.
abbrev skips : List Scope → Scope → Bool
skips seen raw = is_empty_text (trimmed raw).tenant_id || is_among (trimmed raw) seen

normalize_from-IsListed :
    (s : Scope) (seen raws : List Scope) → In s (normalize_from seen raws) → IsListed s raws
unfolding normalize_from
normalize_from-IsListed s seen [] = λ m. absurd m
normalize_from-IsListed s seen (raw ∷ raws) = elim (Bool-cases (skips seen raw)) [
  | inl e ↦
      rw (e) (λ m. let (x, k, q, n) = normalize_from-IsListed s seen raws m in (x, inr k, q, n))
  | inr e ↦ rw (e) (λ m. elim m [
    | inl q ↦ (raw, inl refl, sym q, rw (q) (ground (arith, e)))
    | inr k ↦
        (let (x, j, q, n) = normalize_from-IsListed s (trimmed raw ∷ seen) raws k in
          (x, inr j, q, n))
  ])
]

not_later :
    (s raw : Scope) (seen : List Scope)
    → is_among s (trimmed raw ∷ seen) ≡ false
    → is_among s seen ≡ false
unfolding is_among
not_later s raw seen h = ground (arith, h)

normalize_from_fresh :
    (s : Scope) (seen raws : List Scope) → In s (normalize_from seen raws) → is_among s seen ≡ false
unfolding normalize_from
normalize_from_fresh s seen [] = λ m. absurd m
normalize_from_fresh s seen (raw ∷ raws) = elim (Bool-cases (skips seen raw)) [
  | inl e ↦ rw (e) (λ m. normalize_from_fresh s seen raws m)
  | inr e ↦ rw (e) (λ m. elim m [
    | inl q ↦ rw (q) (ground (arith, e))
    | inr k ↦ not_later s raw seen (normalize_from_fresh s (trimmed raw ∷ seen) raws k)
  ])
]

not-In-false : (s : Scope) (xs : List Scope) → (In s xs → ⊥) → is_among s xs ≡ false
not-In-false s xs h = elim (Bool-cases (is_among s xs)) [
  | inl e ↦ absurd (h (is_among-In s xs e))
  | inr e ↦ e
]

self_among : (s : Scope) (xs : List Scope) → is_among s (s ∷ xs) ≡ true
unfolding is_among
self_among s xs = ground (arith, (same_scope_iff s s).1 refl)

normalize_from-AllDifferent : (seen raws : List Scope) → AllDifferent (normalize_from seen raws)
unfolding normalize_from
normalize_from-AllDifferent seen [] = tt
normalize_from-AllDifferent seen (raw ∷ raws) = elim (Bool-cases (skips seen raw)) [
  | inl e ↦ rw (e) (normalize_from-AllDifferent seen raws)
  | inr e ↦ rw (e) (
    not-In-false (trimmed raw) (normalize_from (trimmed raw ∷ seen) raws) (λ m.
        let fresh = normalize_from_fresh (trimmed raw) (trimmed raw ∷ seen) raws m in
        cc (self_among (trimmed raw) seen, fresh)),
    normalize_from-AllDifferent (trimmed raw ∷ seen) raws,
  )
]

skipped :
    (raw x : Scope) (seen : List Scope)
    → raw ≡ x
    → is_empty_text (trimmed raw).tenant_id ≡ false
    → skips seen x ≡ true
    → is_among (trimmed raw) seen ≡ true
skipped raw x seen q = rw (q) (λ n e. ground (arith, n, e))

kept :
    (raw x : Scope) (seen : List Scope) (rest : List Scope)
    → is_among (trimmed raw) (trimmed x ∷ seen) ≡ true
    → In (trimmed raw) (trimmed x ∷ rest) ⊎ (is_among (trimmed raw) seen ≡ true)
unfolding is_among
kept raw x seen rest h = elim (Bool-cases (same_scope (trimmed x) (trimmed raw))) [
  | inl e ↦ inl (inl (sym ((same_scope_iff (trimmed x) (trimmed raw)).0 e)))
  | inr e ↦ inr (ground (arith, e, h))
]

-- A listed scope is in the result, unless it was seen before.
normalize_from_keeps :
    (raw : Scope) (seen raws : List Scope)
    → In raw raws
    → is_empty_text (trimmed raw).tenant_id ≡ false
    → (In (trimmed raw) (normalize_from seen raws)) ⊎ (is_among (trimmed raw) seen ≡ true)
unfolding normalize_from
normalize_from_keeps raw seen [] m n = absurd m
normalize_from_keeps raw seen (x ∷ raws) (inl q) n = elim (Bool-cases (skips seen x)) [
  | inl e ↦ inr (skipped raw x seen q n e)
  | inr e ↦ rw (e) (inl (inl (ap (λ y. trimmed y) q)))
]
normalize_from_keeps raw seen (x ∷ raws) (inr m) n = elim (Bool-cases (skips seen x)) [
  | inl e ↦ rw (e) (normalize_from_keeps raw seen raws m n)
  | inr e ↦ rw (e) (elim (normalize_from_keeps raw (trimmed x ∷ seen) raws m n) [
    | inl k ↦ inl (inr k)
    | inr k ↦ kept raw x seen _ k
  ])
]

listed-In : (s : Scope) (raws : List Scope) → IsListed s raws → In s (normalize_from [] raws)
unfolding is_among
listed-In s raws (raw, m, q, n) =
    let named = subst (λ (y : Scope). is_empty_text y.tenant_id ≡ false) (sym q) n in
    elim (normalize_from_keeps raw [] raws m named) [
      | inl k ↦ subst (λ y. In y (normalize_from [] raws)) q k
      | inr k ↦ cc k
    ]

pub normalize_tenant_dispatch_scopes-IsListed :
    (raws : List Scope)
    → AllDifferent (normalize_tenant_dispatch_scopes raws)
      × ((s : Scope) → In s (normalize_tenant_dispatch_scopes raws) ↔ IsListed s raws)
unfolding normalize_tenant_dispatch_scopes
normalize_tenant_dispatch_scopes-IsListed raws = (
  normalize_from-AllDifferent [] raws,
  λ s. (normalize_from-IsListed s [] raws, λ listed. listed-In s raws listed),
)
