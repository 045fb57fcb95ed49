-- ===== src/Outbox/Dispatcher/Retention/Interval.antt =====
-- claimRetentionSweep of commons/outbox/dispatcher.go: a scope is swept at most once per interval.
use lib_commons.Base.{
  ℕ, ◌+◌, ◌≤◌, ◌<◌, ◌≡◌, ◌↔◌, refl, ◌∙◌, inl, inr, true, false, List, [], ◌∷◌, some, All,
  Bool-cases, arith,
}
use lib_commons.Base.Assoc.{find, find-put_self, find-put_other, find-retain-some}
use lib_commons.Outbox.Dispatcher.{Dispatcher, Scope, same_scope, same_scope_iff, scope_key}
use lib_commons.Outbox.Dispatcher.Retention.{is_aged, prune, grant, claim_retention_sweep}

-- The claims of other cycles.
unfoldable pub claim_all : Dispatcher → List (Scope × ℕ) → Dispatcher
claim_all d [] = d
claim_all d (c ∷ cs) = claim_all (claim_retention_sweep d c.0 c.1).0 cs

-- The scope was last swept at `at`, and the interval is the dispatcher's.
abbrev SweptAt : Scope → ℕ → ℕ → Dispatcher → Type 0
SweptAt scope at interval d =
    (d.cfg.retention_sweep_interval ≡ interval) × (find scope d.retention_swept_at ≡ some at)

-- A grant to another scope within the interval.
grant_keeps :
    (scope other : Scope) (at now interval : ℕ) (d : Dispatcher)
    → same_scope other scope ≡ false
    → now < at + interval
    → SweptAt scope at interval d
    → SweptAt scope at interval (grant d other now)
unfolding grant prune
grant_keeps scope other at now interval d apart soon swept =
    elim (Bool-cases (is_aged d.cfg.retention_sweep_interval now d.retention_pruned_at)) [
      | inl e ↦ rw (e) (
        swept.0,
        find-put_other other scope now _ apart
            ∙ find-retain-some _ scope at d.retention_swept_at swept.1
                (ground (arith, soon, swept.0)),
      )
      | inr e ↦
          rw (e) (swept.0, find-put_other other scope now d.retention_swept_at apart ∙ swept.1)
    ]

-- The scope itself is refused within the interval.
young :
    (scope other : Scope) (at now interval : ℕ) (d : Dispatcher)
    → now < at + interval
    → SweptAt scope at interval d
    → other ≡ scope
    → is_aged d.cfg.retention_sweep_interval now (find other d.retention_swept_at) ≡ true
    → ⊥
young scope other at now interval d soon swept q =
    rw (q) (rw (swept.1) (rw (swept.0) (λ h. ground (arith, soon, h))))

claim_keeps :
    (scope other : Scope) (at now interval : ℕ) (d : Dispatcher)
    → now < at + interval
    → SweptAt scope at interval d
    → SweptAt scope at interval (claim_retention_sweep d other now).0
unfolding claim_retention_sweep
claim_keeps scope other at now interval d soon swept =
    elim (Bool-cases
      (is_aged d.cfg.retention_sweep_interval now (find other d.retention_swept_at))) [
        | inr e ↦ rw (e) swept
        | inl e ↦ rw (e) (elim (Bool-cases (same_scope other scope)) [
          | inr apart ↦ grant_keeps scope other at now interval d apart soon swept
          | inl q ↦
              absurd (
                young scope other at now interval d soon swept ((same_scope_iff other scope).0 q) e)
        ])
      ]

claim_all_keeps :
    (scope : Scope) (at interval : ℕ) (claims : List (Scope × ℕ)) (d : Dispatcher)
    → All (λ c. c.1 < at + interval) claims
    → SweptAt scope at interval d
    → SweptAt scope at interval (claim_all d claims)
unfolding claim_all
claim_all_keeps scope at interval [] d soon swept = swept
claim_all_keeps scope at interval (c ∷ cs) d soon swept =
    claim_all_keeps scope at interval cs (claim_retention_sweep d c.0 c.1).0 soon.1
      (claim_keeps scope c.0 at c.1 interval d soon.0 swept)

granted-SweptAt :
    (d : Dispatcher) (scope : Scope) (now : ℕ)
    → (claim_retention_sweep d scope now).1 ≡ true
    → SweptAt scope now d.cfg.retention_sweep_interval (claim_retention_sweep d scope now).0
unfolding claim_retention_sweep grant
granted-SweptAt d scope now =
    elim (Bool-cases
      (is_aged d.cfg.retention_sweep_interval now (find scope d.retention_swept_at))) [
        | inr e ↦ rw (e) (λ h. cc h)
        | inl e ↦ rw (e) (λ h.
            elim (Bool-cases (is_aged d.cfg.retention_sweep_interval now d.retention_pruned_at)) [
              | inl p ↦ rw (p) (refl, find-put_self scope now _)
              | inr p ↦ rw (p) (refl, find-put_self scope now d.retention_swept_at)
            ])
      ]

swept_claims :
    (d : Dispatcher) (scope : Scope) (at later interval : ℕ)
    → SweptAt scope at interval d
    → ((claim_retention_sweep d scope later).1 ≡ true) ↔ (at + interval ≤ later)
unfolding claim_retention_sweep
swept_claims d scope at later interval swept = rw (swept.1) (rw (swept.0) (ground arith))

-- Once a scope may be swept, the next sweep of it is granted exactly when the interval is over,
-- whatever sweeps other scopes, and the scope itself, ask for within the interval.
pub claim_retention_sweep_once :
    (d : Dispatcher) (scope : Scope) (now later : ℕ) (claims : List (Scope × ℕ))
    → (claim_retention_sweep d scope now).1 ≡ true
    → All (λ c. c.1 < now + d.cfg.retention_sweep_interval) claims
    → ((claim_retention_sweep
          (claim_all (claim_retention_sweep d scope now).0 claims)
          scope
          later).1
        ≡ true)
      ↔ (now + d.cfg.retention_sweep_interval ≤ later)
claim_retention_sweep_once d scope now later claims granted soon =
    let interval = d.cfg.retention_sweep_interval in
    swept_claims (claim_all (claim_retention_sweep d scope now).0 claims) scope now later interval (
      claim_all_keeps scope now interval claims (claim_retention_sweep d scope now).0 soon
        (granted-SweptAt d scope now granted))
