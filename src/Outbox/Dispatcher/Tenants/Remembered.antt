-- ===== src/Outbox/Dispatcher/Tenants/Remembered.antt =====
-- dispatchAcrossTenants of commons/outbox/dispatcher.go: the scopes whose schedule a tick leaves in the
-- dispatcher, and the turn.
use lib_commons.Base.{
  ℕ, ◌+◌, ◌%◌, ◌≡◌, refl, sym, ap, subst, ◌∙◌, ◌⊎◌, inl, inr, Bool, true, false, not, List, [], ◌∷◌,
  ◌++◌, some, length, In, leb, if-cases, Bool-cases, if◌then◌else◌,
}
use lib_commons.Base.Result.{ok}
use lib_commons.Base.Runes.{is_empty_text}
use lib_commons.Base.Assoc.{find, retain, find-put_other}
use lib_commons.Outbox.Dispatcher.{
  Environment, Dispatcher, Scope, ScopeActivity, same_scope, same_scope_iff, scope_key,
}
use lib_commons.Outbox.Dispatcher.Cycle.{DispatchResult, dispatch_once_result}
use lib_commons.Outbox.Dispatcher.Scopes.{
  is_among, normalize_tenant_dispatch_scopes, tenant_dispatch_scope_order, reconcile_scope_activity,
  should_dispatch_scope, record_scope_activity,
}
use lib_commons.Outbox.Dispatcher.Scopes.Turn.{order-IsRotation}
use lib_commons.Outbox.Dispatcher.Scopes.Listed.{
  IsListed, is_among-In, normalize_tenant_dispatch_scopes-IsListed,
}
use lib_commons.Outbox.Dispatcher.Retention.{RetentionTarget}
use lib_commons.Outbox.Dispatcher.Tenants.{
  Tenancy, tenant_key_from_context, list_scopes, enter_tenant, dispatch_scope, dispatch_scopes,
  dispatch_in_context, dispatch_without_discovered_tenant, dispatch_ordered,
  dispatch_across_tenants, is_required, text_of,
}
use lib_commons.Outbox.Dispatcher.Tenants.Framed.{
  Framed, dispatch_once_result-Framed, sweep_retention-Framed, sweep_listed_tenants-Framed,
}

-- Every scope with a schedule is one of the list.
abbrev IsWithin : List Scope → List (Scope × ScopeActivity) → Type 0
IsWithin scopes m = (s : Scope) (a : ScopeActivity) → find s m ≡ some a → In s scopes

record_scope_activity-IsWithin :
    (scopes : List Scope) (d : Dispatcher) (scope : Scope) (result : DispatchResult) (now : ℕ)
    → In scope scopes
    → IsWithin scopes d.scope_activity
    → IsWithin scopes (record_scope_activity d scope result now).scope_activity
unfolding record_scope_activity
record_scope_activity-IsWithin scopes d scope result now m h s a q =
    elim (Bool-cases (same_scope scope s)) [
      | inl e ↦ subst (λ y. In y scopes) ((same_scope_iff scope s).0 e) m
      | inr e ↦ h s a (sym (find-put_other scope s _ d.scope_activity e) ∙ q)
    ]

find-retain-test :
    (test : Scope → Bool) (s : Scope) (a : ScopeActivity) (m : List (Scope × ScopeActivity))
    → find s (retain (λ j v. test j) m) ≡ some a
    → test s ≡ true
unfolding find retain
find-retain-test test s a [] = λ h. cc h
find-retain-test test s a ((j, v) ∷ m) = elim (Bool-cases (test j)) [
  | inl t ↦ rw (t) (elim (Bool-cases (same_scope j s)) [
    | inl e ↦ λ h. ap test (sym ((same_scope_iff j s).0 e)) ∙ t
    | inr e ↦ rw (e) (λ h. find-retain-test test s a m h)
  ])
  | inr t ↦ rw (t) (λ h. find-retain-test test s a m h)
]

reconcile-IsWithin :
    (d : Dispatcher) (scopes : List Scope)
    → IsWithin scopes (reconcile_scope_activity d scopes).scope_activity
unfolding reconcile_scope_activity
reconcile-IsWithin d scopes s a q =
    is_among-In s scopes (find-retain-test (λ j. is_among j scopes) s a d.scope_activity q)

-- The order of a tick has only scopes of the list.
In-append_right : (s : Scope) (xs ys : List Scope) → In s ys → In s (xs ++ ys)
In-append_right s [] ys m = m
In-append_right s (x ∷ xs) ys m = inr (In-append_right s xs ys m)

In-append_left : (s : Scope) (xs ys : List Scope) → In s xs → In s (xs ++ ys)
In-append_left s [] ys m = absurd m
In-append_left s (x ∷ xs) ys (inl e) = inl e
In-append_left s (x ∷ xs) ys (inr m) = inr (In-append_left s xs ys m)

In-append : (s : Scope) (xs ys : List Scope) → In s (xs ++ ys) → In s xs ⊎ In s ys
In-append s [] ys m = inr m
In-append s (x ∷ xs) ys (inl e) = inl (inl e)
In-append s (x ∷ xs) ys (inr m) = elim (In-append s xs ys m) [ inl k ↦ inl (inr k) | inr k ↦ inr k ]

In-append_swap : (s : Scope) (xs ys : List Scope) → In s (ys ++ xs) → In s (xs ++ ys)
In-append_swap s xs [] m = In-append_left s xs [] m
In-append_swap s xs (y ∷ ys) (inl e) = In-append_right s xs (y ∷ ys) (inl e)
In-append_swap s xs (y ∷ ys) (inr m) = elim (In-append s ys xs m) [
  | inl k ↦ In-append_right s xs (y ∷ ys) (inr k)
  | inr k ↦ In-append_left s xs (y ∷ ys) k
]

order-In :
    (d : Dispatcher) (scopes : List Scope) (s : Scope)
    → In s (tenant_dispatch_scope_order d scopes).0
    → In s scopes
order-In d scopes s m =
    let (front, back, e, q) = order-IsRotation d scopes in
    subst (In s) (sym e) (In-append_swap s front back (subst (In s) q m))

-- The turn after a tick over `n` scopes.
abbrev pub next_turn : ℕ → ℕ → ℕ
next_turn n turn = if leb n 1 then turn else (turn + 1) % n

order-next_turn :
    (d : Dispatcher) (scopes : List Scope)
    → let after = (tenant_dispatch_scope_order d scopes).1 in
      (after.scope_activity ≡ d.scope_activity)
      × (after.tenant_turn ≡ next_turn (length scopes) d.tenant_turn)
unfolding tenant_dispatch_scope_order
order-next_turn d scopes = elim (Bool-cases (leb (length scopes) 1)) [
  | inl e ↦ rw (e) (refl, refl)
  | inr e ↦ rw (e) (refl, refl)
]

module _ {W X : Type 0} (env : Environment W X) (tenancy : Tenancy W)
    (targets : List (RetentionTarget W)) where
  -- A tick keeps the schedules within the list, and the turn.
  abbrev Keeps : List Scope → Dispatcher → Dispatcher → Type 0
  Keeps scopes d e = IsWithin scopes e.scope_activity × (e.tenant_turn ≡ d.tenant_turn)

  dispatch_scope-Keeps :
      (scopes : List Scope) (d : Dispatcher) (scope : Scope) (now : ℕ) (w : W)
      → In scope scopes
      → IsWithin scopes d.scope_activity
      → Keeps scopes d (dispatch_scope env tenancy targets d scope now w).0
  unfolding dispatch_scope record_scope_activity
  dispatch_scope-Keeps scopes d scope now w m h =
      let inside = enter_tenant env tenancy targets tenancy.list_tenant_dispatch_scopes scope w in
      let key = tenant_key_from_context env tenancy targets inside in
      let done = dispatch_once_result env d key inside in
      let noted = record_scope_activity done.1 scope done.0 now in
      let cycle = dispatch_once_result-Framed env key d inside in
      let swept =
        sweep_retention-Framed env.context_done tenancy.enter tenancy.leave targets noted scope now
          done.2 in
      (
        subst (IsWithin scopes) (sym swept.0) (
            record_scope_activity-IsWithin scopes done.1 scope done.0 now m
              (subst (IsWithin scopes) (sym cycle.0) h)),
        swept.1 ∙ cycle.1,
      )

  dispatch_scopes-Keeps :
      (scopes xs : List Scope) (d : Dispatcher) (w : W)
      → ((s : Scope) → In s xs → In s scopes)
      → IsWithin scopes d.scope_activity
      → Keeps scopes d (dispatch_scopes env tenancy targets xs d w).0
  unfolding dispatch_scopes
  dispatch_scopes-Keeps scopes [] d w of_list h = (h, refl)
  dispatch_scopes-Keeps scopes (x ∷ xs) d w of_list h =
      let next = dispatch_scope env tenancy targets d x (env.now w) w in
      let (within, same) = dispatch_scope-Keeps scopes d x (env.now w) w (of_list x (inl refl)) h in
      let (later, turn) =
        dispatch_scopes-Keeps scopes xs next.0 next.1 (λ s m. of_list s (inr m)) within in
      if-cases (λ (o : Dispatcher × W). Keeps scopes d o.0) (env.context_done w) _ _
        (λ e. (h, refl))
        (λ e.
          if-cases (λ (o : Dispatcher × W). Keeps scopes d o.0)
            (not (should_dispatch_scope d x (env.now w))) _ _
            (λ k. dispatch_scopes-Keeps scopes xs d w (λ s m. of_list s (inr m)) h)
            (λ k. (later, turn ∙ same)))

  dispatch_in_context-Framed :
      (d : Dispatcher) (scope : Scope) (w : W)
      → Framed d (dispatch_in_context env tenancy targets d scope w).0
  unfolding dispatch_in_context
  dispatch_in_context-Framed d scope w =
      let key = tenant_key_from_context env tenancy targets w in
      let done = dispatch_once_result env d key w in
      let first = dispatch_once_result-Framed env key d w in
      let later =
        sweep_retention-Framed env.context_done tenancy.enter tenancy.leave targets done.1 scope
          (env.now done.2) done.2 in
      (later.0 ∙ first.0, later.1 ∙ first.1)

  without_tenant-Framed :
      (d : Dispatcher) (w : W)
      → Framed d (dispatch_without_discovered_tenant env tenancy targets d w).0
  unfolding dispatch_without_discovered_tenant
  without_tenant-Framed d w =
      if-cases (λ (o : Dispatcher × W). Framed d o.0)
        (not (is_empty_text (text_of env tenancy targets (tenancy.context_tenant w)))) _ _
        (λ h. dispatch_in_context-Framed d _ w)
        (λ h.
          if-cases (λ (o : Dispatcher × W). Framed d o.0)
            (is_required env tenancy targets tenancy.requires_tenant w) _ _ (λ k. (refl, refl))
            (λ k. dispatch_in_context-Framed d _ w))

  dispatch_ordered-Keeps :
      (scopes xs : List Scope) (d : Dispatcher) (w : W)
      → ((s : Scope) → In s xs → In s scopes)
      → IsWithin scopes d.scope_activity
      → Keeps scopes d (dispatch_ordered env tenancy targets xs d w).0
  unfolding dispatch_ordered
  dispatch_ordered-Keeps scopes [] d w of_list h =
      let same = without_tenant-Framed d w in (subst (IsWithin scopes) (sym same.0) h, same.1)
  dispatch_ordered-Keeps scopes (x ∷ xs) d w of_list h =
      dispatch_scopes-Keeps scopes (x ∷ xs) d w of_list h

  -- After a tick whose context had not ended and whose listing answered, the dispatcher has a schedule
  -- for no scope but the listed ones that name a tenant, trimmed of blanks: what it remembers of scopes
  -- that are no longer listed is dropped. The turn has moved by one over the scopes of the tick, and
  -- with one scope or none it stays.
  pub dispatch_across_tenants_remembers :
      (d : Dispatcher) (w listed : W) (scopes : List Scope)
      → env.context_done w ≡ false
      → list_scopes env tenancy targets tenancy.list_tenant_dispatch_scopes w ≡ (ok scopes, listed)
      → let after = (dispatch_across_tenants env tenancy targets d w).0 in
        ((s : Scope) (a : ScopeActivity) → find s after.scope_activity ≡ some a → IsListed s scopes)
        × (after.tenant_turn
            ≡ next_turn (length (normalize_tenant_dispatch_scopes scopes)) d.tenant_turn)
  unfolding dispatch_across_tenants reconcile_scope_activity
  dispatch_across_tenants_remembers d w listed scopes goes answered =
      rw (goes, answered)
        (let normalized = normalize_tenant_dispatch_scopes scopes in
          let start = reconcile_scope_activity d normalized in
          let ordered = tenant_dispatch_scope_order start normalized in
          let turned = order-next_turn start normalized in
          let begun =
            subst (IsWithin normalized) (sym turned.0) (reconcile-IsWithin d normalized) in
          let (within, same) =
            dispatch_ordered-Keeps normalized ordered.0 ordered.1 listed (order-In start normalized)
              begun in
          let done = dispatch_ordered env tenancy targets ordered.0 ordered.1 listed in
          let swept =
            sweep_listed_tenants-Framed env.context_done tenancy.enter tenancy.leave targets done.0
              (env.now done.1) done.1 in
          (
            λ s a q.
                ((normalize_tenant_dispatch_scopes-IsListed scopes).1 s).0
                  (subst (IsWithin normalized) (sym swept.0) within s a q),
            swept.1 ∙ same ∙ turned.1,
          ))
