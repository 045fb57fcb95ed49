-- ===== src/Outbox/Dispatcher/Retention.antt =====
-- commons/outbox/dispatcher.go: the sweep that deletes settled events, once per scope and interval. A
-- retention target is a status with its window, its deletion and, if there is one, its listing of
-- tenants; `enter` is ContextWithTenantID. The kept event types are within the deletion and the
-- listing.
pub mod Interval
use mathlib.Core.Option
use lib_commons.Base.{
  ℕ, ◌+◌, ◌-◌, Bool, true, false, ◌||◌, not, List, [], ◌∷◌, Option, none, some, ltb, leb,
  if◌then◌else◌,
}
use lib_commons.Base.Result.{Result, ok, err}
use lib_commons.Base.Runes.{Runes}
use lib_commons.Base.Assoc.{find, put, retain}
use lib_commons.Outbox.Repository.{RepositoryError}
use lib_commons.Outbox.Dispatcher.{Dispatcher, Scope, scope_key}

-- retentionTarget.
pub record RetentionTarget (W : Type 0) : Type 0 where
  pub window : ℕ
  pub delete : ℕ → ℕ → W → Result RepositoryError ℕ × W
  pub list : Option (ℕ → W → Result RepositoryError (List Runes) × W)

-- Whether the last time is an interval old; the zero time is.
abbrev pub is_aged : ℕ → ℕ → Option ℕ → Bool
is_aged interval now none = true
is_aged interval now (some last) = leb (last + interval) now

-- The entries younger than the interval.
unfoldable pub prune : ℕ → ℕ → List (Scope × ℕ) → List (Scope × ℕ)
prune interval now swept = retain (λ s last. ltb now (last + interval)) swept

-- After a granted claim.
unfoldable pub grant : Dispatcher → Scope → ℕ → Dispatcher
grant d scope now =
    let interval = d.cfg.retention_sweep_interval in
    if is_aged interval now d.retention_pruned_at
    then record d {
      retention_swept_at = put scope now (prune interval now d.retention_swept_at);
      retention_pruned_at = some now;
    }
    else record d { retention_swept_at = put scope now d.retention_swept_at }

unfoldable pub claim_retention_sweep : Dispatcher → Scope → ℕ → Dispatcher × Bool
claim_retention_sweep d scope now =
    if is_aged d.cfg.retention_sweep_interval now (find scope d.retention_swept_at)
    then (grant d scope now, true)
    else (d, false)

abbrev pub deleted_of : Result RepositoryError ℕ → ℕ
deleted_of (err e) = 0
deleted_of (ok n) = n

module _ {W : Type 0} (context_done : W → Bool) (enter : Runes → W → W) where
  -- The loop over the targets; an error leaves the others to be swept. The sum is of the deleted
  -- events. A time before the epoch is 0.
  unfoldable pub sweep_targets : Dispatcher → ℕ → List (RetentionTarget W) → ℕ → W → ℕ × W
  sweep_targets d now [] total w = (total, w)
  sweep_targets d now (target ∷ targets) total w =
      let done = target.delete (now - target.window) d.cfg.retention_batch_size w in
      sweep_targets d now targets (total + deleted_of done.0) done.1

  abbrev pub has_none : List (RetentionTarget W) → Bool
  has_none [] = true
  has_none (target ∷ targets) = false

  abbrev pub sweep_claimed : List (RetentionTarget W) → ℕ → Dispatcher × Bool → W → Dispatcher × W
  sweep_claimed targets now (d, false) w = (d, w)
  sweep_claimed targets now (d, true) w = (d, (sweep_targets d now targets 0 w).1)

  unfoldable pub sweep_retention :
      List (RetentionTarget W) → Dispatcher → Scope → ℕ → W → Dispatcher × W
  sweep_retention targets d scope now w =
      if has_none targets || context_done w
      then (d, w)
      else sweep_claimed targets now (claim_retention_sweep d scope now) w

  -- Each listed tenant, in a context of its own; `leave` gives back the one before.
  unfoldable pub sweep_tenants :
      (W → W) → List (RetentionTarget W) → Dispatcher → ℕ → List Runes → W → Dispatcher × W
  sweep_tenants leave targets d now [] w = (d, w)
  sweep_tenants leave targets d now (t ∷ ts) w =
      let scope : Scope = record { tenant_id = t; pool_key = [] } in
      let swept = sweep_retention targets d scope now (enter t w) in
      sweep_tenants leave targets swept.0 now ts (leave swept.1)

  abbrev pub sweep_listing :
      (W → W)
      → List (RetentionTarget W)
      → Dispatcher
      → ℕ
      → Result RepositoryError (List Runes) × W
      → Dispatcher × W
  sweep_listing leave targets d now (err e, w) = (d, w)
  sweep_listing leave targets d now (ok tenants, w) = sweep_tenants leave targets d now tenants w

  abbrev pub sweep_listed :
      (W → W)
      → List (RetentionTarget W)
      → Dispatcher
      → ℕ
      → ℕ
      → Option (ℕ → W → Result RepositoryError (List Runes) × W)
      → W
      → Dispatcher × W
  sweep_listed leave targets d now window none w = (d, w)
  sweep_listed leave targets d now window (some list) w =
      sweep_listing leave targets d now (list (now - window) w)

  -- The loop over the targets that list tenants.
  unfoldable pub sweep_listed_by :
      (W → W)
      → List (RetentionTarget W)
      → List (RetentionTarget W)
      → Dispatcher
      → ℕ
      → W
      → Dispatcher × W
  sweep_listed_by leave targets [] d now w = (d, w)
  sweep_listed_by leave targets (target ∷ rest) d now w =
      let swept = sweep_listed leave targets d now target.window target.list w in
      sweep_listed_by leave targets rest swept.0 now swept.1

  unfoldable pub sweep_listed_tenants :
      (W → W) → List (RetentionTarget W) → Dispatcher → ℕ → W → Dispatcher × W
  sweep_listed_tenants leave targets d now w =
      if has_none targets || context_done w
      then (d, w)
      else (if is_aged d.cfg.retention_sweep_interval now d.retention_listed_at
          then sweep_listed_by leave targets targets (record d { retention_listed_at = some now })
              now w
          else (d, w))
