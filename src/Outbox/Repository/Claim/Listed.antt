-- ===== src/Outbox/Repository/Claim/Listed.antt =====
-- Which events the queries of commons/outbox/postgres/repository.go return, and which rows an UPDATE
-- leaves to them.
use lib_commons.Base.{
  ℕ, ◌≡◌, ◌≢◌, refl, sym, subst, ap, ◌⊎◌, inl, inr, Bool, true, false, not, ◌&&◌, List, [], ◌∷◌, In,
  In-take, map, Bool-cases, if◌then◌else◌, leb, arith,
}
use lib_commons.Base.Result.{ok}
use lib_commons.Base.Runes.{Runes}
use lib_commons.Outbox.Status.{OutboxEventStatus}
use OutboxEventStatus.{pending}
use lib_commons.Outbox.Repository.{
  OutboxEvent, Row, Table, Session, update, is_status, tenant_id_from_context, tenant_filter_clause,
}
use lib_commons.Outbox.Repository.Select.{insert_by, order_by, matching, select, list_pending_rows}
use lib_commons.Outbox.Repository.Claim.{collect_event_ids, has_id, apply_processing_state}

In-insert_by :
    (key : OutboxEvent → ℕ) (a e : OutboxEvent) (es : List OutboxEvent)
    → In e (insert_by key a es)
    → (e ≡ a) ⊎ In e es
unfolding insert_by
In-insert_by key a e [] (inl h) = inl h
In-insert_by key a e [] (inr m) = absurd m
In-insert_by key a e (x ∷ xs) m = elim (Bool-cases (leb (key a) (key x))) [
  | inl h ↦ subst (λ b. In e (if b then a ∷ x ∷ xs else x ∷ insert_by key a xs)) h m
  | inr h ↦ elim (subst (λ b. In e (if b then a ∷ x ∷ xs else x ∷ insert_by key a xs)) h m) [
    | inl q ↦ inr (inl q)
    | inr k ↦ elim (In-insert_by key a e xs k) [ inl q ↦ inl q | inr j ↦ inr (inr j) ]
  ]
]

pub In-order_by :
    (key : OutboxEvent → ℕ) (e : OutboxEvent) (es : List OutboxEvent)
    → In e (order_by key es)
    → In e es
unfolding order_by
In-order_by key e [] m = absurd m
In-order_by key e (x ∷ xs) m = elim (In-insert_by key x e (order_by key xs) m) [
  | inl h ↦ inl h
  | inr k ↦ inr (In-order_by key e xs k)
]

pub In-matching :
    (locked : ℕ → Bool) (where_ : Row → Bool) (e : OutboxEvent) (t : Table)
    → In e (matching locked where_ t)
    → (r : Row) × In r t × (where_ r ≡ true) × (r.event ≡ e)
unfolding matching
In-matching locked where_ e [] m = absurd m
In-matching locked where_ e (x ∷ xs) m =
    let rest = matching locked where_ xs in
    elim (Bool-cases (where_ x && not (locked x.event.id))) [
      | inl h ↦ elim (subst (λ b. In e (if b then x.event ∷ rest else rest)) h m) [
        | inl q ↦ (x, inl refl, ground (arith, h), sym q)
        | inr k ↦ (let (r, j, w, q) = In-matching locked where_ e xs k in (r, inr j, w, q))
      ]
      | inr h ↦
          (let (r, j, w, q) =
              In-matching locked where_ e xs
                (subst (λ b. In e (if b then x.event ∷ rest else rest)) h m) in
            (r, inr j, w, q))
    ]

abbrev pub pending_of : (Row → Bool) → Row → Bool
pending_of filter r = is_status r.event.status pending && filter r

abbrev pub created : OutboxEvent → ℕ
created e = e.created_at

pub list_pending_rows-eq :
    (s : Session) (limit : ℕ) (t : Table) (tn : Runes) (filter : Row → Bool)
    → tenant_id_from_context s ≡ ok tn
    → tenant_filter_clause s tn ≡ ok filter
    → list_pending_rows s limit t ≡ ok (select s.locked (pending_of filter) created limit t)
unfolding list_pending_rows
list_pending_rows-eq s limit t tn filter h1 h2 = simp (h1, h2)

-- An event that a selection of pending rows returns is that of a pending row of the tenant.
pub In-select :
    (s : Session) (limit : ℕ) (t : Table) (filter : Row → Bool) (e : OutboxEvent)
    → In e (select s.locked (pending_of filter) created limit t)
    → (r : Row) × In r t × (pending_of filter r ≡ true) × (r.event ≡ e)
unfolding select
In-select s limit t filter e m = In-matching s.locked (pending_of filter) e t (
    In-order_by created e (matching s.locked (pending_of filter) t)
      (In-take limit e (order_by created (matching s.locked (pending_of filter) t)) m))

pub has_id-collect_event_ids :
    (e : OutboxEvent) (es : List OutboxEvent)
    → In e es
    → e.id ≢ 0
    → has_id (collect_event_ids es) e.id ≡ true
unfolding has_id collect_event_ids
has_id-collect_event_ids e [] m h = absurd m
has_id-collect_event_ids e (x ∷ xs) (inl q) h = ground (arith, q, h)
has_id-collect_event_ids e (x ∷ xs) (inr m) h = ground (arith, has_id-collect_event_ids e xs m h)

pub In-map_id :
    (now : ℕ) (e : OutboxEvent) (es : List OutboxEvent)
    → In e (map (apply_processing_state now) es)
    → (e0 : OutboxEvent) × In e0 es × (e.id ≡ e0.id)
unfolding apply_processing_state
In-map_id now e [] m = absurd m
In-map_id now e (x ∷ xs) (inl q) = (x, inl refl, ap (λ y. y.id) q)
In-map_id now e (x ∷ xs) (inr m) = let (e0, k, q) = In-map_id now e xs m in (e0, inr k, q)

-- No row of a table after an UPDATE that leaves its own WHERE satisfies the WHERE.
pub update-In_none :
    (where_ : Row → Bool) (set_ : OutboxEvent → OutboxEvent)
    → ((r : Row) → where_ r ≡ true → where_ (record r { event = set_ r.event }) ≡ false)
    → (r : Row) (t : Table) → In r (update where_ set_ t)
    → where_ r ≡ false
unfolding update
update-In_none where_ set_ leaves r [] m = absurd m
update-In_none where_ set_ leaves r (x ∷ xs) m =
    let rest = update where_ set_ xs in
    elim (Bool-cases (where_ x)) [
      | inl h ↦
          elim (subst (λ b. In r (if b then record x { event = set_ x.event } ∷ rest else x ∷ rest))
            h m) [
              | inl q ↦ subst (λ y. where_ y ≡ false) (sym q) (leaves x h)
              | inr k ↦ update-In_none where_ set_ leaves r xs k
            ]
      | inr h ↦
          elim (subst (λ b. In r (if b then record x { event = set_ x.event } ∷ rest else x ∷ rest))
            h m) [
              | inl q ↦ subst (λ y. where_ y ≡ false) (sym q) h
              | inr k ↦ update-In_none where_ set_ leaves r xs k
            ]
    ]
