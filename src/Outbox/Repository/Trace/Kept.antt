-- ===== src/Outbox/Repository/Trace/Kept.antt =====
-- What sequences of calls of the repository of commons/outbox/postgres that list, claim, reclaim or mark
-- events keep: the terminal rows, and
-- the width of last_error.
use lib_commons.Base.{◌≡◌, sym, subst, ◌∙◌, ◌⊎◌, inl, inr, true, List, [], ◌∷◌, In, arith, All}
use lib_commons.Base.Runes.{Runes}
use lib_commons.Outbox.Status.{OutboxEventStatus, can_transition_to}
use OutboxEventStatus.{published, invalid}
use lib_commons.Outbox.Repository.{Row, Table, Session}
use lib_commons.Outbox.Repository.Lifecycle.{Fits, TableStep, History, stay, then_step}
use lib_commons.Outbox.Repository.Trace.{Request, serve, serve_all, serve-History}

abbrev pub IsTerminal : OutboxEventStatus → Type 0
IsTerminal status = (status ≡ published) ⊎ (status ≡ invalid)

no_way_out : (a b : OutboxEventStatus) → IsTerminal a → can_transition_to a b ≡ true → ⊥
unfolding can_transition_to
no_way_out a b terminal h = ground (arith, terminal, h)

TableStep-keeps :
    (r : Row) (t u : Table) → IsTerminal r.event.status → TableStep t u → In r t → In r u
TableStep-keeps r [] u terminal h m = absurd m
TableStep-keeps r (x ∷ xs) [] terminal h m = absurd h
TableStep-keeps r (x ∷ xs) (y ∷ ys) terminal h (inl e) = elim h.0 [
  | inl same ↦ inl (e ∙ sym same)
  | inr moved ↦ absurd (
      no_way_out r.event.status y.event.status terminal
        (subst (λ z. can_transition_to z.event.status y.event.status ≡ true) (sym e) moved.1.0))
]
TableStep-keeps r (x ∷ xs) (y ∷ ys) terminal h (inr m) =
    inr (TableStep-keeps r xs ys terminal h.1 m)

pub History-keeps :
    (r : Row) {t u : Table} → IsTerminal r.event.status → History t u → In r t → In r u
History-keeps r terminal stay m = m
History-keeps r terminal (then_step {t} {u} h rest) m =
    History-keeps r terminal rest (TableStep-keeps r t u terminal h m)

-- No sequence of calls that list, claim, reclaim or mark events changes or removes a row that is
-- published or invalid. (Create and the deletions of retention.go are not among the calls.)
pub serve_all_keeps :
    (redact : Runes → Runes) (calls : List (Session × Request)) (t : Table) (r : Row)
    → IsTerminal r.event.status
    → In r t
    → In r (serve_all redact calls t)
unfolding serve_all
serve_all_keeps redact [] t r terminal m = m
serve_all_keeps redact (call ∷ calls) t r terminal m =
    serve_all_keeps redact calls (serve redact call.0 call.1 t) r terminal
      (History-keeps r terminal (serve-History redact call.0 call.1 t) m)

TableStep-Fits :
    (t u : Table) → TableStep t u → All (λ r. Fits r.event) t → All (λ r. Fits r.event) u
TableStep-Fits [] [] h fits = tt
TableStep-Fits [] (y ∷ ys) h fits = absurd h
TableStep-Fits (x ∷ xs) [] h fits = absurd h
TableStep-Fits (x ∷ xs) (y ∷ ys) h fits = (
  elim h.0 [
    | inl same ↦ subst (λ r. Fits r.event) (sym same) fits.0
    | inr moved ↦ moved.1.7 fits.0
  ],
  TableStep-Fits xs ys h.1 fits.1,
)

History-Fits : {t u : Table} → History t u → All (λ r. Fits r.event) t → All (λ r. Fits r.event) u
History-Fits stay fits = fits
History-Fits (then_step {t} {u} h rest) fits = History-Fits rest (TableStep-Fits t u h fits)

-- No sequence of those calls lets a stored last_error outgrow the 512 characters of its column, whatever
-- the messages of the failures and the redaction are.
pub serve_all-Fits :
    (redact : Runes → Runes) (calls : List (Session × Request)) (t : Table)
    → All (λ r. Fits r.event) t
    → All (λ r. Fits r.event) (serve_all redact calls t)
unfolding serve_all
serve_all-Fits redact [] t fits = fits
serve_all-Fits redact (call ∷ calls) t fits =
    serve_all-Fits redact calls (serve redact call.0 call.1 t)
      (History-Fits (serve-History redact call.0 call.1 t) fits)
