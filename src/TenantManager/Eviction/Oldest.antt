-- ===== src/TenantManager/Eviction/Oldest.antt =====
-- FindLRUEvictionCandidate picks an idle entry that is the oldest of all idle entries.
use lib_commons.Base.{
  ℕ, ◌-◌, ◌≤◌, ◌<◌, ◌≡◌, refl, sym, ◌∙◌, ◌⊎◌, inl, inr, false, List, [], ◌∷◌, Option, none, some,
  String, arith, All, All-In, All-map, In, Bool-cases, subst,
}
use lib_commons.Base.Text.{str_eq}
use lib_commons.Base.Int.{ℤ, pos, negsuc, ◌≤ℤ◌, ◌+ℤ◌}
use lib_commons.TenantManager.Eviction.{
  consider, scan, is_full, effective_timeout, find_lru_eviction_candidate,
}

-- Tenant ids are not empty.
abbrev pub Named : String × ℕ → Type 0
Named e = str_eq e.0 "" ≡ false

abbrev pub Idle : ℕ → ℕ → String × ℕ → Type 0
Idle now timeout e = timeout ≤ now - e.1

-- `r` has a name and is no younger than `e`.
abbrev Beats : String × ℕ → String × ℕ → Type 0
Beats r e = Named r × (r.1 ≤ e.1)

module _ (now timeout : ℕ) where
  consider_cases :
      (o e : String × ℕ)
      → Named e
      → ((consider now timeout o e ≡ o) ⊎ ((consider now timeout o e ≡ e) × Idle now timeout e))
        × (Named o → Beats (consider now timeout o e) o)
        × (Idle now timeout e → Beats (consider now timeout o e) e)
  unfolding consider
  consider_cases o e n = (ground arith, ground arith, ground arith)

  scan_cases :
      (o : String × ℕ) (es : List (String × ℕ))
      → All Named es
      → ((scan now timeout o es ≡ o)
          ⊎ (In (scan now timeout o es) es × Idle now timeout (scan now timeout o es)))
        × (Named o → Beats (scan now timeout o es) o)
        × All (λ e. Idle now timeout e → Beats (scan now timeout o es) e) es
  unfolding scan
  scan_cases o [] n = (inl refl, λ h. (h, omega arith), tt)
  scan_cases o (e ∷ es) (n, ns) =
      let (c, keeps, beats) = consider_cases o e n in
      let (s, keeps', rest) = scan_cases (consider now timeout o e) es ns in
      (
        elim s [
          | inl same ↦ elim c [
            | inl old ↦ inl (same ∙ old)
            | inr (new, idle) ↦
                inr (inl (same ∙ new), subst (Idle now timeout) (sym (same ∙ new)) idle)
          ]
          | inr (m, idle) ↦ inr (inr m, idle)
        ],
        λ h. let (named, le) = keeps h in let (named', le') = keeps' named in (named', omega arith),
        (
          (λ h.
              let (named, le) = beats h in
              let (named', le') = keeps' named in (named', omega arith)),
          rest,
        ),
      )

-- The id is that of an idle entry that is no younger than any idle entry.
abbrev pub IsOldestIdle : ℕ → ℕ → List (String × ℕ) → String → Type 0
IsOldestIdle now timeout es id =
    (t : ℕ) × In (id, t) es × Idle now timeout (id, t) × All (λ e. Idle now timeout e → t ≤ e.1) es

oldest_cases :
    (now timeout : ℕ) (es : List (String × ℕ))
    → 0 < timeout
    → All Named es
    → ((scan now timeout ("", 0) es ≡ ("", 0)) × All (λ e. now - e.1 < timeout) es)
      ⊎ (Named (scan now timeout ("", 0) es)
          × IsOldestIdle now timeout es (scan now timeout ("", 0) es).0)
oldest_cases now timeout es v ns =
    let r = scan now timeout ("", 0) es in
    let (c, _, beats) = scan_cases now timeout ("", 0) es ns in
    elim c [
      | inl e ↦ inl (
        e,
        All-map (λ x. Idle now timeout x → Beats r x) (λ x. now - x.1 < timeout) es
            (λ x f. elim (le_or_lt timeout (now - x.1)) [
              | inl idle ↦ absurd (nameless (f idle).0 e)
              | inr active ↦ active
            ])
            beats,
      )
      | inr (m, idle) ↦ inr (
        All-In Named es ns m,
        (
          r.1,
          m,
          idle,
          All-map (λ x. Idle now timeout x → Beats r x) (λ x. Idle now timeout x → r.1 ≤ x.1) es
              (λ x f i. (f i).1) beats,
        ),
      )
    ]
  where
    le_or_lt : (a b : ℕ) → (a ≤ b) ⊎ (b < a)
    le_or_lt a b = ground arith

    nameless : {r : String × ℕ} → Named r → r ≡ ("", 0) → ⊥
    nameless {r} n e = cc (subst Named e n)

effective_timeout-pos : (t : ℤ) → 0 < effective_timeout t
unfolding effective_timeout
effective_timeout-pos (pos n) = ground arith
effective_timeout-pos (negsuc n) = omega arith

-- What may be answered for a pool of `count` connections.
abbrev pub Answer : ℤ → ℤ → List (String × ℕ) → ℕ → ℕ → Option String → Type 0
Answer count limit es timeout now none =
    (limit ≤ℤ pos 0) ⊎ (count +ℤ pos 1 ≤ℤ limit) ⊎ All (λ e. now - e.1 < timeout) es
Answer count limit es timeout now (some id) =
    (pos 1 ≤ℤ limit) × (limit ≤ℤ count) × IsOldestIdle now timeout es id

-- In whatever order the map of named tenants is read, FindLRUEvictionCandidate evicts only from a
-- limited pool that is full, and then an entry that has been idle for the timeout (five minutes, if
-- none is set) and whose last access is no later than that of any other idle entry. It evicts
-- nothing only if the pool is unlimited, has room, or has no idle entry.
pub find_lru_eviction_candidate-Answer :
    (count limit : ℤ) (es : List (String × ℕ)) (idle_timeout : ℤ) (now : ℕ)
    → All Named es
    → Answer count limit es
        (effective_timeout idle_timeout)
        now
        (find_lru_eviction_candidate count limit es idle_timeout now)
unfolding find_lru_eviction_candidate ◌+ℤ◌
find_lru_eviction_candidate-Answer count limit es idle_timeout now ns =
    elim (Bool-cases (is_full count limit)) [
      | inl full ↦
          elim (oldest_cases now (effective_timeout idle_timeout) es
            (effective_timeout-pos idle_timeout) ns) [
              | inl (e, active) ↦ rw (full, e) (inr (inr active))
              | inr (named, oldest) ↦ rw (full, named) (ground arith, ground arith, oldest)
            ]
      | inr room ↦ rw room (ground arith)
    ]
