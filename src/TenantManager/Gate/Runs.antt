-- ===== src/TenantManager/Gate/Runs.antt =====
-- Sequences of calls of a gate: one check at a time for each key, and a verdict that counts only for
-- the connection it was about.
use lib_commons.Base.{
  ℕ, ◌-◌, ◌<◌, ◌≡◌, refl, ◌∙◌, inl, inr, Bool, true, false, not, ◌&&◌, ◌||◌, List, [], ◌∷◌, some,
  String, arith, leb, if◌then◌else◌, Option-cases,
}
use lib_commons.Base.Text.{str_eq, str_eq→≡, str_eq_cases}
use lib_commons.Base.Dict.{
  lookup, lookup-insert_self, lookup-insert_other, lookup-delete_self, lookup-delete_other,
  lookup-map_values,
}
use lib_commons.TenantManager.Gate.{
  skip, run, wait, Check, Gate, is_recent, start_check, begin_decide, begin, end_check, end,
  invalidate, forget_inflight, forget, forget_all,
}

pub data Call : Type 0 where
  begins : String → ℕ → Call
  ends : String → Bool → ℕ → Call
  forgets : String → Call
  forgets_all : Call

abbrev pub apply : Gate → Call → Gate
apply g (begins key now) = (begin g key now).0
apply g (ends key healthy now) = end g key healthy now
apply g (forgets key) = forget g key
apply g forgets_all = forget_all g

abbrev pub after : Gate → List Call → Gate
after g [] = g
after g (c ∷ cs) = after (apply g c) cs

-- The call does not end the check of `key`.
abbrev pub is_end : String → Call → Bool
is_end key (ends k _ _) = str_eq k key
is_end key _ = false

-- The call forgets the key.
abbrev pub is_forget : String → Call → Bool
is_forget key (forgets k) = str_eq k key
is_forget key forgets_all = true
is_forget key _ = false

abbrev pub any_call : (Call → Bool) → List Call → Bool
any_call test [] = false
any_call test (c ∷ cs) = test c || any_call test cs

-- The interval never changes.
interval-apply : (g : Gate) (c : Call) → (apply g c).interval ≡ g.interval
unfolding begin begin_decide start_check end end_check forget forget_all
interval-apply g (begins key now) = ground arith
interval-apply g (ends key healthy now) = ground arith
interval-apply g (forgets key) = refl
interval-apply g forgets_all = refl

-- Forgetting a key invalidates its check in flight and no other.
forget_check :
    (g : Gate) (k key : String) (check : Check)
    → lookup key g.inflight ≡ some check
    → lookup key (forget_inflight k g.inflight (lookup k g.inflight))
      ≡ some (record check { invalid = check.invalid || str_eq k key })
unfolding forget_inflight
forget_check g k key check h = elim (str_eq_cases k key) [
  | inl (e, same) ↦ ground (arith, lookup-insert_self key (invalidate check) g.inflight)
  | inr e ↦ elim (Option-cases (lookup k g.inflight)) [
    | inl no_check ↦ ground arith
    | inr (other, found) ↦ ground (arith, lookup-insert_other k key (invalidate other) g.inflight)
  ]
]

-- One call leaves the check of the key in flight, and invalidates it if it forgets the key.
inflight-apply :
    (g : Gate) (key : String) (check : Check) (c : Call)
    → lookup key g.inflight ≡ some check
    → is_end key c ≡ false
    → lookup key (apply g c).inflight
      ≡ some (record check { invalid = check.invalid || is_forget key c })
unfolding begin begin_decide start_check end end_check forget forget_inflight forget_all
inflight-apply g key check (begins k now) h n = ground (
  arith,
  str_eq→≡ k key,
  lookup-insert_other k key (record { done = g.next_channel; invalid = false }) g.inflight,
)
inflight-apply g key check (ends k healthy now) h n =
    ground (arith, lookup-delete_other k key g.inflight)
inflight-apply g key check (forgets k) h n = forget_check g k key check h
inflight-apply g key check forgets_all h n =
    lookup-map_values invalidate key g.inflight ∙ ground arith

interval-after : (g : Gate) (cs : List Call) → (after g cs).interval ≡ g.interval
interval-after g [] = refl
interval-after g (c ∷ cs) = interval-after (apply g c) cs ∙ interval-apply g c

-- While no call ends the check of the key it stays in flight, on its channel, and it is invalid as
-- soon as a call forgot the key.
inflight-after :
    (g : Gate) (key : String) (check : Check) (cs : List Call)
    → lookup key g.inflight ≡ some check
    → any_call (is_end key) cs ≡ false
    → lookup key (after g cs).inflight
      ≡ some (record check { invalid = check.invalid || any_call (is_forget key) cs })
inflight-after g key check [] h n = ground arith
inflight-after g key check (c ∷ cs) h n =
    let first = inflight-apply g key check c h (ground arith) in
    let rest =
      inflight-after (apply g c) key (record check { invalid = check.invalid || is_forget key c })
        cs first (ground arith) in
    rest ∙ ground arith

begin_run :
    (g : Gate) (key : String) (now : ℕ)
    → 0 < g.interval
    → (begin g key now).1 ≡ run
    → ((begin g key now).0.interval ≡ g.interval)
      × (lookup key (begin g key now).0.inflight
          ≡ some (record { done = g.next_channel; invalid = false }))
unfolding begin begin_decide start_check
begin_run g key now v h =
    ground
      (arith, lookup-insert_self key (record { done = g.next_channel; invalid = false }) g.inflight)

module _ (g : Gate) (key : String) (now : ℕ) (cs : List Call) (enabled : 0 < g.interval)
    (owned : (begin g key now).1 ≡ run) (pending : any_call (is_end key) cs ≡ false) where
  abbrev pub later_gate : Gate
  later_gate = after (begin g key now).0 cs

  pending_check :
      lookup key later_gate.inflight
      ≡ some (record { done = g.next_channel; invalid = any_call (is_forget key) cs })
  pending_check =
      inflight-after (begin g key now).0 key (record { done = g.next_channel; invalid = false }) cs
        (begin_run g key now enabled owned).1 pending

  same_interval : later_gate.interval ≡ g.interval
  same_interval = interval-after (begin g key now).0 cs ∙ (begin_run g key now enabled owned).0

  -- On an enabled gate, after a call of Begin that was told to run the check of a key and whatever
  -- calls follow, for any keys, as long as none ends that check: Begin tells every further caller
  -- of the key to wait, on the channel of that check, and changes nothing.
  pub begin_single :
      (later : ℕ) → begin later_gate key later ≡ (later_gate, wait, some g.next_channel)
  unfolding begin begin_decide
  begin_single later = ground (arith, pending_check, same_interval)

  -- Once End publishes the verdict of that check, the channel is closed and the next caller does not
  -- wait. It skips its check exactly when the verdict was healthy, no call forgot the key in
  -- between, and it asks within the interval after the verdict; else it runs a check itself.
  pub end_verdict :
      (healthy : Bool) (at later : ℕ)
      → let h = end later_gate key healthy at in
        (h.closed ≡ g.next_channel ∷ later_gate.closed)
        × ((begin h key later).1 ≡ (
            if healthy && not (any_call (is_forget key) cs) && leb (later - at) g.interval
            then skip
            else run))
  unfolding end end_check begin begin_decide is_recent start_check
  end_verdict healthy at later = ground (
    arith,
    pending_check,
    same_interval,
    lookup-delete_self key later_gate.inflight,
    lookup-insert_self key at later_gate.last,
    lookup-delete_self key later_gate.last,
  )
