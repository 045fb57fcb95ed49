-- ===== src/TenantManager/Gate.antt =====
-- commons/tenant-manager/internal/healthcheck/gate.go. Times are nanoseconds on the monotonic
-- clock, and time.Now() is an argument. A channel is a number that was not used before, and the
-- gate's state lists the channels that were closed. Each method holds the mutex for all of its
-- effect, so a concurrent run is a sequence of calls (Gate.Runs).
pub mod Runs
mod Tests
use mathlib.Core.Option
use lib_commons.Base.{
  ℕ, suc, ◌-◌, ◌+◌, Bool, true, false, not, ◌&&◌, ◌||◌, List, [], ◌∷◌, Option, none, some, String,
  leb, ◌==◌, if◌then◌else◌,
}
use lib_commons.Base.Dict.{lookup, insert, delete, map_values}
use lib_commons.Base.Int.{ℤ, pos, pos_part}

pub data Action : Type 0 where
  skip run wait : Action

pub record Check : Type 0 where
  pub done : ℕ
  pub invalid : Bool

pub record Gate : Type 0 where
  pub interval : ℕ
  pub last : List (String × ℕ)
  pub inflight : List (String × Check)
  pub next_channel : ℕ
  pub closed : List ℕ

-- `max(interval, 0)`: a negative interval counts as 0.
unfoldable pub new_gate : ℤ → Gate
new_gate interval = record {
  interval = pos_part interval;
  last = [];
  inflight = [];
  next_channel = 0;
  closed = [];
}

abbrev pub is_disabled : Gate → Bool
is_disabled g = g.interval == 0

unfoldable pub start_check : Gate → String → Gate × Action × Option ℕ
start_check g key =
    let check : Check = record { done = g.next_channel; invalid = false } in
    (
      record g { inflight = insert key check g.inflight; next_channel = suc g.next_channel },
      run,
      none,
    )

-- Whether the check recorded last is recent enough at `now`. The clock may read `now` before the
-- time recorded; the difference is then negative, here 0, and within every interval.
unfoldable pub is_recent : Gate → Option ℕ → ℕ → Bool
is_recent g none now = false
is_recent g (some last) now = leb (now - last) g.interval

unfoldable pub begin_decide : Gate → String → ℕ → Option Check → Gate × Action × Option ℕ
begin_decide g key now (some check) = (g, wait, some check.done)
begin_decide g key now none =
    if is_recent g (lookup key g.last) now then (g, skip, none) else start_check g key

unfoldable pub begin : Gate → String → ℕ → Gate × Action × Option ℕ
begin g key now =
    if is_disabled g then (g, run, none) else begin_decide g key now (lookup key g.inflight)

unfoldable pub end_check : Gate → String → Bool → ℕ → Option Check → Gate
end_check g key healthy now none = record g { inflight = delete key g.inflight }
end_check g key healthy now (some check) = record g {
  inflight = delete key g.inflight;
  last = if healthy && not check.invalid then insert key now g.last else delete key g.last;
  closed = check.done ∷ g.closed;
}

unfoldable pub end : Gate → String → Bool → ℕ → Gate
end g key healthy now =
    if is_disabled g then g else end_check g key healthy now (lookup key g.inflight)

abbrev pub invalidate : Check → Check
invalidate check = record check { invalid = true }

unfoldable pub forget_inflight :
    String → List (String × Check) → Option Check → List (String × Check)
forget_inflight key inflight none = inflight
forget_inflight key inflight (some check) = insert key (invalidate check) inflight

unfoldable pub forget : Gate → String → Gate
forget g key = record g {
  last = delete key g.last;
  inflight = forget_inflight key g.inflight (lookup key g.inflight);
}

unfoldable pub forget_all : Gate → Gate
forget_all g = record g { last = []; inflight = map_values invalidate g.inflight }

-- CallerAbandoned, on the error of the context and on the test `errors.Is(checkErr, ctxErr)`.
unfoldable pub caller_abandoned {ℓ} : {E : Type ℓ} → Option E → (E → Bool) → Bool
caller_abandoned none is_check_error = false
caller_abandoned (some ctx_error) is_check_error = is_check_error ctx_error
