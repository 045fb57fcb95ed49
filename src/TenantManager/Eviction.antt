-- ===== src/TenantManager/Eviction.antt =====
-- commons/tenant-manager/internal/eviction/lru.go. Times are nanoseconds, time.Now() is an argument,
-- and the map of last accesses is a list of its entries in the order in which the loop meets them,
-- which is any. The log calls are left out.
pub mod Oldest
mod Tests
use lib_commons.Base.{
  ℕ, ◌-◌, ◌*◌, ◌^◌, Bool, true, false, not, ◌||◌, List, [], ◌∷◌, Option, none, some, String, ltb,
  if◌then◌else◌,
}
use lib_commons.Base.Text.{str_eq}
use lib_commons.Base.Int.{ℤ, pos, negsuc, ltb_ℤ}

-- Five minutes.
abbrev pub default_idle_timeout : ℕ
default_idle_timeout = 5 * 60 * 10 ^ 9

-- `if idleTimeout <= 0 { idleTimeout = DefaultIdleTimeout }`
unfoldable pub effective_timeout : ℤ → ℕ
effective_timeout (pos n) = if ltb 0 n then n else default_idle_timeout
effective_timeout (negsuc n) = default_idle_timeout

-- The body of the loop. A time in the future has been idle for a negative duration, here 0.
unfoldable pub consider : ℕ → ℕ → String × ℕ → String × ℕ → String × ℕ
consider now timeout oldest entry =
    if ltb (now - entry.1) timeout
    then oldest
    else (if str_eq oldest.0 "" || ltb entry.1 oldest.1 then entry else oldest)

unfoldable pub scan : ℕ → ℕ → String × ℕ → List (String × ℕ) → String × ℕ
scan now timeout oldest [] = oldest
scan now timeout oldest (entry ∷ rest) = scan now timeout (consider now timeout oldest entry) rest

-- Whether the pool is limited and full.
abbrev pub is_full : ℤ → ℤ → Bool
is_full count limit = not (not (ltb_ℤ (pos 0) limit) || ltb_ℤ count limit)

unfoldable pub find_lru_eviction_candidate : ℤ → ℤ → List (String × ℕ) → ℤ → ℕ → Option String
find_lru_eviction_candidate count limit last_accessed idle_timeout now =
    if not (is_full count limit)
    then none
    else (let oldest = scan now (effective_timeout idle_timeout) ("", 0) last_accessed in
        if str_eq oldest.0 "" then none else some oldest.0)
