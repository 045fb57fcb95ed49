-- ===== src/TenantManager/Cache.antt =====
-- commons/tenant-manager/cache: InMemoryCache of memory.go. Times are nanoseconds and time.Now() is
-- an argument wherever the code reads it. Get takes the lock twice: `others` is what other
-- goroutines do to the entries between the two. The ticker that calls evictExpired is left out.
pub mod Ttl
mod Tests
use lib_commons.Base.{
  ℕ, ◌+◌, Bool, true, false, List, [], ◌∷◌, Option, none, some, String, ltb, if◌then◌else◌,
}
use lib_commons.Base.Dict.{lookup, insert, delete, reject}
use lib_commons.Base.Int.{ℤ, pos, negsuc}

-- The zero time is `none`.
pub record CacheEntry : Type 0 where
  pub value : String
  pub expires_at : Option ℕ

abbrev pub Entries : Type 0
Entries = List (String × CacheEntry)

pub record InMemoryCache : Type 0 where
  pub entries : Entries
  pub done : Bool  -- whether the channel `done` is closed

unfoldable pub new_in_memory_cache : InMemoryCache
new_in_memory_cache = record { entries = []; done = false }

abbrev pub is_past : Option ℕ → ℕ → Bool
is_past none now = false
is_past (some at) now = ltb at now

unfoldable pub is_expired : ℕ → CacheEntry → Bool
is_expired now e = is_past e.expires_at now

-- Under the second lock: the entry goes if it is still there and still expired.
unfoldable pub evict_found : String → Entries → ℕ → Option CacheEntry → Entries
evict_found key entries now none = entries
evict_found key entries now (some e) = if is_expired now e then delete key entries else entries

unfoldable pub get_found :
    (Entries → Entries)
    → String
    → InMemoryCache
    → ℕ
    → ℕ
    → Option CacheEntry
    → InMemoryCache × Option String
get_found others key c now later none = (c, none)
get_found others key c now later (some e) =
    if is_expired now e
    then (let entries = others c.entries in
        (record c { entries = evict_found key entries later (lookup key entries) }, none))
    else (c, some e.value)

-- Get at time `now`, with its second lock at time `later`; `none` is ErrCacheMiss.
unfoldable pub get :
    (Entries → Entries) → String → InMemoryCache → ℕ → ℕ → InMemoryCache × Option String
get others key c now later = get_found others key c now later (lookup key c.entries)

-- The TTL is a duration in nanoseconds.
abbrev pub expiry : ℤ → ℕ → Option ℕ
expiry (pos n) now = if ltb 0 n then some (now + n) else none
expiry (negsuc n) now = none

unfoldable pub set : String → String → ℤ → ℕ → InMemoryCache → InMemoryCache
set key value ttl now c = record c {
  entries = insert key (record { value = value; expires_at = expiry ttl now }) c.entries;
}

unfoldable pub del : String → InMemoryCache → InMemoryCache
del key c = record c { entries = delete key c.entries }

-- A second call of Close finds the channel closed and does nothing.
unfoldable pub close : InMemoryCache → InMemoryCache
close c = if c.done then c else record c { done = true }

-- The loop deletes from the map that it ranges over, which visits every entry once.
unfoldable pub evict_expired : ℕ → InMemoryCache → InMemoryCache
evict_expired now c = record c { entries = reject (is_expired now) c.entries }
