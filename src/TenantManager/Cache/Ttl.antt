-- ===== src/TenantManager/Cache/Ttl.antt =====
-- The cache against its specification: a map of values that end at their time.
use lib_commons.Base.{
  ℕ, ◌≤◌, ◌≡◌, ◌≢◌, refl, inl, inr, List, [], ◌∷◌, Option, none, some, String, if◌then◌else◌, arith,
}
use lib_commons.Base.Text.{str_eq, str_eq_cases}
use lib_commons.Base.Int.{ℤ}
use lib_commons.Base.Dict.{lookup, lookup-delete_self, lookup-delete_other}
use lib_commons.TenantManager.Cache.{
  CacheEntry, Entries, InMemoryCache, is_past, is_expired, evict_found, get_found, get, set, del,
  close, evict_expired, expiry, new_in_memory_cache,
}

-- The value that a reader may see: the entry's, until it expires.
abbrev pub live : ℕ → Option CacheEntry → Option String
live now none = none
live now (some e) = if is_past e.expires_at now then none else some e.value

-- The cache as a map that depends on the time.
abbrev pub view : InMemoryCache → ℕ → String → Option String
view c now key = live now (lookup key c.entries)

-- Get answers by the view at the time of its first lock, whatever others do meanwhile.
pub get-view :
    (others : Entries → Entries) (key : String) (c : InMemoryCache) (now later : ℕ)
    → (get others key c now later).1 ≡ view c now key
unfolding get get_found is_expired
get-view others key c now later = ground arith

-- A key that others have set to a live entry between the two locks of Get, under which an expired
-- one was read before, is kept: the entries are as the others left them.
pub get_keeps_fresh :
    (others : Entries → Entries) (key : String) (c : InMemoryCache) (now later : ℕ) (v : String)
    → view (record c { entries = others c.entries }) later key ≡ some v
    → view c now key ≡ none
    → lookup key c.entries ≢ none
    → (get others key c now later).0.entries ≡ others c.entries
unfolding get get_found evict_found is_expired
get_keeps_fresh others key c now later v h gone there = ground arith

-- An entry that is past stays past.
live_later :
    (now later : ℕ) (o : Option CacheEntry) → now ≤ later → live now o ≡ none → live later o ≡ none
live_later now later none le h = refl
live_later now later (some e) le h = ground arith

-- A Get that nobody disturbs changes the view at no later time and at no key.
pub get_neutral :
    (key k : String) (c : InMemoryCache) (now later at : ℕ)
    → later ≤ at
    → view (get (λ e. e) key c now later).0 at k ≡ view c at k
unfolding get get_found evict_found is_expired
get_neutral key k c now later at le = elim (str_eq_cases key k) [
  | inl (_, same) ↦ rw (← same) (ground (arith, lookup-delete_self key c.entries))
  | inr other ↦ ground (arith, lookup-delete_other key k c.entries other)
]

-- The calls of a cache, with the times at which they read the clock.
pub data Call : Type 0 where
  sets : String → String → ℤ → ℕ → Call
  dels : String → Call
  gets : String → ℕ → ℕ → Call
  evicts : ℕ → Call
  closes : Call

abbrev pub apply : Call → InMemoryCache → InMemoryCache
apply (sets key value ttl now) c = set key value ttl now c
apply (dels key) c = del key c
apply (gets key now later) c = (get (λ e. e) key c now later).0
apply (evicts now) c = evict_expired now c
apply closes c = close c

-- The cache after a history of calls, the latest first.
abbrev pub state : List Call → InMemoryCache
state [] = new_in_memory_cache
state (call ∷ before) = apply call (state before)

-- What the history says of a key at a time: the value last set and not deleted since, unless its
-- time is over.
abbrev pub expected : ℕ → String → List Call → Option String
expected at k [] = none
expected at k (sets key value ttl now ∷ before) =
    if str_eq key k
    then (if is_past (expiry ttl now) at then none else some value)
    else expected at k before
expected at k (dels key ∷ before) = if str_eq key k then none else expected at k before
expected at k (gets key now later ∷ before) = expected at k before
expected at k (evicts now ∷ before) = expected at k before
expected at k (closes ∷ before) = expected at k before

-- The calls that evict have read the clock no later than `at`.
abbrev pub Before : ℕ → List Call → Type 0
Before at [] = Unit
Before at (gets key now later ∷ before) = (later ≤ at) × Before at before
Before at (evicts now ∷ before) = (now ≤ at) × Before at before
Before at (sets _ _ _ _ ∷ before) = Before at before
Before at (dels _ ∷ before) = Before at before
Before at (closes ∷ before) = Before at before
