-- ===== src/TenantManager/Cache/Tests.antt =====
-- The cache's theorems at concrete inputs.
use lib_commons.Base.{◌≡◌, refl, List, [], ◌∷◌, some, false}
use lib_commons.Base.Int.{pos, negsuc}
use lib_commons.Base.Dict.{lookup, insert}
use lib_commons.TenantManager.Cache.{Entries, InMemoryCache, get}
use lib_commons.TenantManager.Cache.Ttl.{Call, sets, gets, evicts, get_keeps_fresh}

abbrev history : List Call
history =
    evicts 40 ∷ gets "a" 30 31 ∷ sets "b" "beta" (negsuc 0) 12 ∷ sets "a" "alpha" (pos 15) 10 ∷ []

abbrev stale : InMemoryCache
stale = record { entries = ("a", record { value = "old"; expires_at = some 5 }) ∷ []; done = false }

-- Between the locks another goroutine stores a fresh value.
abbrev refresh : Entries → Entries
refresh = insert "a" (record { value = "new"; expires_at = some 90 })

get_keeps_fresh_example :
    (get refresh "a" stale 10 11).0.entries
    ≡ ("a", record { value = "new"; expires_at = some 90 }) ∷ []
unfolding insert lookup
get_keeps_fresh_example = get_keeps_fresh refresh "a" stale 10 11 "new" refl refl (λ e. cc)
