-- ===== src/TenantManager/Eviction/Tests.antt =====
-- The eviction theorem at a concrete input.
use lib_commons.Base.{ℕ, ◌≡◌, refl, List, [], ◌∷◌, some, String}
use lib_commons.Base.Int.{pos}
use lib_commons.TenantManager.Eviction.{
  consider, scan, effective_timeout, find_lru_eviction_candidate,
}
use lib_commons.TenantManager.Eviction.Oldest.{Answer, find_lru_eviction_candidate-Answer}

abbrev accesses : List (String × ℕ)
accesses = ("a", 70) ∷ ("b", 20) ∷ ("c", 40) ∷ []

find_lru_eviction_candidate-Answer_example :
    Answer
      (pos 3)
      (pos 3)
      accesses
      (effective_timeout (pos 50))
      100
      (find_lru_eviction_candidate (pos 3) (pos 3) accesses (pos 50) 100)
find_lru_eviction_candidate-Answer_example =
    find_lru_eviction_candidate-Answer (pos 3) (pos 3) accesses (pos 50) 100
      (refl, (refl, (refl, tt)))

evicts_b : find_lru_eviction_candidate (pos 3) (pos 3) accesses (pos 50) 100 ≡ some "b"
unfolding find_lru_eviction_candidate scan consider effective_timeout
evicts_b = refl
