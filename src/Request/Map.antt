-- ===== src/Request/Map.antt =====
-- The header map of Headers/HttpRequest.hpp as a finite map.
use webserer_core.Base.{
  suc, ◌≡◌, refl, [], ◌∷◌, some, if◌then◌else◌, Bytes, equal, equal_iff, length, arith,
}
use webserer_core.Request.{HeaderMap, find, assign, contains}

-- A stored value is found under its key, and what other keys have is unchanged.
pub find-assign :
    (k j v : Bytes) (m : HeaderMap)
    → find j (assign k v m) ≡ (if equal k j then some v else find j m)
unfolding find assign
find-assign k j v [] = refl
find-assign k j v ((i, w) ∷ m) =
    ground (arith, equal_iff k j, equal_iff i k, equal_iff i j, find-assign k j v m)

-- A map grows by one entry exactly when the key is new.
pub length-assign :
    (k v : Bytes) (m : HeaderMap)
    → length (assign k v m) ≡ (if contains k m then length m else suc (length m))
unfolding find assign
length-assign k v [] = refl
length-assign k v ((i, w) ∷ m) = ground (arith, length-assign k v m)
