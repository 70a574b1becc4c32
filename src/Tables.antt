-- ===== src/Tables.antt =====
-- `std::map<int, T>`: ascending keys, each of which stands once.
pub mod Laws
use webserer_core.Base.{ℕ, List, [], ◌∷◌, Option, none, some, ltb, ◌==◌, if◌then◌else◌}

abbrev pub Table : Type 0 → Type 0
Table A = List (ℕ × A)

unfoldable pub lookup : {A : Type 0} → ℕ → Table A → Option A
lookup fd [] = none
lookup fd ((key, v) ∷ m) = if key == fd then some v else lookup fd m

-- `m[fd] = v`
unfoldable pub insert : {A : Type 0} → ℕ → A → Table A → Table A
insert fd v [] = (fd, v) ∷ []
insert fd v ((key, old) ∷ m) =
    let further = insert fd v m in
    if ltb fd key
    then (fd, v) ∷ (key, old) ∷ m
    else if key == fd
    then (fd, v) ∷ m
    else (key, old) ∷ further

unfoldable pub erase : {A : Type 0} → ℕ → Table A → Table A
erase fd [] = []
erase fd ((key, v) ∷ m) = let further = erase fd m in if key == fd then m else (key, v) ∷ further
