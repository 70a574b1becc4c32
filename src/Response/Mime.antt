-- ===== src/Response/Mime.antt =====
-- `_getMimeType` of src/ResponseHandler_helper.cpp.
use webserer_core.Base.{ℕ, ◌≡◌, refl, inl, inr, [], ◌∷◌, arith, Bytes, ◌==◌, Option-cases}
use mathlib.Core.Option
use webserer_core.Response.{from_last_dot, get_mime_type}
use webserer_core.Text.{str_tolower, to_lower}
use webserer_core.Text.Trim.{str_tolower_idem}

to_lower-dot : (c : ℕ) → (to_lower c == b'.') ≡ (c == b'.')
unfolding to_lower
to_lower-dot c = ground arith

from_last_dot-str_tolower :
    (s : Bytes) → from_last_dot (str_tolower s) ≡ Option.map str_tolower (from_last_dot s)
unfolding from_last_dot str_tolower
from_last_dot-str_tolower [] = refl
from_last_dot-str_tolower (c ∷ s) = elim (Option-cases (from_last_dot s)) [
  | inl e ↦ rw (from_last_dot-str_tolower s, e, to_lower-dot c) (ground arith)
  | inr (ext, e) ↦ rw (from_last_dot-str_tolower s, e)
]

-- The type of a file does not depend on the case of its name.
pub get_mime_type-str_tolower : (s : Bytes) → get_mime_type (str_tolower s) ≡ get_mime_type s
unfolding get_mime_type
get_mime_type-str_tolower s = elim (Option-cases (from_last_dot s)) [
  | inl e ↦ rw (get_mime_type, from_last_dot-str_tolower s, e)
  | inr (ext, e) ↦ rw (get_mime_type, from_last_dot-str_tolower s, e, str_tolower_idem ext)
]
