-- ===== src/Target/Resolve.antt =====
-- Request targets of src/HttpParser.cpp in absolute form.
use webserer_core.Base.{
  ℕ, suc, ◌+◌, ◌≡◌, arith, [], ◌∷◌, ◌++◌, Bytes, codes, count, length, drop, some, equal,
  drop-length,
}
use webserer_core.Target.{find_byte, strip_authority}

find_byte_first :
    (c : ℕ) (xs ys : Bytes) → count c xs ≡ 0 → find_byte c (xs ++ (c ∷ ys)) ≡ some (length xs)
unfolding find_byte
find_byte_first c [] ys h = ground arith
find_byte_first c (x ∷ xs) ys h = ground (arith, find_byte_first c xs ys)

drop_seven : (host path : Bytes) → drop (7 + length host) (codes "http://" ++ (host ++ path)) ≡ path
drop_seven host path =
    let e : 7 + length host ≡ suc (suc (suc (suc (suc (suc (suc (length host))))))) = omega arith in
    rw e (drop-length host path)

-- A target `http://host/path`, with no slash in the host, is cut to `/path`.
pub strip_authority_http :
    (host path : Bytes)
    → count b'/' host ≡ 0
    → strip_authority (codes "http://" ++ (host ++ (b'/' ∷ path))) ≡ b'/' ∷ path
unfolding strip_authority equal
strip_authority_http host path h =
    rw (find_byte_first b'/' host path h) (drop_seven host (b'/' ∷ path))
