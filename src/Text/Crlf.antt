-- ===== src/Text/Crlf.antt =====
-- `find_crlf` of src/HttpParser.cpp against the definition of a first CRLF.
use webserer_core.Base.{
  ℕ, suc, ◌≡◌, refl, false, inl, inr, [], ◌∷◌, ◌++◌, ap, arith, Bytes, length, Option, none, some,
  count, ◌==◌, ◌&&◌, Bool-cases,
}
use webserer_core.Text.{find_crlf}
use mathlib.Core.Option

abbrev pub crlf : Bytes
crlf = b'\r' ∷ b'\n' ∷ []

-- A line with no carriage return is found whole, whatever follows it.
pub find_crlf_line :
    (line rest : Bytes)
    → count b'\r' line ≡ 0
    → find_crlf (line ++ (b'\r' ∷ b'\n' ∷ rest)) ≡ some (length line)
unfolding find_crlf
find_crlf_line [] rest h = refl
find_crlf_line (c ∷ []) rest h = ground arith
find_crlf_line (c ∷ d ∷ line) rest h = ground (arith, find_crlf_line (d ∷ line) rest)

-- No CRLF stands anywhere in a text.
abbrev pub NoCrlf : Bytes → Type 0
NoCrlf [] = Unit {0}
NoCrlf (a ∷ []) = Unit {0}
NoCrlf (a ∷ b ∷ rest) = ((a == b'\r' && b == b'\n') ≡ false) × NoCrlf (b ∷ rest)

-- The first CRLF of `s` stands at `n`: its first byte completes none before it.
pub record FirstCrlf (s : Bytes) (n : ℕ) : Type 0 where
  pub line : Bytes
  pub rest : Bytes
  pub splits : s ≡ line ++ (b'\r' ∷ b'\n' ∷ rest)
  pub position : n ≡ length line
  pub first : NoCrlf (line ++ b'\r' ∷ [])

abbrev pub Finds : Bytes → Option ℕ → Type 0
Finds s none = NoCrlf s
Finds s (some n) = FirstCrlf s n

NoCrlf-cons :
    (a b : ℕ) (rest line after : Bytes)
    → (b ∷ rest) ≡ line ++ (b'\r' ∷ b'\n' ∷ after)
    → (a == b'\r' && b == b'\n') ≡ false
    → NoCrlf (line ++ b'\r' ∷ [])
    → NoCrlf (a ∷ (line ++ b'\r' ∷ []))
NoCrlf-cons a b rest [] after e h f = (ground arith, tt)
NoCrlf-cons a b rest (d ∷ line) after e h f = (ground arith, f)

shift :
    (a b : ℕ) (rest : Bytes) (o : Option ℕ)
    → (a == b'\r' && b == b'\n') ≡ false
    → Finds (b ∷ rest) o
    → Finds (a ∷ b ∷ rest) (Option.map suc o)
shift a b rest none h f = (h, f)
shift a b rest (some n) h f = record {
  line = a ∷ f.line;
  rest = f.rest;
  splits = ap (◌∷◌ a) f.splits;
  position = ap suc f.position;
  first = NoCrlf-cons a b rest f.line f.rest f.splits h f.first;
}

-- `find_crlf` finds the first CRLF of any text, and nothing exactly when there is none.
pub find_crlf-Finds : (s : Bytes) → Finds s (find_crlf s)
unfolding find_crlf
find_crlf-Finds [] = tt
find_crlf-Finds (a ∷ []) = tt
find_crlf-Finds (a ∷ b ∷ rest) = elim (Bool-cases (a == b'\r' && b == b'\n')) [
  | inl e ↦
      rw e (record { line = []; rest = rest; splits = ground arith; position = refl; first = tt })
  | inr e ↦ rw e (shift a b rest (find_crlf (b ∷ rest)) e (find_crlf-Finds (b ∷ rest)))
]
