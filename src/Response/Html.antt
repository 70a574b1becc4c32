-- ===== src/Response/Html.antt =====
-- `htmlEscape` of src/ResponseHandler_helper.cpp.
use webserer_core.Base.{
  ℕ, zero, suc, ◌≡◌, refl, Bool, not, ◌||◌, [], ◌∷◌, ◌++◌, ap, ◌∙◌, arith, Bytes, codes, take,
  equal, Every, ◌==◌, if◌then◌else◌,
}
use webserer_core.Response.{escape_byte, html_escape}

-- Bytes that cannot open or close markup or an attribute.
abbrev pub harmless : ℕ → Bool
harmless c = not (c == b'<' || c == b'>' || c == 34 || c == 39)

Every-append :
    (test : ℕ → Bool) (xs ys : Bytes) → Every test xs → Every test ys → Every test (xs ++ ys)
Every-append test [] ys h k = k
Every-append test (x ∷ xs) ys h k = (h.0, Every-append test xs ys h.1 k)

escape_byte-harmless : (c : ℕ) → Every harmless (escape_byte c)
unfolding escape_byte
escape_byte-harmless c = ground arith

-- Escaped text has no angle bracket and no quote in it.
pub html_escape-harmless : (s : Bytes) → Every harmless (html_escape s)
unfolding html_escape
html_escape-harmless [] = tt
html_escape-harmless (c ∷ cs) =
    Every-append harmless (escape_byte c) (html_escape cs) (escape_byte-harmless c)
      (html_escape-harmless cs)

-- What an entity stands for, and how many bytes it has behind its `&`.
pub entity : Bytes → ℕ × ℕ
entity s =
    if equal (take 4 s) (codes "amp;")
    then (b'&', 4)
    else if equal (take 3 s) (codes "lt;")
    then (b'<', 3)
    else if equal (take 3 s) (codes "gt;")
    then (b'>', 3)
    else if equal (take 5 s) (codes "quot;")
    then (34, 5)
    else if equal (take 4 s) (codes "#39;")
    then (39, 4)
    else (b'&', 0)

-- A reader of escaped text that passes over `skip` bytes first.
pub html_unescape : ℕ → Bytes → Bytes
unfolding entity
html_unescape skip [] = []
html_unescape (suc skip) (c ∷ cs) = html_unescape skip cs
html_unescape zero (c ∷ cs) =
    let plain = html_unescape zero cs in
    let (d, n) = entity cs in
    let rest = html_unescape n cs in if c == b'&' then d ∷ rest else c ∷ plain

html_unescape-escape_byte :
    (c : ℕ) (s : Bytes) → html_unescape 0 (escape_byte c ++ s) ≡ c ∷ html_unescape 0 s
unfolding html_unescape escape_byte entity equal
html_unescape-escape_byte c s = ground arith

read_again : (s : Bytes) → html_unescape 0 (html_escape s) ≡ s
unfolding html_escape
read_again [] = unfold html_unescape in refl
read_again (c ∷ cs) = html_unescape-escape_byte c (html_escape cs) ∙ ap (◌∷◌ c) (read_again cs)

-- Whatever the text is, its escaped form has no angle bracket and no quote in it, and a reader that
-- replaces the entities gets the text back.
pub html_unescape-html_escape :
    (s : Bytes) → Every harmless (html_escape s) × (html_unescape 0 (html_escape s) ≡ s)
html_unescape-html_escape s = (html_escape-harmless s, read_again s)
