-- ===== src/Uri.antt =====
-- `pctDecode` and `cleanPath` of src/HttpParser.cpp.
pub mod Decode
pub mod Clean
use webserer_core.Base.{
  ℕ, ◌+◌, ◌-◌, ◌*◌, Bool, true, false, not, ◌&&◌, ◌||◌, [], ◌∷◌, ◌==◌, ltb, if◌then◌else◌, Bytes,
  length,
}
use webserer_core.Text.{is_digit, is_xdigit, to_lower}

-- `hv` and `lv`
unfoldable pub hex_value : ℕ → ℕ
unfolding is_digit to_lower
hex_value h = if is_digit h then h - b'0' else to_lower h - b'a' + 10

abbrev pub escaped : ℕ → ℕ → ℕ
escaped h l = hex_value h * 16 + hex_value l

-- An escape of `/` is left as it is.
unfoldable pub decodes : ℕ → ℕ → ℕ → Bool
unfolding is_xdigit
decodes c h l = c == b'%' && is_xdigit h && is_xdigit l && not (escaped h l == b'/')

unfoldable pub pct_decode : Bytes → Bytes
pct_decode [] = []
pct_decode (a ∷ []) = a ∷ []
pct_decode (a ∷ b ∷ []) = a ∷ b ∷ []
pct_decode (c ∷ h ∷ l ∷ rest) =
    let decoded = escaped h l ∷ pct_decode rest in
    let plain = c ∷ pct_decode (h ∷ l ∷ rest) in if decodes c h l then decoded else plain

-- The loop of `cleanPath`; the flag is `lastWasSlash`.
unfoldable pub squeeze : Bool → Bytes → Bytes
squeeze last_was_slash [] = []
squeeze last_was_slash (c ∷ cs) =
    let rest = squeeze (c == b'/') cs in if c == b'/' && last_was_slash then rest else c ∷ rest

-- Takes a `/` off the end of a text of one byte, and of a longer one.
abbrev drop_slash : Bytes → Bytes
drop_slash [] = []
drop_slash (c ∷ []) = if c == b'/' then [] else c ∷ []
drop_slash (c ∷ d ∷ cs) = c ∷ drop_slash (d ∷ cs)

-- `if (s.size() > 1 && s[s.size() - 1] == '/') s.erase(s.size() - 1)`
abbrev pub trim_slash : Bytes → Bytes
trim_slash [] = []
trim_slash (c ∷ cs) = c ∷ drop_slash cs

unfoldable pub clean_path : Bytes → Bytes
unfolding squeeze
clean_path path = trim_slash (squeeze false path)
