-- ===== src/Handler.antt =====
-- `normalizePath`, `sanitizeFilename` and the search for the uploaded file of
-- src/ResponseHandler.cpp.
-- A pointer into the body is the text from it on.
pub mod Normal
pub mod Upload
pub mod Replies
pub mod Serve
use webserer_core.Base.{
  ℕ, ◌+◌, ◌-◌, Bool, true, false, not, ◌&&◌, ◌||◌, List, [], ◌∷◌, ◌++◌, Option, none, some, ◌==◌,
  ltb, leb, if◌then◌else◌, Bytes, codes, take, drop, length, is_nil, equal, char_at,
}
use mathlib.Core.Option
use webserer_core.Config.{starts_with}
use webserer_core.Request.{HttpRequest, header}
use webserer_core.Target.{find_byte, find_text}

-- What happens to the segments read so far, the last one first, when `seg` ends; `none` where the
-- path leaves the root.
unfoldable pub close_segment : List Bytes → Bytes → Option (List Bytes)
close_segment segs seg =
    if is_nil seg
    then some segs
    else if equal seg (codes "..")
    then elim segs [ [] ↦ none | ◌∷◌ last before ↦ some before ]
    else if equal seg (codes ".")
    then some segs
    else some (seg ∷ segs)

-- The loop of `normalizePath` and the last segment behind it.
unfoldable pub normal_segments : List Bytes → Bytes → Bytes → Option (List Bytes)
normal_segments segs seg [] = close_segment segs seg
normal_segments segs seg (c ∷ cs) =
    let further = normal_segments segs (seg ++ c ∷ []) cs in
    if c == b'/'
    then Option.bind (close_segment segs seg) (λ next. normal_segments next [] cs)
    else further

-- The segments, the last one first, with slashes between them in front of `behind`.
unfoldable pub joined : List Bytes → Bytes → Bytes
joined [] behind = behind
joined (seg ∷ []) behind = seg ++ behind
joined (seg ∷ last ∷ segs) behind = joined (last ∷ segs) (b'/' ∷ seg ++ behind)

unfoldable pub ends_slash : Bytes → Bool
ends_slash [] = false
ends_slash (c ∷ []) = c == b'/'
ends_slash (c ∷ d ∷ cs) = ends_slash (d ∷ cs)

-- The result of `normalizePath` for the segments that its loop leaves.
unfoldable pub finished : Bytes → List Bytes → Bytes
unfolding joined ends_slash
finished path segs =
    let result = b'/' ∷ joined segs [] in
    if ltb 1 (length path) && ends_slash path && not (ends_slash result)
    then result ++ b'/' ∷ []
    else result

-- `none` is the empty text.
unfoldable pub normalize_path : Bytes → Option Bytes
unfolding normal_segments finished
normalize_path path = Option.map (finished path) (normal_segments [] [] path)

-- `s.substr(s.find_last_of("/\\") + 1)`, and `s` where neither is in it
unfoldable pub behind_slashes : Bytes → Bytes
behind_slashes [] = []
behind_slashes (c ∷ cs) =
    let later = behind_slashes cs in
    if length later == length cs then if c == b'/' || c == 92 then cs else c ∷ cs else later

unfoldable pub sanitize_filename : Bytes → Bytes
unfolding behind_slashes
sanitize_filename raw =
    let name = behind_slashes raw in
    if is_nil name || equal name (codes ".") || equal name (codes "..") then [] else name

-- `findSubstr`: the text from the needle on, `none` for `end`.
unfoldable pub find_substr : Bytes → Bytes → Option Bytes
find_substr needle [] = if is_nil needle then some [] else none
find_substr needle (c ∷ cs) =
    let further = find_substr needle cs in
    if starts_with (c ∷ cs) needle then some (c ∷ cs) else further

unfoldable pub skip_blanks : Bytes → Bytes
skip_blanks [] = []
skip_blanks (c ∷ cs) = let rest = skip_blanks cs in if c == b' ' || c == 9 then rest else c ∷ cs

unfoldable pub cut_blanks : Bytes → Bytes
cut_blanks [] = []
cut_blanks (c ∷ cs) =
    let rest = cut_blanks cs in
    if is_nil rest && (c == b' ' || c == 9 || c == 13) then [] else c ∷ rest

-- Where nothing but blanks and carriage returns is there, the length wraps: a text that begins with
-- a blank loses its leading blanks only.
unfoldable pub trim_token : Bytes → Bytes
unfolding skip_blanks cut_blanks
trim_token s =
    let rest = skip_blanks s in
    let cut = cut_blanks rest in if is_nil cut && not (length rest == length s) then rest else cut

-- What stands in front of the first `c`, all of the text where there is none.
abbrev pub up_to : ℕ → Bytes → Bytes
up_to c s = elim (find_byte c s) [ none ↦ s | some n ↦ take n s ]

unfoldable pub unquote : Bytes → Bytes
unquote s =
    if leb 2 (length s) && char_at s 0 == 34 && char_at s (length s - 1) == 34
    then take (length s - 2) (drop 1 s)
    else s

-- `extractBoundary`; `none` where it returns false.
unfoldable pub extract_boundary : HttpRequest → Option Bytes
unfolding unquote trim_token
extract_boundary req =
    let ct = header (codes "content-type") req in
    elim (find_text (codes "multipart/form-data") ct) [
      | none ↦ none
      | some at ↦ elim (find_text (codes "boundary=") ct) [
        | none ↦ none
        | some pos ↦
            let boundary = unquote (trim_token (up_to b';' (drop (pos + 9) ct))) in
            if is_nil boundary then none else some boundary
      ]
    ]

pub record MultipartFile : Type 0 where
  pub filename : Bytes
  pub contents : Bytes

abbrev crlf : Bytes
crlf = 13 ∷ 10 ∷ []

-- The `filename` in the headers of a part, empty where there is none.
unfoldable pub filename_in : Bytes → Bytes
filename_in headers = elim (find_text (codes "filename=" ++ 34 ∷ []) headers) [
  | none ↦ []
  | some fn_pos ↦
      let behind = drop (fn_pos + 10) headers in
      elim (find_byte 34 behind) [ none ↦ [] | some n ↦ take n behind ]
]

-- The line end in front of the next delimiter is no part of the file.
unfoldable pub cut_crlf : Bytes → Bytes
cut_crlf [] = []
cut_crlf (c ∷ []) = c ∷ []
cut_crlf (c ∷ d ∷ []) = if c == 13 && d == 10 then [] else c ∷ d ∷ []
cut_crlf (c ∷ d ∷ e ∷ cs) = c ∷ cut_crlf (d ∷ e ∷ cs)

-- `parseMultipartFirstFile`; its `content_type` is never read. `part` is the text behind the first
-- delimiter.
unfoldable pub part_file : Bytes → Bytes → Option MultipartFile
unfolding find_substr filename_in cut_crlf
part_file delim part =
    let inside = if starts_with part crlf then drop 2 part else part in
    if starts_with part (codes "--") then none else elim (find_substr (crlf ++ crlf) inside) [
      | none ↦ none
      | some hdr_end ↦
          let data_start = drop 4 hdr_end in
          elim (find_substr delim data_start) [
            | none ↦ none
            | some next_delim ↦ some (record {
              filename = filename_in (take (length inside - length hdr_end) inside);
              contents = cut_crlf (take (length data_start - length next_delim) data_start);
            })
          ]
    ]

unfoldable pub parse_multipart_first_file : Bytes → Bytes → Option MultipartFile
unfolding part_file
parse_multipart_first_file body boundary =
    let delim = codes "--" ++ boundary in
    elim (find_substr delim body) [
      | none ↦ none
      | some part ↦ part_file delim (drop (length delim) part)
    ]
