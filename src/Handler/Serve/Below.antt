-- ===== src/Handler/Serve/Below.antt =====
-- `_resolveFsPath` of src/ResponseHandler.cpp: the file of a request lies below a root.
use mathlib.Core.Path.{subst}
use webserer_core.Base.{
  ℕ, ◌≡◌, refl, true, not, ◌&&◌, ◌||◌, List, [], ◌∷◌, ◌++◌, ap, ◌∙◌, sym, arith, Option, none, some,
  Bytes, is_nil, equal, length, ◌==◌, Bool-cases, Option-cases, inl, inr, ◌⊎◌, take, drop,
  take-append-drop, equal_iff, ltb, Every, Bool, false,
}
use webserer_core.Config.{Location, Server, match_location, starts_with}
use webserer_core.Config.Match.{All}
use webserer_core.Handler.{normalize_path, normal_segments, finished, joined, ends_slash}
use webserer_core.Handler.Normal.{Name, normalize_path-Name}
use webserer_core.Handler.Serve.{resolve_fs_path}
use webserer_core.Request.{HttpRequest}
use webserer_core.Target.{
  resolve, rooted, below_location, cut_slashes, from_last_slash, find_byte, starts_slash, c_str,
}
use webserer_core.Uri.Clean.{segments}

-- No byte that ends a C string.
abbrev pub nonzero : ℕ → Bool
nonzero c = not (c == 0)

-- A path of names only: followed from a directory it stays below it.
pub record Descends (path : Bytes) : Type 0 where
  pub from_slash : starts_slash path ≡ true
  pub names : All Name (segments [] path)
  pub no_zero : Every nonzero path

segments-suffix :
    (seg front rest : Bytes)
    → All Name (segments seg (front ++ b'/' ∷ rest))
    → All Name (segments [] (b'/' ∷ rest))
unfolding segments
segments-suffix [] [] rest h = h
segments-suffix (x ∷ seg) [] rest h = h.1
segments-suffix seg (c ∷ front) rest h = elim (Bool-cases (c == b'/')) [
  | inl e ↦ elim (Bool-cases (is_nil seg)) [
    | inl n ↦ segments-suffix [] front rest (rw (e, n) at h)
    | inr n ↦ segments-suffix [] front rest ((rw (e, n) at h).1)
  ]
  | inr e ↦ segments-suffix (seg ++ c ∷ []) front rest (rw e at h)
]

Every-suffix : (front rest : Bytes) → Every nonzero (front ++ rest) → Every nonzero rest
Every-suffix [] rest h = h
Every-suffix (c ∷ front) rest h = Every-suffix front rest h.1

pub c_str-Every : (s : Bytes) → Every nonzero s → c_str s ≡ s
unfolding c_str
c_str-Every [] h = refl
c_str-Every (c ∷ s) h =
    let k : (c == 0) ≡ false = ground (arith, h.0) in rw k (ap (◌∷◌ c) (c_str-Every s h.1))

pub cut_slashes-Every : (root : Bytes) → Every nonzero root → Every nonzero (cut_slashes root)
unfolding cut_slashes
cut_slashes-Every [] h = tt
cut_slashes-Every (c ∷ root) h = elim (Bool-cases (c == b'/' && is_nil (cut_slashes root))) [
  | inl e ↦ rw e tt
  | inr e ↦ rw e (h.0, cut_slashes-Every root h.1)
]

pub Every-joins :
    (front path : Bytes) → Every nonzero front → Every nonzero path → Every nonzero (front ++ path)
Every-joins [] path h k = k
Every-joins (c ∷ front) path h k = (h.0, Every-joins front path h.1 k)

suffix-Descends :
    (front path : Bytes) → Descends (front ++ path) → starts_slash path ≡ true → Descends path
unfolding starts_slash
suffix-Descends front [] h s = absurd (cc)
suffix-Descends front (c ∷ path) h s =
    let e : c ≡ b'/' = ground arith in
    record {
      from_slash = s;
      names = rw e (segments-suffix [] front path (rw e at h.names));
      no_zero = Every-suffix front (c ∷ path) h.no_zero;
    }

from_last_slash-suffix : (s : Bytes) → (front : Bytes) × (s ≡ front ++ from_last_slash s)
unfolding from_last_slash
from_last_slash-suffix [] = ([], refl)
from_last_slash-suffix (x ∷ xs) = elim (Option-cases (find_byte b'/' xs)) [
  | inl e ↦ rw (from_last_slash, e) ([], refl)
  | inr (n, e) ↦
      let (front, r) = from_last_slash-suffix xs in
      rw (from_last_slash, e) (x ∷ front, ap (◌∷◌ x) r)
]

first :
    (x : ℕ) (xs : Bytes) {n : ℕ}
    → find_byte b'/' xs ≡ none
    → find_byte b'/' (x ∷ xs) ≡ some n
    → starts_slash (x ∷ xs) ≡ true
unfolding find_byte starts_slash
first x xs k e = elim (Bool-cases (x == b'/')) [ inl h ↦ h | inr h ↦ absurd (ground arith) ]

starts-found : (s : Bytes) → starts_slash s ≡ true → find_byte b'/' s ≡ none → ⊥
unfolding starts_slash find_byte
starts-found [] h e = cc
starts-found (c ∷ s) h e = ground arith

finished-slash : (path : Bytes) (segs : List Bytes) → starts_slash (finished path segs) ≡ true
unfolding finished starts_slash
finished-slash path segs =
    elim (Bool-cases
      (ltb 1 (length path) && ends_slash path && not (ends_slash (b'/' ∷ joined segs [])))) [
        | inl e ↦ rw e refl
        | inr e ↦ rw e refl
      ]

normalize_path-slash :
    (path : Bytes) {p : Bytes} → normalize_path path ≡ some p → starts_slash p ≡ true
unfolding normalize_path
normalize_path-slash path e = elim (Option-cases (normal_segments [] [] path)) [
  | inl k ↦ absurd (let r = rw k at e in cc)
  | inr (segs, k) ↦
      let r = rw k at e in subst (λ p. starts_slash p ≡ true) (cc) (finished-slash path segs)
]

from_last_slash-found :
    (s : Bytes) {n : ℕ} → find_byte b'/' s ≡ some n → starts_slash (from_last_slash s) ≡ true
unfolding from_last_slash
from_last_slash-found [] e = absurd (unfold find_byte in cc)
from_last_slash-found (x ∷ xs) e = elim (Option-cases (find_byte b'/' xs)) [
  | inl k ↦ rw (from_last_slash, k) (first x xs k e)
  | inr (n, k) ↦ let h = from_last_slash-found xs k in rw (from_last_slash, k) h
]

below_location-Descends : (path uri : Bytes) → Descends uri → Descends (below_location path uri)
unfolding below_location
below_location-Descends path uri h =
    let stripped = drop (length path) uri in
    elim (Bool-cases (not (starts_with uri path) || is_nil stripped)) [
      | inl e ↦ rw e h
      | inr e ↦ elim (Bool-cases (starts_slash stripped)) [
        | inl k ↦
            rw (e, k)
              (suffix-Descends (take (length path) uri) stripped
                (subst Descends (sym (take-append-drop (length path) uri)) h) k)
        | inr k ↦
            rw (e, k)
              (subst Descends
                (sym (take-append-drop (length path) uri)
                  ∙ ap (λ p. p ++ stripped)
                      ((equal_iff (take (length path) uri) path).0 (ground arith)))
                h)
      ]
    ]

from_last_slash-Descends : (path : Bytes) → Descends path → Descends (from_last_slash path)
from_last_slash-Descends path h = elim (Option-cases (find_byte b'/' path)) [
  | inr (n, e) ↦
      let (front, r) = from_last_slash-suffix path in
      suffix-Descends front (from_last_slash path) (subst Descends r h)
        (from_last_slash-found path e)
  | inl e ↦ absurd (starts-found path h.from_slash e)
]

-- The directory that the requests of a location are served from.
abbrev pub RootOf : Server → Option Location → Bytes → Type 0
RootOf cfg none root = root ≡ cfg.root
RootOf cfg (some loc) root = (root ≡ cfg.root) ⊎ (root ≡ loc.root)

-- The file `full` is a root of the server or the location, without slashes at its end, and behind it
-- a path that does not lead out of it.
pub record Below (cfg : Server) (loc : Option Location) (full : Bytes) : Type 0 where
  pub root : Bytes
  pub root_of : RootOf cfg loc root
  pub path : Bytes
  pub joins : full ≡ cut_slashes root ++ path
  pub descends : Descends path

resolve-Below :
    (cfg : Server) (loc : Option Location) (uri : Bytes)
    → Descends uri
    → Below cfg loc (resolve (rooted loc) cfg.root uri)
unfolding resolve rooted
resolve-Below cfg none uri h = record {
  root = cfg.root;
  root_of = refl;
  path = uri;
  joins = refl;
  descends = h;
}
resolve-Below cfg (some loc) uri h =
    let d = below_location-Descends loc.path uri h in
    elim (Bool-cases (is_nil loc.root)) [
      | inl e ↦
          rw e
            (record { root = cfg.root; root_of = inl refl; path = uri; joins = refl; descends = h })
      | inr e ↦ elim (Bool-cases (equal (below_location loc.path uri) loc.path)) [
        | inl k ↦
            rw (e, k)
              (record {
                root = loc.root;
                root_of = inr refl;
                path = from_last_slash (below_location loc.path uri);
                joins = refl;
                descends = from_last_slash-Descends (below_location loc.path uri) d;
              })
        | inr k ↦
            rw (e, k)
              (record {
                root = loc.root;
                root_of = inr refl;
                path = below_location loc.path uri;
                joins = refl;
                descends = d;
              })
      ]
    ]

-- The roots of the server and of the location have no zero byte.
abbrev pub PlainRoots : Server → Option Location → Type 0
PlainRoots cfg none = Every nonzero cfg.root
PlainRoots cfg (some loc) = Every nonzero cfg.root × Every nonzero loc.root

root-Every :
    (cfg : Server) (loc : Option Location) (root : Bytes)
    → RootOf cfg loc root
    → PlainRoots cfg loc
    → Every nonzero root
root-Every cfg none root e h = subst (Every nonzero) (sym e) h
root-Every cfg (some loc) root (inl e) h = subst (Every nonzero) (sym e) h.0
root-Every cfg (some loc) root (inr e) h = subst (Every nonzero) (sym e) h.1

opened-Below :
    (cfg : Server) (loc : Option Location) (full : Bytes)
    → Below cfg loc full
    → PlainRoots cfg loc
    → Below cfg loc (c_str full)
opened-Below cfg loc full b h =
    let plain =
      Every-joins (cut_slashes b.root) b.path
        (cut_slashes-Every b.root (root-Every cfg loc b.root b.root_of h)) (b.descends).no_zero in
    subst (Below cfg loc) (sym (c_str-Every full (subst (Every nonzero) (sym b.joins) plain))) b

-- Where a normalised path has no zero byte, and the roots have none either, the file that the system
-- opens for it lies below the root of the location or of the server: behind the root, its path has
-- no segment that is one dot or two.
pub resolve_fs_path-Below :
    (cfg : Server) (req : HttpRequest) (raw : Bytes)
    → normalize_path raw ≡ some req.path
    → Every nonzero req.path
    → PlainRoots cfg (match_location cfg req.path)
    → Below cfg
        (match_location cfg req.path)
        (c_str (resolve_fs_path req (match_location cfg req.path) cfg))
unfolding resolve_fs_path
resolve_fs_path-Below cfg req raw e plain roots =
    opened-Below cfg (match_location cfg req.path) _
      (resolve-Below cfg (match_location cfg req.path) req.path (record {
        from_slash = normalize_path-slash raw e;
        names = normalize_path-Name raw e;
        no_zero = plain;
      }))
      roots
