-- ===== src/Settings/Allowed.antt =====
-- What the directives of conf/location_parser.cpp lets through.
use webserer_core.Base.{
  ℕ, ◌≤◌, ◌≡◌, true, List, [], ◌∷◌, Option, none, some, Bytes, codes, is_nil, equal, Ensures,
  Ensures-bind, Ensures-if, Ensures-thrown, Ensures-returned, char_at,
}
use webserer_core.Config.{Location}
use webserer_core.Config.Match.{All, All-++}
use webserer_core.Settings.Accepted.{
  Anything, number_within-Ensures, one_value-Ensures, error_page-Ensures, body_size-Ensures,
}
use webserer_core.Settings.{
  one_value, number_within, error_page, body_size, is_method, add_methods, on_off, with_cgi_map,
  redirect, set_location, member, max_body_limit,
}

-- A code that is set is a redirection.
abbrev pub CodeIn : Option ℕ → Type 0
CodeIn none = Unit {0}
CodeIn (some code) = (300 ≤ code) × (code ≤ 399)

-- The limits on what a location block has set.
pub record Holds (path : Bytes) (methods : List Bytes) (code : Option ℕ) (limit : ℕ) : Type 0 where
  pub path_from_root : char_at path 0 ≡ b'/'
  pub methods_known : All (λ m. is_method m ≡ true) methods
  pub code_in : CodeIn code
  pub limit_in : limit ≤ max_body_limit

-- A location block while it is read.
abbrev pub LocationPart : Location → Type 0
LocationPart loc = Holds loc.path loc.allowed_methods loc.return_code loc.client_max_body_size

add_methods-Ensures :
    (seen values methods : List Bytes)
    → All (λ m. is_method m ≡ true) methods
    → Ensures (All (λ m. is_method m ≡ true)) (add_methods seen values methods)
unfolding add_methods
add_methods-Ensures seen [] methods h = Ensures-returned methods h
add_methods-Ensures seen (value ∷ values) methods h =
    Ensures-if (is_method value)
      (λ e.
        Ensures-if (member value seen) (λ k. Ensures-thrown)
          (λ k. add_methods-Ensures (value ∷ seen) values _ (All-++ _ methods _ h (e, tt))))
      (λ e. Ensures-thrown)

on_off-Ensures : (value : Bytes) → Ensures Anything (on_off value)
unfolding on_off
on_off-Ensures value =
    Ensures-if (equal value (codes "on")) (λ e. Ensures-returned _ tt)
      (λ e.
        Ensures-if (equal value (codes "off")) (λ e. Ensures-returned _ tt) (λ e. Ensures-thrown))

redirect-Ensures :
    (values : List Bytes) (loc : Location)
    → LocationPart loc
    → Ensures LocationPart (redirect values loc)
unfolding redirect
redirect-Ensures [] loc h = Ensures-thrown
redirect-Ensures (code ∷ []) loc h = Ensures-thrown
redirect-Ensures (code ∷ url ∷ []) loc h =
    Ensures-bind (number_within 300 399 code) (number_within-Ensures 300 399 code) (λ n k.
      Ensures-returned _ (record {
        path_from_root = h.path_from_root;
        methods_known = h.methods_known;
        code_in = k;
        limit_in = h.limit_in;
      }))
redirect-Ensures (code ∷ url ∷ more ∷ rest) loc h = Ensures-thrown

module _ (size_of : Bytes → Option ℕ) where
  pub set_location-Ensures :
      (directive : Bytes) (values : List Bytes) (loc : Location)
      → LocationPart loc
      → Ensures LocationPart (set_location size_of directive values loc)
  unfolding set_location with_cgi_map
  set_location-Ensures directive values loc h =
      Ensures-if (is_nil values) (λ e. Ensures-thrown)
        (λ e.
          Ensures-if (equal directive (codes "root"))
            (λ e.
              Ensures-bind (one_value values) (one_value-Ensures values)
                (λ value k. Ensures-returned _ h))
            (λ e.
              Ensures-if (equal directive (codes "index")) (λ e. Ensures-returned _ h)
                (λ e.
                  Ensures-if (equal directive (codes "allowed_methods"))
                    (λ e.
                      Ensures-bind (add_methods [] values loc.allowed_methods)
                        (add_methods-Ensures [] values loc.allowed_methods h.methods_known)
                        (λ methods k. Ensures-returned _ (record {
                          path_from_root = h.path_from_root;
                          methods_known = k;
                          code_in = h.code_in;
                          limit_in = h.limit_in;
                        })))
                    (λ e.
                      Ensures-if (equal directive (codes "autoindex"))
                        (λ e. Ensures-bind (one_value values) (one_value-Ensures values) (λ value k.
                          Ensures-bind (on_off value) (on_off-Ensures value)
                            (λ on n. Ensures-returned _ h)))
                        (λ e.
                          Ensures-if (equal directive (codes "cgi_path"))
                            (λ e. Ensures-returned _ h)
                            (λ e.
                              Ensures-if (equal directive (codes "cgi_ext"))
                                (λ e. Ensures-returned _ h)
                                (λ e.
                                  Ensures-if (equal directive (codes "upload_path"))
                                    (λ e.
                                      Ensures-bind (one_value values) (one_value-Ensures values)
                                        (λ value k. Ensures-returned _ h))
                                    (λ e.
                                      Ensures-if (equal directive (codes "client_max_body_size"))
                                        (λ e.
                                          Ensures-bind (body_size size_of values)
                                            (body_size-Ensures size_of values)
                                            (λ size k. Ensures-returned _ (record {
                                              path_from_root = h.path_from_root;
                                              methods_known = h.methods_known;
                                              code_in = h.code_in;
                                              limit_in = k;
                                            })))
                                        (λ e.
                                          Ensures-if (equal directive (codes "error_page"))
                                            (λ e.
                                              Ensures-bind (error_page values loc.error_page)
                                                (error_page-Ensures values loc.error_page)
                                                (λ pages k. Ensures-returned _ h))
                                            (λ e.
                                              Ensures-if (equal directive (codes "return"))
                                                (λ e. redirect-Ensures values loc h)
                                                (λ e. Ensures-thrown)))))))))))
