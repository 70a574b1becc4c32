-- ===== src/Cgi/Paths.antt =====
-- Which paths src/cgi/CgiHelpers.cpp and src/EventLoop/EventLoop_helper_handlers.cpp take for scripts.
use webserer_core.Base.{
  ◌≡◌, refl, Bool, true, false, List, [], ◌∷◌, Bytes, Option, none, some, inl, inr, Bool-cases,
  Option-cases, is_nil,
}
use webserer_core.Cgi.{
  CgiRequestInfo, ends_with, matches_extension, any_extension, resolve_cgi_request,
  path_requires_cgi_body_spool,
}
use webserer_core.Config.{Server, match_location}
use webserer_core.Request.{HttpRequest}

matches_extension-any :
    (path : Bytes) (exts : List (Bytes × Bytes))
    → matches_extension path exts ≡ any_extension path exts
unfolding matches_extension any_extension
matches_extension-any path [] = refl
matches_extension-any path ((ext, program) ∷ exts) = elim (Bool-cases (ends_with path ext)) [
  | inl e ↦ rw e refl
  | inr e ↦ rw e (matches_extension-any path exts)
]

abbrev pub is_some : Option CgiRequestInfo → Bool
is_some none = false
is_some (some info) = true

-- The handler of responses and the event loop agree on which requests are for a script.
pub resolve_cgi_request-path_requires :
    (req : HttpRequest) (cfg : Server)
    → is_some (resolve_cgi_request req cfg) ≡ path_requires_cgi_body_spool req cfg
unfolding resolve_cgi_request path_requires_cgi_body_spool
resolve_cgi_request-path_requires req cfg = elim (Option-cases (match_location cfg req.path)) [
  | inl e ↦ rw (resolve_cgi_request, path_requires_cgi_body_spool, e) refl
  | inr (loc, e) ↦
      rw (resolve_cgi_request, path_requires_cgi_body_spool, e)
        (elim (Bool-cases (is_nil loc.cgi_map)) [
          | inl z ↦ rw z refl
          | inr z ↦ elim (Bool-cases (any_extension req.path loc.cgi_map)) [
            | inl y ↦ rw (z, matches_extension-any req.path loc.cgi_map, y) refl
            | inr y ↦ rw (z, matches_extension-any req.path loc.cgi_map, y) refl
          ]
        ])
]
