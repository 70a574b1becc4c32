-- ===== src/Examples/Handling.antt =====
-- Runs on the choice of a response.
use webserer_core.Base.{◌≡◌, refl, [], ◌∷◌, some, codes, equal}
use mathlib.Core.Option
use webserer_core.Config.{match_location}
use webserer_core.Examples.Data.{server, uploads, file_system, asking}
use webserer_core.Handler.{normalize_path, sanitize_filename}
use webserer_core.Handler.Normal.{resolved, rev_onto, segments-normalize_path}
use webserer_core.Handler.Serve.{removed, handle, resolve_fs_path}
use webserer_core.Handler.Serve.Below.{Below, resolve_fs_path-Below}
use webserer_core.Handler.Serve.Escape.{dots, resolve_fs_path-dots}
use webserer_core.Target.{c_str}
use webserer_core.Uri.Clean.{segments}

segments-normalize_path_example :
    Option.map (segments []) (normalize_path (codes "/a/./b/../c"))
    ≡ Option.map (λ segs. rev_onto segs []) (resolved [] (segments [] (codes "/a/./b/../c")))
segments-normalize_path_example = segments-normalize_path (codes "/a/./b/../c")

resolve_fs_path-Below_example : Below server (match_location server (codes "/img/a")) (
    c_str (
      resolve_fs_path
        (asking (codes "GET") (codes "/img/a"))
        (match_location server (codes "/img/a"))
        server))
unfolding normalize_path Option.bind webserer_core.Handler.close_segment equal match_location
    webserer_core.Config.covers
resolve_fs_path-Below_example =
    resolve_fs_path-Below server (asking (codes "GET") (codes "/img/a")) (codes "/img/x/../a") refl
      (refl, (refl, (refl, (refl, (refl, (refl, tt))))))
      ((refl, (refl, (refl, (refl, tt)))), (refl, (refl, (refl, (refl, tt)))))

-- The root of the server is /srv.
resolve_fs_path-dots_example :
    (normalize_path dots ≡ some dots)
    × (c_str (resolve_fs_path (asking (codes "GET") dots) (match_location server dots) server)
        ≡ codes "/srv/..")
unfolding match_location webserer_core.Config.covers webserer_core.Target.cut_slashes
    webserer_core.Target.rooted equal
resolve_fs_path-dots_example =
    resolve_fs_path-dots server (asking (codes "GET") dots) refl refl
      (refl, (refl, (refl, (refl, tt))))

removed_one :
    (handle file_system uploads (asking (codes "DELETE") (codes "/up/a")) 0).changes
    ≡ removed (codes "/srv/a") ∷ []
unfolding handle Option.bind webserer_core.Handler.close_segment equal match_location
    webserer_core.Config.covers webserer_core.Response.method_allowed webserer_core.Target.c_str
removed_one = refl
