-- ===== src/Handler/Serve/Escape.antt =====
-- A zero byte in a path, and what src/ResponseHandler.cpp opens for it.
use mathlib.Core.List.{append_assoc}
use mathlib.Core.Option
use webserer_core.Base.{
  ◌≡◌, refl, false, [], ◌∷◌, ◌++◌, ap, ◌∙◌, sym, arith, none, some, Bytes, codes, equal, Every,
  ◌==◌,
}
use webserer_core.Config.{Server, match_location}
use webserer_core.Handler.{normalize_path, close_segment}
use webserer_core.Handler.Serve.{resolve_fs_path}
use webserer_core.Handler.Serve.Below.{nonzero, cut_slashes-Every, Every-joins}
use webserer_core.Request.{HttpRequest}
use webserer_core.Target.{c_str, cut_slashes, rooted}

c_str-zero : (s behind : Bytes) → Every nonzero s → c_str (s ++ 0 ∷ behind) ≡ s
unfolding c_str
c_str-zero [] behind h = refl
c_str-zero (c ∷ s) behind h =
    let k : (c == 0) ≡ false = ground (arith, h.0) in rw k (ap (◌∷◌ c) (c_str-zero s behind h.1))

-- The path of a request for `/..%00`.
abbrev pub dots : Bytes
dots = codes "/.." ++ 0 ∷ []

dots_kept : normalize_path dots ≡ some dots
unfolding normalize_path Option.bind close_segment equal
dots_kept = refl

-- `normalizePath` takes two dots with a zero byte behind them for a name and keeps them; for this path the
-- file that the system opens is the parent of the server's root, where no location has a root of its
-- own for the path and the root has no zero byte.
pub resolve_fs_path-dots :
    (cfg : Server) (req : HttpRequest)
    → req.path ≡ dots
    → rooted (match_location cfg req.path) ≡ none
    → Every nonzero cfg.root
    → (normalize_path req.path ≡ some req.path)
      × (c_str (resolve_fs_path req (match_location cfg req.path) cfg)
          ≡ cut_slashes cfg.root ++ codes "/..")
unfolding resolve_fs_path
resolve_fs_path-dots cfg req e r h =
    let plain : Every nonzero (codes "/..") = (refl, (refl, (refl, tt))) in
    let whole =
      Every-joins (cut_slashes cfg.root) (codes "/..") (cut_slashes-Every cfg.root h) plain in
    (
      ap normalize_path e ∙ dots_kept ∙ ap some (sym e),
      rw (resolve_fs_path, r)
          (ap (λ p. c_str (cut_slashes cfg.root ++ p)) e
            ∙ ap c_str (sym (append_assoc (cut_slashes cfg.root) (codes "/..") (0 ∷ [])))
            ∙ c_str-zero (cut_slashes cfg.root ++ codes "/..") [] whole),
    )
