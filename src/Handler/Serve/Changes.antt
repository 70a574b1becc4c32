-- ===== src/Handler/Serve/Changes.antt =====
-- Which files `ResponseHandler::handle` of src/ResponseHandler.cpp touches.
use webserer_core.Base.{◌≡◌, true, false, ◌++◌, some, Bytes, codes, is_nil, equal, Every}
use webserer_core.Buffer
use webserer_core.Config.{Location, Server, match_location}
use webserer_core.Config.Match.{All}
use webserer_core.Handler.Serve.{Change, removed, stored, Reply, with_slash, resolve_fs_path}
use webserer_core.Handler.Upload.{Flat}
use webserer_core.Request.{HttpRequest}
use webserer_core.Handler.Serve.Below.{nonzero}
use webserer_core.Target.{c_str}

-- The name of a file in a directory: with no slash and no backslash, and neither one dot nor two.
pub record FileName (name : Bytes) : Type 0 where
  pub some_byte : is_nil name ≡ false
  pub flat : Flat name
  pub no_dot : equal name (codes ".") ≡ false
  pub no_dots : equal name (codes "..") ≡ false

-- A location of the server that takes uploads, and a name in its directory; the path that the system
-- gets ends at the first zero byte, and is all of it where there is none.
pub record UploadPath (cfg : Server) (path : Bytes) : Type 0 where
  pub at : Bytes
  pub loc : Location
  pub matched : match_location cfg at ≡ some loc
  pub has_upload : is_nil loc.upload ≡ false
  pub name : Bytes
  pub name_is : FileName name
  pub joins : path ≡ c_str (with_slash loc.upload ++ name)
  pub whole : Every nonzero (with_slash loc.upload ++ name) → path ≡ with_slash loc.upload ++ name

-- What a request may do to a file: DELETE removes the file that its path stands for, and POST stores
-- a file in the upload directory of a location.
pub Permitted : Server → HttpRequest → Change → Type 0
Permitted cfg req (removed path) =
    (equal req.method (codes "DELETE") ≡ true)
    × (path ≡ c_str (resolve_fs_path req (match_location cfg req.path) cfg))
Permitted cfg req (stored path text) =
    (equal req.method (codes "POST") ≡ true) × UploadPath cfg path

-- What `sanitizeFilename` makes sure of.
abbrev Safe : Bytes → Type 0
Safe name = Flat name × (equal name (codes ".") ≡ false) × (equal name (codes "..") ≡ false)

pub record Fine (cfg : Server) (req : HttpRequest) (reply : Reply) : Type 0 where
  pub all_permitted : All (Permitted cfg req) reply.changes
