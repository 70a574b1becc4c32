-- ===== src/Settings/Defaults.antt =====
-- The default configuration, which `API_conf` of src/API_conf.cpp returns where no file is given:
-- `set_default_conf` of conf/locationConfig.cpp and conf/serverConfig.cpp.
use webserer_core.Base.{
  ℕ, zero, suc, true, false, ◌==◌, if◌then◌else◌, List, [], ◌∷◌, ◌++◌, none, some, Bytes, codes,
}
use webserer_core.Config.{Location, Server}
use webserer_core.Settings.{set_page}

-- `Location::Location()`
unfoldable pub new_location : Location
new_location = record {
  path = [];
  root = [];
  index_files = [];
  autoindex = false;
  allowed_methods = [];
  cgi_paths = [];
  cgi_extensions = [];
  cgi_map = [];
  upload = [];
  return_code = none;
  return_value = [];
  client_max_body_size = 0;
  error_page = [];
  redirect_enabled = false;
}

-- `Server::Server()`
unfoldable pub new_server : Server
new_server = record {
  host = [];
  port = none;
  timeout_seconds = 0;
  root = [];
  client_max_body_size = 0;
  index_files = [];
  server_name = [];
  error_page = [];
  locations = [];
}

abbrev pub default_pages : List (ℕ × Bytes)
default_pages =
    (400, codes "./www/html/errors/400.html")
    ∷ (401, codes "./www/html/errors/401.html")
    ∷ (403, codes "./www/html/errors/403.html")
    ∷ (404, codes "./www/html/errors/404.html")
    ∷ (405, codes "./www/html/errors/405.html")
    ∷ (408, codes "./www/html/errors/408.html")
    ∷ (411, codes "./www/html/errors/411.html")
    ∷ (413, codes "./www/html/errors/413.html")
    ∷ (500, codes "./www/html/errors/500.html")
    ∷ (502, codes "./www/html/errors/502.html")
    ∷ (503, codes "./www/html/errors/503.html")
    ∷ (504, codes "./www/html/errors/504.html")
    ∷ []

unfoldable pub put_pages : List (ℕ × Bytes) → List (ℕ × Bytes) → List (ℕ × Bytes)
unfolding set_page
put_pages [] pages = pages
put_pages ((code, path) ∷ more) pages = put_pages more (set_page code path pages)

-- What `Location::set_default_conf` does for every number.
unfoldable pub common_default : Location → Location
unfolding put_pages
common_default loc = record loc {
  index_files = codes "index.html" ∷ [];
  allowed_methods = [];
  cgi_paths = [];
  cgi_extensions = [];
  cgi_map = [];
  upload = [];
  return_code = none;
  return_value = [];
  redirect_enabled = false;
  autoindex = false;
  root = codes "./www/html";
  client_max_body_size = 2040109465;
  error_page = put_pages default_pages loc.error_page;
}

unfoldable pub default_location : ℕ → Location → Location
unfolding common_default
default_location num loc =
    let common = common_default loc in
    if num == 0
    then record common { path = codes "/"; allowed_methods = codes "GET" ∷ codes "DELETE" ∷ [] }
    else if num == 1
    then record common { path = codes "/dashboard/"; allowed_methods = codes "GET" ∷ [] }
    else if num == 2
    then record common {
      path = codes "/cgi-bin/";
      client_max_body_size = 116391936;
      allowed_methods = codes "GET" ∷ codes "POST" ∷ [];
      cgi_paths = codes "/usr/bin/python3" ∷ codes "/usr/bin/bash" ∷ [];
      cgi_extensions = codes ".py" ∷ codes ".sh" ∷ [];
      cgi_map = (codes ".py", codes "/usr/bin/python3") ∷ (codes ".sh", codes "/usr/bin/bash") ∷ [];
    }
    else if num == 3
    then record common {
      path = codes "/redirect/";
      allowed_methods = codes "GET" ∷ [];
      return_code = some 301;
      return_value = codes "/new-page.html";
      redirect_enabled = true;
    }
    else if num == 4
    then record common {
      path = codes "/uploads/";
      client_max_body_size = 2040109465;
      allowed_methods = codes "GET" ∷ codes "POST" ∷ codes "DELETE" ∷ [];
      autoindex = true;
      upload = codes "./www/html/uploads/";
    }
    else if num == 5
    then record common { path = codes "/errors/"; allowed_methods = codes "GET" ∷ [] }
    else common

-- The locations that one `Location` object is made into in turn, from number `num` on.
unfoldable pub default_locations : ℕ → ℕ → Location → List Location
unfolding default_location
default_locations zero num loc = []
default_locations (suc count) num loc =
    let next = default_location num loc in next ∷ default_locations count (suc num) next

unfoldable pub default_server : Server → Server
unfolding default_locations new_location put_pages
default_server server = record server {
  host = codes "localhost";
  port = some 8080;
  timeout_seconds = 60;
  root = codes "./www/html";
  client_max_body_size = 2040109465;
  index_files = server.index_files ++ codes "index.html" ∷ [];
  server_name = codes "example.com";
  error_page = put_pages default_pages server.error_page;
  locations = server.locations ++ default_locations 6 0 new_location;
}
