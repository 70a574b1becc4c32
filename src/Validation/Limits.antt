-- ===== src/Validation/Limits.antt =====
-- What `validate_final_config` of conf/parsing.cpp lets through, and with it `API_conf`.
use webserer_core.Base.{
  ℕ, ◌≤◌, ◌≡◌, true, false, not, ◌==◌, List, [], ◌∷◌, arith, some, is_nil, Ensures, Ensures-bind,
  Ensures-returned, Ensures-guard, Bool-cases, inl, inr,
}
use webserer_core.Blocks.Ready.{LocationReady}
use webserer_core.Config.{Location, Server}
use webserer_core.Config.Match.{All}
use webserer_core.Settings.{max_body_limit}
use webserer_core.Validation.{
  Files, all_valid_filenames, has_partial_cgi, cgi_ok, upload_ok, pages_ok, codes_ok,
  validate_location, validate_locations,
}

module _ (files : Files) where
  -- A location that is served: its limit is positive, its root is there, and its index names,
  -- upload directory and error pages have been looked at.
  pub record LocationServed (loc : Location) : Type 0 where
    pub ready : LocationReady loc
    pub limit_set : 1 ≤ loc.client_max_body_size
    pub root_there : files.is_directory loc.root ≡ true
    pub names_valid : all_valid_filenames loc.index_files ≡ true
    pub cgi_whole : has_partial_cgi loc ≡ false
    pub cgi_runs : cgi_ok files loc.cgi_map ≡ true
    pub upload_there : upload_ok files loc ≡ true
    pub pages_there : pages_ok files loc.error_page ≡ true

  -- A server that is served.
  pub record ServerServed (server : Server) : Type 0 where
    pub port_set : (port : ℕ) × (server.port ≡ some port) × (1 ≤ port) × (port ≤ 65535)
    pub timeout_set : (1 ≤ server.timeout_seconds) × (server.timeout_seconds ≤ 3600)
    pub limit_set :
        (1 ≤ server.client_max_body_size) × (server.client_max_body_size ≤ max_body_limit)
    pub root_there : files.is_directory server.root ≡ true
    pub codes_in : codes_ok server.error_page ≡ true
    pub pages_there : pages_ok files server.error_page ≡ true
    pub has_index : is_nil server.index_files ≡ false
    pub locations_served : All LocationServed server.locations

  with_limit :
      (loc : Location) (limit : ℕ)
      → limit ≤ max_body_limit
      → LocationReady loc
      → LocationReady (record loc { client_max_body_size = limit })
  with_limit loc limit h r = record {
    part = record {
      path_from_root = (r.part).path_from_root;
      methods_known = (r.part).methods_known;
      code_in = (r.part).code_in;
      limit_in = h;
    };
    has_method = r.has_method;
  }

  validate_location-Ensures :
      (inherited : ℕ) (loc : Location)
      → (1 ≤ inherited) × (inherited ≤ max_body_limit)
      → LocationReady loc
      → Ensures LocationServed (validate_location files inherited loc)
  unfolding validate_location upload_ok has_partial_cgi
  validate_location-Ensures inherited loc limit r =
      Ensures-guard (files.is_directory loc.root) (λ root.
        Ensures-guard (all_valid_filenames loc.index_files) (λ names.
          Ensures-guard (not (has_partial_cgi loc)) (λ whole.
            Ensures-guard (cgi_ok files loc.cgi_map) (λ runs.
              Ensures-guard (upload_ok files loc) (λ upload.
                Ensures-guard (pages_ok files loc.error_page) (λ pages.
                  elim (Bool-cases (loc.client_max_body_size == 0)) [
                    | inl e ↦ rw (e) (
                        Ensures-returned _ (record {
                          ready = with_limit loc inherited limit.1 r;
                          limit_set = limit.0;
                          root_there = root;
                          names_valid = names;
                          cgi_whole = ground arith;
                          cgi_runs = runs;
                          upload_there = upload;
                          pages_there = pages;
                        }))
                    | inr e ↦ rw (e) (
                        Ensures-returned _ (record {
                          ready = r;
                          limit_set = ground arith;
                          root_there = root;
                          names_valid = names;
                          cgi_whole = ground arith;
                          cgi_runs = runs;
                          upload_there = upload;
                          pages_there = pages;
                        }))
                  ]))))))

  pub validate_locations-Ensures :
      (inherited : ℕ) (locs : List Location)
      → (1 ≤ inherited) × (inherited ≤ max_body_limit)
      → All LocationReady locs
      → Ensures (All LocationServed) (validate_locations files inherited locs)
  unfolding validate_locations
  validate_locations-Ensures inherited [] limit r = Ensures-returned [] tt
  validate_locations-Ensures inherited (loc ∷ locs) limit (r, rs) =
      Ensures-bind (validate_location files inherited loc)
        (validate_location-Ensures inherited loc limit r)
        (λ checked h.
          Ensures-bind (validate_locations files inherited locs)
            (validate_locations-Ensures inherited locs limit rs)
            (λ rest k. Ensures-returned _ (h, k)))
