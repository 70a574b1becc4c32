-- ===== src/Connection/Select.antt =====
-- Which server `override_host` of src/HttpParser.cpp gives a connection to.
use webserer_core.Base.{
  ◌≡◌, refl, ◌⊎◌, inl, inr, true, false, List, [], ◌∷◌, ◌++◌, ap, sym, ◌∙◌, Bytes, equal,
  Bool-cases,
}
use mathlib.Core.Path.{subst}
use webserer_core.Buffer.{set_max_size}
use webserer_core.Config.{Server}
use webserer_core.Config.Match.{All}
use webserer_core.Connection.{Connection, override_from, override_host, resize_buffers}

-- The connection has been given to the first server of the name, with its limit.
pub record Chosen (name : Bytes) (servers : List Server) (after : Connection) : Type 0 where
  pub before : List Server
  pub later : List Server
  pub splits : servers ≡ before ++ (after.config ∷ later)
  pub named : equal (after.config).server_name name ≡ true
  pub none_before : All (λ s. equal s.server_name name ≡ false) before
  pub read_limit : (after.read_buffer).cmbs ≡ (after.config).client_max_body_size
  pub write_limit : (after.write_buffer).cmbs ≡ (after.config).client_max_body_size
  pub body_limit : ((after.request).body).cmbs ≡ (after.config).client_max_body_size

module _ (name : Bytes) (s : Server) (servers : List Server) (conn : Connection) where
  override_from_taken :
      equal s.server_name name ≡ true
      → override_from name (s ∷ servers) conn ≡ resize_buffers (record conn { config = s })
  unfolding override_from
  override_from_taken e = rw e

  override_from_passed :
      equal s.server_name name ≡ false
      → override_from name (s ∷ servers) conn ≡ override_from name servers conn
  unfolding override_from
  override_from_passed e = rw e

  resized-Chosen :
      equal s.server_name name ≡ true
      → Chosen name (s ∷ servers) (resize_buffers (record conn { config = s }))
  unfolding resize_buffers set_max_size
  resized-Chosen e = record {
    before = [];
    later = servers;
    splits = refl;
    named = e;
    none_before = tt;
    read_limit = refl;
    write_limit = refl;
    body_limit = refl;
  }

further :
    (name : Bytes) (s : Server) {servers : List Server} {after : Connection}
    → equal s.server_name name ≡ false
    → Chosen name servers after
    → Chosen name (s ∷ servers) after
further name s e c = record {
  before = s ∷ c.before;
  later = c.later;
  splits = ap (◌∷◌ s) c.splits;
  named = c.named;
  none_before = (e, c.none_before);
  read_limit = c.read_limit;
  write_limit = c.write_limit;
  body_limit = c.body_limit;
}

override_from-Chosen :
    (name : Bytes) (servers : List Server) (conn : Connection)
    → (All (λ s. equal s.server_name name ≡ false) servers
        × (override_from name servers conn ≡ conn))
      ⊎ Chosen name servers (override_from name servers conn)
override_from-Chosen name [] conn = inl (tt, unfold override_from in refl)
override_from-Chosen name (s ∷ servers) conn = elim (Bool-cases (equal s.server_name name)) [
  | inl e ↦ inr (
      subst (Chosen name (s ∷ servers)) (sym (override_from_taken name s servers conn e))
        (resized-Chosen name s servers conn e))
  | inr e ↦
      let passed = override_from_passed name s servers conn e in
      elim (override_from-Chosen name servers conn) [
        | inl (none, same) ↦ inl ((e, none), passed ∙ same)
        | inr c ↦ inr (subst (Chosen name (s ∷ servers)) (sym passed) (further name s e c))
      ]
]

-- A host that no server is named for changes nothing; otherwise the first server of that name gets
-- the connection, and both buffers and the body its limit.
pub override_host-Chosen :
    (name : Bytes) (conn : Connection)
    → (All (λ s. equal s.server_name name ≡ false) conn.configuration
        × (override_host name conn ≡ conn))
      ⊎ Chosen name conn.configuration (override_host name conn)
unfolding override_host
override_host-Chosen name conn = override_from-Chosen name conn.configuration conn
