-- ===== src/Examples/Connections.antt =====
-- Runs on connections and on the manager.
use webserer_core.Base.{◌≡◌, ◌⊎◌, refl, ◌∷◌, [], Bytes, codes, arith, true, false, returned, equal}
use webserer_core.Body.Progress.{Reading}
use webserer_core.Config.{Server}
use webserer_core.Config.Match.{All}
use webserer_core.Connection
use webserer_core.Connection.{Connection, override_host}
use webserer_core.Connection.Select.{override_host-Chosen, Chosen}
use webserer_core.Feed.{feed}
use webserer_core.Feed.Chunks.{feed-returned}
use webserer_core.Manager.{Manager}
use webserer_core.Manager.Map.{IsTracked}
use webserer_core.Target.{Stat}
use webserer_core.Examples.Data.{server, connection, posting}
use webserer_core.Examples.Bodies.{posting-Reading}

abbrev two_hosts : Connection
two_hosts = record (connection (codes "x")) {
  configuration = record server { server_name = codes "b.org" } ∷ server ∷ [];
}

override_host-Chosen_example :
    (All (λ s. equal s.server_name (codes "a.org") ≡ false) two_hosts.configuration
      × (override_host (codes "a.org") two_hosts ≡ two_hosts))
    ⊎ Chosen (codes "a.org") two_hosts.configuration (override_host (codes "a.org") two_hosts)
override_host-Chosen_example = override_host-Chosen (codes "a.org") two_hosts

abbrev found : Bytes → Stat
found path = Stat.present

abbrev uploading : Connection
uploading = record (connection (codes "2\r\nab\r\n")) {
  request = record (posting 0) { chunked = true };
}

feed-returned_example :
    (after : Connection) × (feed found uploading ≡ returned after)
    × Reading after.read_buffer after.request
unfolding webserer_core.Feed.apply_location_body_limit webserer_core.Buffer.set_max_size
    webserer_core.Request.create webserer_core.Config.match_location Connection.create
    webserer_core.Config.covers equal
feed-returned_example =
    feed-returned found uploading refl refl refl
      (posting-Reading 0 (codes "2\r\nab\r\n") (omega arith))

abbrev manager : Manager
manager = record {
  max_connections = 2;
  connections = (3, connection (codes "x")) ∷ (5, connection []) ∷ [];
}

manager-IsTracked : IsTracked manager
manager-IsTracked = record { ascending = (omega arith, (omega arith, tt)); bounded = omega arith }
