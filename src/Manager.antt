-- ===== src/Manager.antt =====
-- `ConnectionManager` of src/ConnectionManager.cpp: the connections by their file descriptor.
-- The results of `accept` and `fcntl` and the clock are arguments; `conn_num` and log lines are left
-- out. Calls of the system are listed in the order in which they are made.
pub mod Map
use webserer_core.Base.{
  ℕ, zero, suc, Bool, true, false, not, ◌&&◌, List, [], ◌∷◌, ◌++◌, Option, none, some, ltb, leb,
  ◌==◌, if◌then◌else◌, Bytes, length,
}
use webserer_core.Config.{Server}
use webserer_core.Tables.{Table, lookup, insert, erase}
use webserer_core.Connection
use webserer_core.Connection.{Connection, ConnectionState, Interest, is_timed_out}

-- `std::map<int, Connection*>`: ascending keys, each of which stands once.
abbrev pub ConnectionMap : Type 0
ConnectionMap = Table Connection

pub record Manager : Type 0 where
  pub max_connections : ℕ
  pub connections : ConnectionMap

pub data SystemCall : Type 0 where
  closes : ℕ → SystemCall
  removes : Bytes → SystemCall
  forgets : ℕ → SystemCall
  watches : ℕ → Interest → SystemCall
  kills : ℕ → SystemCall

-- `_destroy`: the destructor of the connection closes its descriptor.
unfoldable pub destroy : ℕ → Manager → Manager × List SystemCall
destroy fd m = (
  record m { connections = erase fd m.connections },
  elim (lookup fd m.connections) [ none ↦ [] | some conn ↦ closes conn.fd ∷ [] ],
)

unfoldable pub count : Manager → ℕ
count m = length m.connections

-- The constructor; `somaxconn` is what the system says.
unfoldable pub create : ℕ → Manager
create somaxconn = record {
  max_connections = if ltb somaxconn 10000 then 10000 else somaxconn;
  connections = [];
}

-- What an `accept` that answered `fd` leads to.
unfoldable pub track : ℕ → ℕ → Server → Manager → Manager × List SystemCall
unfolding destroy
track now fd config m =
    let conn = Connection.create fd config now in
    elim (lookup fd m.connections) [
      | none ↦ (record m { connections = insert fd conn m.connections }, [])
      | some old ↦
          let (cleared, calls) = destroy fd m in
          (record cleared { connections = insert fd conn cleared.connections }, calls)
    ]

-- `addConnection`, with what `accept` answers and whether the descriptor can be made non-blocking.
unfoldable pub add_connection :
    ℕ → Option ℕ → Bool → Server → Manager → Option ℕ × (Manager × List SystemCall)
unfolding track count
add_connection now accepted non_blocking config m =
    if leb m.max_connections (count m) then (none, (m, [])) else elim accepted [
      | none ↦ (none, (m, []))
      | some fd ↦
          if non_blocking then (some fd, track now fd config m) else (none, (m, closes fd ∷ []))
    ]

-- The temporary file of an upload, if it is open.
unfoldable pub drop_upload : Connection → List SystemCall
drop_upload conn = elim (conn.request).opened_file [
  | none ↦ []
  | some file ↦ if ltb 0 file then closes file ∷ removes (conn.request).tmp_body_path ∷ [] else []
]

unfoldable pub close_connection : ℕ → Manager → Manager × List SystemCall
unfolding destroy drop_upload
close_connection fd m = elim (lookup fd m.connections) [
  | none ↦ (m, [])
  | some conn ↦ let (rest, calls) = destroy fd m in (rest, drop_upload conn ++ (forgets fd ∷ calls))
]

unfoldable pub get : ℕ → Manager → Option Connection
get fd m = lookup fd m.connections

abbrev pub is_cgi_running : ConnectionState → Bool
is_cgi_running ConnectionState.cgi_running = true
is_cgi_running _ = false

-- The test of `getTimedOutFds`; every connection has a configuration.
unfoldable pub is_stale : ℕ → Connection → Bool
is_stale now conn =
    not (is_cgi_running conn.state) && is_timed_out now (conn.config).timeout_seconds conn

unfoldable pub stale_fds : ℕ → ConnectionMap → List ℕ
stale_fds now [] = []
stale_fds now ((fd, conn) ∷ m) =
    let further = stale_fds now m in if is_stale now conn then fd ∷ further else further

unfoldable pub timed_out_fds : ℕ → Manager → List ℕ
unfolding stale_fds
timed_out_fds now m = stale_fds now m.connections

-- `hold_cofiguration`; the map has the descriptor when it is called.
unfoldable pub hold_configuration : List Server → ℕ → Manager → Manager
hold_configuration configs fd m = elim (lookup fd m.connections) [
  | none ↦ m
  | some conn ↦ record m {
    connections = insert fd (record conn { configuration = configs }) m.connections;
  }
]
