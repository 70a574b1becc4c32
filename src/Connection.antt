-- ===== src/Connection.antt =====
-- `Connection` of Headers/Connection.hpp and src/Connection.cpp, and `override_host` of
-- src/HttpParser.cpp. The clock and the results of the socket calls are arguments.
-- `conn_num` and `_client_ip` decide nothing and are left out.
pub mod Select
pub mod Fresh
use webserer_core.Base.{
  ℕ, ◌-◌, Bool, true, false, List, [], ◌∷◌, ltb, if◌then◌else◌, Bytes, equal, Outcome, returned,
  ◌>>=◌, is_nil,
}
use webserer_core.Buffer
use webserer_core.Buffer.{Buffer}
use webserer_core.Request
use webserer_core.Request.{HttpRequest, FileCall}
use webserer_core.Config.{Server}

-- CSTATE_READING and so on.
pub data ConnectionState : Type 0 where
  reading processing cgi_running writing closing : ConnectionState

pub record Connection : Type 0 where
  pub fd : ℕ
  pub config : Server
  pub read_buffer : Buffer
  pub write_buffer : Buffer
  pub request : HttpRequest
  pub state : ConnectionState
  pub last_active : ℕ
  pub peer_half_closed : Bool
  pub configuration : List Server

-- The constructor, at time `now`.
unfoldable pub create : ℕ → Server → ℕ → Connection
unfolding Buffer.create Request.create
create fd config now = record {
  fd = fd;
  config = config;
  read_buffer = Buffer.create config.client_max_body_size;
  write_buffer = Buffer.create config.client_max_body_size;
  request = Request.create config.client_max_body_size;
  state = reading;
  last_active = now;
  peer_half_closed = false;
  configuration = [];
}

-- `got` are the bytes that `::recv` delivered, none if it returned no positive number.
unfoldable pub recv : ℕ → Bytes → Connection → Outcome Connection
recv now got conn =
    if is_nil got
    then returned conn
    else (Buffer.append got conn.read_buffer >>= λ buf.
        returned (record conn { read_buffer = buf; last_active = now }))

-- `sent` is how much `::send` took, 0 if it returned no positive number.
unfoldable pub send : ℕ → ℕ → Connection → Connection
send now sent conn =
    if Buffer.is_empty conn.write_buffer
    then conn
    else if ltb 0 sent
    then record conn { write_buffer = Buffer.consume sent conn.write_buffer; last_active = now }
    else conn

unfoldable pub reset : ℕ → Connection → Connection × List FileCall
reset now conn =
    let server_default = conn.config.client_max_body_size in
    let (fresh, calls) = Request.reset conn.request in
    (
      record conn {
        read_buffer = Buffer.set_max_size server_default (Buffer.reset conn.read_buffer);
        write_buffer = Buffer.set_max_size server_default (Buffer.reset conn.write_buffer);
        request = record fresh { body = Buffer.set_max_size server_default fresh.body };
        state = reading;
        peer_half_closed = false;
        last_active = now;
      },
      calls,
    )

unfoldable pub is_timed_out : ℕ → ℕ → Connection → Bool
is_timed_out now timeout_seconds conn = ltb timeout_seconds (now - conn.last_active)

unfoldable pub set_processing : Connection → Connection
set_processing conn = record conn { state = processing }

unfoldable pub set_writing : Connection → Connection
set_writing conn = record conn { state = writing }

unfoldable pub set_cgi_running : Connection → Connection
set_cgi_running conn = record conn { state = cgi_running }

unfoldable pub set_reading : ℕ → Connection → Connection × List FileCall
unfolding reset
set_reading now conn =
    let (fresh, calls) = reset now conn in (record fresh { state = reading }, calls)

unfoldable pub set_peer_half_closed : Connection → Connection
set_peer_half_closed conn = record conn { peer_half_closed = true }

-- The events that `buildEpollEvent` asks for besides EPOLLET and EPOLLRDHUP.
pub record Interest : Type 0 where
  pub input : Bool
  pub output : Bool

unfoldable pub interest_in : ConnectionState → Interest
interest_in reading = record { input = true; output = false }
interest_in writing = record { input = false; output = true }
interest_in _ = record { input = false; output = false }

unfoldable pub build_epoll_event : Connection → Interest
unfolding interest_in
build_epoll_event conn = interest_in conn.state

unfoldable pub resize_buffers : Connection → Connection
resize_buffers conn =
    let limit = conn.config.client_max_body_size in
    record conn {
      read_buffer = Buffer.set_max_size limit conn.read_buffer;
      write_buffer = Buffer.set_max_size limit conn.write_buffer;
      request = record (conn.request) { body = Buffer.set_max_size limit (conn.request).body };
    }

-- The loop of `override_host` over the configurations held.
unfoldable pub override_from : Bytes → List Server → Connection → Connection
unfolding resize_buffers
override_from host [] conn = conn
override_from host (server ∷ servers) conn =
    if equal server.server_name host
    then resize_buffers (record conn { config = server })
    else override_from host servers conn

unfoldable pub override_host : Bytes → Connection → Connection
unfolding override_from
override_host host conn = override_from host conn.configuration conn
