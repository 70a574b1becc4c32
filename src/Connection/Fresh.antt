-- ===== src/Connection/Fresh.antt =====
-- What a connection is like when it starts and after `reset` of src/Connection.cpp.
use webserer_core.Base.{ℕ, ◌≡◌, refl, []}
use webserer_core.Buffer
use webserer_core.Buffer.{Buffer}
use webserer_core.Buffer.Queue.{IsValid, reset-IsValid}
use webserer_core.Connection
use webserer_core.Connection.{Connection, ConnectionState}
use webserer_core.Request
use webserer_core.Request.{HttpRequest}

-- A well-formed buffer with nothing in it and the limit `n`.
pub record IsEmpty (n : ℕ) (b : Buffer) : Type 0 where
  pub valid : IsValid b
  pub no_content : Buffer.content b ≡ []
  pub limit : b.cmbs ≡ n

-- A connection that waits for its next request: no bytes, no trace of a request, the limits of its
-- server.
pub record IsFresh (conn : Connection) : Type 0 where
  pub read_empty : IsEmpty (conn.config).client_max_body_size conn.read_buffer
  pub write_empty : IsEmpty (conn.config).client_max_body_size conn.write_buffer
  pub body_empty : IsEmpty (conn.config).client_max_body_size (conn.request).body
  pub request_new :
      conn.request
      ≡ record (Request.create (conn.config).client_max_body_size) { body = (conn.request).body }
  pub is_reading : conn.state ≡ ConnectionState.reading

emptied : (n : ℕ) (b : Buffer) → IsEmpty n (Buffer.set_max_size n (Buffer.reset b))
unfolding Buffer.set_max_size Buffer.reset Buffer.content
emptied n b = record {
  valid =
      (let v = reset-IsValid b in
        record { head_within = v.head_within; stored = v.stored; roomy = v.roomy });
  no_content = refl;
  limit = refl;
}

-- After `reset` a connection is like a new one of its server, whatever had been read or failed.
pub reset-IsFresh : (now : ℕ) (conn : Connection) → IsFresh (Connection.reset now conn).0
unfolding Connection.reset Request.reset Request.create Buffer.set_max_size
reset-IsFresh now conn =
    let n = (conn.config).client_max_body_size in
    record {
      read_empty = emptied n conn.read_buffer;
      write_empty = emptied n conn.write_buffer;
      body_empty = emptied n (conn.request).body;
      request_new = refl;
      is_reading = refl;
    }
