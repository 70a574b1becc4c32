-- ===== src/Loop/Ended.antt =====
-- What a function of the event loop comes to, and what it does to connections.
use webserer_core.Base.{ℕ, List, [], ◌∷◌, none, some, Bytes, returned, thrown, hung}
use webserer_core.Buffer
use webserer_core.Connection.{Connection, set_writing}
use webserer_core.Handler.Replies.{send_error}
use webserer_core.Loop.{Loop, System, client_at, rearm_client}
use webserer_core.Tables.{insert}

-- It returns, throws `BodyLimitException`, throws another exception, uses a connection that is not
-- there, or does not end.
pub data Ended : Type 0 where
  done raised failed dangling : Loop → Ended
  stuck : Ended

infixl 5 ◌|>◌
abbrev pub ◌|>◌ : Ended → (Loop → Ended) → Ended
done s |> f = f s
raised s |> f = raised s
failed s |> f = failed s
dangling s |> f = dangling s
stuck |> f = stuck

-- `try { ... } catch (const BodyLimitException&) { ... }`
abbrev pub catch : Ended → (Loop → Ended) → Ended
catch (done s) f = done s
catch (raised s) f = f s
catch (failed s) f = failed s
catch (dangling s) f = dangling s
catch stuck f = stuck

abbrev pub put_client : ℕ → Connection → Loop → Loop
put_client fd conn s = record s {
  manager = record (s.manager) { connections = insert fd conn (s.manager).connections };
}

-- What is done with a connection that a pointer leads to.
unfoldable pub on_client : ℕ → (Connection → Ended) → Loop → Ended
on_client fd f s = elim (client_at fd s) [ none ↦ dangling s | some conn ↦ f conn ]

unfoldable pub update_client : ℕ → (Connection → Connection) → Loop → Ended
unfolding on_client
update_client fd f s = on_client fd (λ conn. done (put_client fd (f conn) s)) s

-- `conn->writeBuffer().append(...)`
unfoldable pub append_bytes : ℕ → Bytes → Loop → Ended
unfolding on_client
append_bytes fd text s =
    on_client fd
      (λ conn. elim (Buffer.append text conn.write_buffer) [
        | returned buf ↦ done (put_client fd (record conn { write_buffer = buf }) s)
        | thrown ↦ raised s
        | hung ↦ stuck
      ])
      s

-- Texts that are appended in turn.
unfoldable pub append_all : ℕ → List Bytes → Loop → Ended
unfolding append_bytes
append_all fd [] s = done s
append_all fd (text ∷ texts) s = append_bytes fd text s |> append_all fd texts

-- `_responder.sendError(code, *conn->config(), conn->writeBuffer())`
unfoldable pub send_error_to : System → ℕ → ℕ → Loop → Ended
unfolding on_client append_bytes
send_error_to system code fd s =
    on_client fd (λ conn. append_bytes fd (send_error system.files code conn.config) s) s

module _ (system : System) where
  -- `conn->setWriting(); _rearmClient(conn->fd());`
  unfoldable pub start_writing : ℕ → Loop → Ended
  unfolding update_client
  start_writing fd s = update_client fd set_writing s |> λ t. done (rearm_client system fd t)

  unfoldable pub answer_error : ℕ → ℕ → Loop → Ended
  unfolding send_error_to start_writing
  answer_error code fd s = send_error_to system code fd s |> start_writing fd
