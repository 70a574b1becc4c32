-- ===== src/Loop.antt =====
-- The state of `EventLoop` of Headers/EventLoop.hpp, Headers/EventRef.hpp and Headers/CgiJob.hpp, and
-- the operations on the references of descriptors: src/EventLoop/EventLoop_helper.cpp and the first part
-- of src/EventLoop/EventLoop.cpp.
-- A pointer to a connection is the descriptor under which the manager has it.
pub mod Closing
pub mod Ended
pub mod Jobs
pub mod Launch
pub mod Clients
pub mod Reads
pub mod Writes
pub mod Spool
pub mod Turns
pub mod Starting
pub mod Served
pub mod Stable
pub mod Bounded
pub mod References
pub mod Alive
pub mod Gone
pub mod Overdue
pub mod Expired
pub mod Reaping
pub mod Sending
pub mod Responding
use webserer_core.Base.{
  ℕ, zero, suc, ◌-◌, Bool, true, false, not, ◌&&◌, ◌||◌, List, [], ◌∷◌, ◌++◌, Option, none, some,
  ltb, ◌==◌, if◌then◌else◌, Bytes, map,
}
use webserer_core.Buffer
use webserer_core.Buffer.{Buffer}
use webserer_core.Cgi.{Programs}
use webserer_core.Cgi.Output.{Signed}
use webserer_core.Config.{Server}
use webserer_core.Connection.{Connection, Interest, build_epoll_event}
use webserer_core.Handler.Replies.{FileSystem}
use webserer_core.Handler.Serve.{Change}
use webserer_core.Target.{Stat}
use webserer_core.Manager
use webserer_core.Manager.{Manager, SystemCall, closes, forgets, watches, kills}
use webserer_core.Tables.{Table, lookup, insert, erase}

-- EV_INVALID and so on.
pub data EventKind : Type 0 where
  invalid server client cgi cgi_stdin : EventKind

pub record EventRef : Type 0 where
  pub kind : EventKind
  pub fd : ℕ

-- `CgiJob`; two fields that nothing reads are left out. -1 is `none` here.
pub record CgiJob : Type 0 where
  pub client_fd : ℕ
  pub child_pid : Option ℕ
  pub result_buffer : Buffer
  pub start_time : ℕ
  pub timeout_seconds : ℕ
  pub stdin_fd : Option ℕ
  pub headers_sent : Bool
  pub body_written : ℕ
  pub parent_request : ℕ

unfoldable pub create_job : ℕ → ℕ → ℕ → ℕ → CgiJob
unfolding Buffer.create
create_job now client_fd max_size timeout = record {
  client_fd = client_fd;
  child_pid = none;
  result_buffer = Buffer.create max_size;
  start_time = now;
  timeout_seconds = timeout;
  stdin_fd = none;
  headers_sent = false;
  body_written = 0;
  parent_request = 0;
}

-- `refs` has the objects of type `EventRef` by a number for their address, `refs_made` is the number
-- of the next one, and the values of `event_refs` and `stale_refs` are such numbers. `pending_reap`
-- has children and the times since when they are waited for. `server_fds` has -1 as `none`.
-- `spooled` counts temporary files, `uploads` uploads, `changes` and `calls` list what was done to
-- files and the calls of the system, and `asked` counts its answers.
pub record Loop : Type 0 where
  pub manager : Manager
  pub running : Bool
  pub stopped : Bool
  pub server_fds : List (Option ℕ)
  pub server_configs : List Server
  pub cgi_jobs : Table CgiJob
  pub refs : Table EventRef
  pub refs_made : ℕ
  pub event_refs : Table ℕ
  pub stale_refs : List ℕ
  pub cgi_stdin_jobs : List ℕ
  pub pending_reap : List (ℕ × ℕ)
  pub spooled : ℕ
  pub uploads : ℕ
  pub changes : List Change
  pub calls : List SystemCall
  pub asked : ℕ

-- What the system answers. The first argument tells how many answers came before: the same question
-- may be answered in another way later. `still_runs` is that `waitpid` returns 0; a number or a text
-- is none where the call fails. `accepts` lists the descriptors that `accept` returns before it
-- fails, and whether they can be made non-blocking; `receives` lists what `recv` returns before it
-- returns 0, if that is told, or fails. `conn_num` is the number of a connection. `scan` is how a
-- string stream is read, `programs` what `startCgi` asks for.
pub record System : Type 0 where
  pub now : ℕ
  pub files : FileSystem
  pub still_runs : ℕ → ℕ → Bool
  pub modifies : ℕ → ℕ → Bool
  pub adds : ℕ → ℕ → Bool
  pub sends : ℕ → ℕ → Option ℕ
  pub reads : ℕ → ℕ → Option Bytes
  pub pipes : ℕ → Option (ℕ × ℕ)
  pub cloexec : ℕ → ℕ → Bool
  pub forks : ℕ → Option ℕ
  pub opens : ℕ → Bytes → Option ℕ
  pub writes : ℕ → ℕ → Option ℕ
  pub programs : Programs
  pub unblocks : ℕ → ℕ → Bool
  pub accepts : ℕ → ℕ → List (ℕ × Bool)
  pub receives : ℕ → ℕ → List Bytes × Bool
  pub stat : Bytes → Stat
  pub conn_num : ℕ → ℕ
  pub scan : Bytes → Signed → Signed

abbrev pub log : List SystemCall → Loop → Loop
log calls s = record s { calls = s.calls ++ calls }

abbrev pub ask : Loop → Loop
ask s = record s { asked = suc s.asked }

abbrev pub is_invalid : EventKind → Bool
is_invalid invalid = true
is_invalid _ = false

-- `_manager->get(fd)`
abbrev pub client_at : ℕ → Loop → Option Connection
client_at fd s = lookup fd (s.manager).connections

-- `_manager->closeConnection(fd)`
unfoldable pub drop_connection : ℕ → Loop → Loop
drop_connection fd s =
    let (rest, calls) = Manager.close_connection fd s.manager in
    log calls (record s { manager = rest })

-- `it->second->kind = EV_INVALID`
unfoldable pub invalidate : ℕ → Table EventRef → Table EventRef
invalidate ident refs = elim (lookup ident refs) [
  | none ↦ refs
  | some ref ↦ insert ident (record ref { kind = invalid }) refs
]

unfoldable pub unregister_event_fd : ℕ → Loop → Loop
unregister_event_fd fd s =
    let t = log (forgets fd ∷ []) s in
    elim (lookup fd t.event_refs) [
      | none ↦ t
      | some ident ↦ record t {
        refs = invalidate ident t.refs;
        stale_refs = t.stale_refs ++ ident ∷ [];
        event_refs = erase fd t.event_refs;
      }
    ]

-- The object that the table has for a descriptor.
unfoldable pub ref_of : ℕ → Loop → Option EventRef
ref_of fd s = elim (lookup fd s.event_refs) [ none ↦ none | some ident ↦ lookup ident s.refs ]

module _ (system : System) where
  -- `_registerEventFd`: whether it throws, and the state then.
  unfoldable pub register_event_fd : ℕ → EventKind → Interest → Loop → Bool × Loop
  register_event_fd fd kind events s =
      let t = record s {
        refs = insert s.refs_made (record { kind = kind; fd = fd }) s.refs;
        refs_made = suc s.refs_made;
        event_refs = insert fd s.refs_made s.event_refs;
      } in
      (not (system.adds s.asked fd), log (watches fd events ∷ []) (ask t))

  -- `_modifyEventFd`
  unfoldable pub modify_event_fd : ℕ → Interest → Loop → Loop
  unfolding drop_connection ref_of
  modify_event_fd fd events s =
      let t = log (watches fd events ∷ []) (ask s) in
      elim (ref_of fd s) [
        | none ↦ s
        | some ref ↦
            if is_invalid ref.kind
            then s
            else if system.modifies s.asked fd
            then t
            else drop_connection fd t
      ]

  unfoldable pub rearm_client : ℕ → Loop → Loop
  unfolding modify_event_fd
  rearm_client fd s = elim (client_at fd s) [
    | none ↦ s
    | some conn ↦ modify_event_fd fd (build_epoll_event conn) s
  ]
