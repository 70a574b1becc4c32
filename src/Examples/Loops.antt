-- ===== src/Examples/Loops.antt =====
-- Runs on the event loop and on scripts.
use mathlib.Core.Option
use webserer_core.Base.{
  ℕ, ◌+◌, ◌≡◌, ◌≤◌, ◌<◌, ◌≢◌, refl, true, false, not, List, [], ◌∷◌, ◌++◌, none, some, Bytes, Every,
  codes, arith, is_nil, leb, take, drop, length, returned, Bool, Option, map, ◌==◌, if◌then◌else◌,
  Bool-cases, inl, inr,
}
use webserer_core.Buffer
use webserer_core.Buffer.{Buffer}
use webserer_core.Cgi.{resolve_cgi_request, path_requires_cgi_body_spool, build_cgi_args}
use webserer_core.Cgi.Args.{NoPlus, plus_each, plus_each-build_cgi_args}
use webserer_core.Cgi.Chunks.{chunks, last_chunk, parse_chunked-write_chunk}
use webserer_core.Cgi.Paths.{is_some, resolve_cgi_request-path_requires}
use webserer_core.Chunked.{parse_chunked}
use webserer_core.Chunked.Decode.{Due, Decoded}
use webserer_core.Config.Match.{All}
use webserer_core.Connection
use webserer_core.Connection.{Connection}
use webserer_core.Examples.Bodies.{posting-Reading}
use webserer_core.Examples.Data.{
  server, connection, holding, holding-Sound, holding-IsValid, posting, file_system, asking,
}
use webserer_core.Handler.Replies.{concat}
use webserer_core.Loop.{Loop, System, client, client_at, create_job, register_event_fd}
use webserer_core.Loop.Alive.{IsAlive, dispatch_all-IsAlive}
use webserer_core.Loop.Bounded.{Tracked}
use webserer_core.Loop.Clients.{close_timed_out_clients}
use webserer_core.Loop.Closing.{close_client, reap_pending}
use webserer_core.Loop.Ended.{Ended, done, raised, failed, dangling, stuck}
use webserer_core.Loop.Expired.{unless_expired, close_timed_out_cgi_jobs-lookup}
use webserer_core.Loop.Gone.{IsGone, close_client-IsGone}
use webserer_core.Loop.Jobs.{input_only, close_timed_out_cgi_jobs}
use webserer_core.Loop.Overdue.{Returns, close_timed_out_clients-Absent}
use webserer_core.Loop.Reads.{respond}
use webserer_core.Loop.Reaping.{reap_pending-children_that}
use webserer_core.Loop.References.{HasRefs, register-HasRefs, run-HasRefs}
use webserer_core.Loop.Responding.{Holds, response, respond-Holds}
use webserer_core.Loop.Sending.{Sends, Sent, accepted, send_loop-Sent}
use webserer_core.Loop.Served.{serve-Sound}
use webserer_core.Loop.Stable.{Keeps}
use webserer_core.Loop.Starting.{serve}
use webserer_core.Loop.Turns.{Event, run, dispatch_all}
use webserer_core.Loop.Writes.{send_loop}
use webserer_core.Manager.{is_stale}
use webserer_core.Manager.Map.{holds}
use webserer_core.Request.{HttpRequest}
use webserer_core.Tables.{lookup}
use webserer_core.Target.{present}

-- A system in which calls succeed, `send` takes ten bytes, and a client waits at the listener.
abbrev system : System
system = record {
  now = 100;
  files = file_system;
  still_runs = λ asked pid. true;
  modifies = λ asked fd. true;
  adds = λ asked fd. true;
  sends = λ asked fd. some 10;
  reads = λ asked fd. some (codes "Status: 200\n\nhello");
  pipes = λ asked. some (11, 12);
  cloexec = λ asked fd. true;
  forks = λ asked. some 77;
  opens = λ asked path. some 13;
  writes = λ asked count. some count;
  programs = record {
    is_regular = λ path. true;
    is_executable = λ path. true;
    is_readable = λ path. true;
    pwd = none;
  };
  unblocks = λ asked fd. true;
  accepts = λ asked fd. (7, true) ∷ [];
  receives = λ asked fd. (codes "GET / HTTP/1.1\r\n\r\n" ∷ [], false);
  stat = λ path. present;
  conn_num = λ fd. fd;
  scan = λ text before. before;
}

abbrev writing_conn : Connection
writing_conn = record (connection []) { write_buffer = holding (codes "hello") }

-- A client at descriptor 3, with something to send and a script at descriptor 9.
abbrev start : Loop
start = record {
  manager = record { max_connections = 2; connections = (3, writing_conn) ∷ [] };
  running = true;
  stopped = false;
  server_fds = some 4 ∷ [];
  server_configs = server ∷ [];
  cgi_jobs = (9, create_job 0 3 65536 60) ∷ [];
  refs = [];
  refs_made = 0;
  event_refs = [];
  stale_refs = [];
  cgi_stdin_jobs = [];
  pending_reap = (70, 20) ∷ (71, 90) ∷ [];
  spooled = 0;
  uploads = 0;
  changes = [];
  calls = [];
  asked = 0;
}

start-Tracked : Tracked start
start-Tracked = record { ascending = (omega arith, tt); bounded = omega arith }

start-HasRefs : HasRefs start
unfolding lookup holds
start-HasRefs = record {
  ascending = tt;
  refs_ascending = tt;
  found = λ fd ident e. absurd (cc);
  made = λ fd ident e. absurd (cc);
  stale_made = λ ident e. absurd (cc);
  unused = λ fd ident e. absurd (cc);
}

-- The client is registered.
abbrev watching : Loop
watching = (register_event_fd system 3 client input_only start).1

watching-HasRefs : HasRefs watching
watching-HasRefs = register-HasRefs system 3 client input_only start start-HasRefs

abbrev readable : Event
readable = record {
  ident = 0;
  flags = record { error_or_hup = false; peer_hup = false; input = true; output = false };
}

abbrev rounds : List (System × List Event)
rounds = (system, readable ∷ []) ∷ (system, []) ∷ []

serve-Sound_example :
    Keeps Tracked (serve 128 system ((some 4, server) ∷ []) rounds)
    × Keeps HasRefs (serve 128 system ((some 4, server) ∷ []) rounds)
serve-Sound_example = serve-Sound 128 system ((some 4, server) ∷ []) rounds

run-HasRefs_example : Keeps HasRefs (run rounds watching)
run-HasRefs_example = run-HasRefs rounds watching watching-HasRefs

watching-IsAlive : IsAlive 0 watching
unfolding register_event_fd lookup webserer_core.Tables.insert
watching-IsAlive = (3, (record { kind = client; fd = 3 }, refl, refl))

dispatch_all-IsAlive_example :
    Keeps (IsAlive 0) (dispatch_all system (readable ∷ readable ∷ []) watching)
dispatch_all-IsAlive_example =
    dispatch_all-IsAlive system (readable ∷ readable ∷ []) 0 watching watching-IsAlive

close_client-IsGone_example : IsGone 3 start (close_client system 3 start)
close_client-IsGone_example =
    close_client-IsGone system 3 start start-Tracked start-HasRefs (omega arith, tt)

-- A client whose write buffer takes an error page, so that what times out is answered.
abbrev roomy_conn : Connection
roomy_conn = record (connection []) {
  write_buffer = record (holding (codes "hello")) { cmbs = 4096 };
}

abbrev roomy : Loop
roomy = record start {
  manager = record { max_connections = 2; connections = (3, roomy_conn) ∷ [] };
}

abbrev returned_state : Ended → Option Loop
returned_state (done t) = some t
returned_state (raised t) = none
returned_state (failed t) = none
returned_state (dangling t) = none
returned_state stuck = none

-- Who is there when a function of the loop returns: whether the client is, and the jobs.
abbrev left_over : Ended → Option (Bool × List ℕ)
left_over e =
    Option.map
      (λ t. (elim (client_at 3 t) [ none ↦ false | some conn ↦ true ], map (λ j. j.0) t.cgi_jobs))
      (returned_state e)

roomy-Tracked : Tracked roomy
roomy-Tracked = record { ascending = (omega arith, tt); bounded = omega arith }

-- The client runs no script, and `send` takes all that it is given: the five bytes that are there and
-- the 272 of the error page.
abbrev idle : Loop
idle = record roomy { cgi_jobs = [] }

abbrev sending : System
sending = record system { sends = λ asked fd. some 277 }

close_timed_out_clients-Absent_example :
    Returns (λ t. client_at 3 t ≡ none) (close_timed_out_clients sending idle)
unfolding lookup is_stale Connection.is_timed_out Connection.create
close_timed_out_clients-Absent_example =
    close_timed_out_clients-Absent sending idle 3 roomy_conn roomy-Tracked refl refl

clients_returned : left_over (close_timed_out_clients sending idle) ≡ some (false, [])
unfolding close_timed_out_clients webserer_core.Manager.timed_out_fds is_stale Connection.create
    Connection.is_timed_out lookup Buffer.append Buffer.append_within
    webserer_core.Handler.Replies.send_error Buffer.size webserer_core.Response.reason_phrase
    Buffer.ensure_capacity Buffer.grow Buffer.maybe_compact webserer_core.Tables.insert
    Buffer.extend Buffer.is_empty Connection.send Buffer.consume Buffer.compact Buffer.reset
    webserer_core.Loop.Writes.active_job webserer_core.Loop.Writes.after_writing
    webserer_core.Loop.Closing.close_client webserer_core.Loop.Closing.jobs_of
    webserer_core.Manager.close_connection webserer_core.Tables.erase
    webserer_core.Request.keep_alive webserer_core.Base.equal webserer_core.Text.str_tolower
    webserer_core.Request.find
clients_returned = refl

close_timed_out_cgi_jobs-lookup_example :
    Returns
      (λ t. (r : ℕ) → lookup r t.cgi_jobs ≡ unless_expired 100 (lookup r roomy.cgi_jobs))
      (close_timed_out_cgi_jobs system roomy)
close_timed_out_cgi_jobs-lookup_example =
    close_timed_out_cgi_jobs-lookup system roomy (omega arith, tt)

jobs_returned : left_over (close_timed_out_cgi_jobs system roomy) ≡ some (true, [])
unfolding close_timed_out_cgi_jobs create_job lookup webserer_core.Loop.Ended.answer_error
    Buffer.append Buffer.append_within webserer_core.Handler.Replies.send_error Buffer.size
    webserer_core.Response.reason_phrase Connection.create Buffer.ensure_capacity Buffer.grow
    Buffer.maybe_compact webserer_core.Tables.insert webserer_core.Loop.rearm_client
    webserer_core.Tables.erase
jobs_returned = refl

-- Of the children 70, 71 and 72 the last two are young, and 71 has ended.
abbrev reaping : System
reaping = record system { still_runs = λ asked pid. not (pid == 71) }

abbrev three_killed : Loop
three_killed = record start { pending_reap = (70, 20) ∷ (71, 90) ∷ (72, 95) ∷ [] }

reap_pending-children_that_example :
    (reap_pending reaping three_killed).pending_reap ≡ (72, 95) ∷ []
reap_pending-children_that_example =
    reap_pending-children_that reaping (λ pid. not (pid == 71)) three_killed (λ n pid. refl)

-- The first `send` takes two bytes, the second fails.
abbrev two_then_none : System
two_then_none = record system { sends = λ asked fd. if asked == 0 then some 2 else none }

Sends-two : Sends two_then_none
Sends-two asked fd n e = elim (Bool-cases (asked == 0)) [
  | inl z ↦ let r = rw z at e in let k : 2 ≡ n = cc in omega (arith, k)
  | inr z ↦ absurd (let r = rw z at e in cc)
]

send_loop-Sent_example :
    (t : Loop) × (send_loop two_then_none 5 3 start ≡ done t)
    × Sent two_then_none 3 2 (codes "hello") t
unfolding lookup Buffer.content Buffer.size accepted
send_loop-Sent_example =
    send_loop-Sent two_then_none 3 writing_conn start Sends-two refl
      (holding-Sound (codes "hello") (omega arith))

plus_each-build_cgi_args_example :
    let args = build_cgi_args (codes "/bin/sh") (codes "./a.sh") (codes "a+b") in
    (take 2 args ≡ codes "/bin/sh" ∷ codes "./a.sh" ∷ [])
    × (plus_each (drop 2 args) ≡ codes "+a+b")
    × All NoPlus (drop 2 args)
plus_each-build_cgi_args_example =
    plus_each-build_cgi_args (codes "/bin/sh") (codes "./a.sh") (codes "a+b") refl
      (refl, (refl, (refl, tt)))

resolve_cgi_request-path_requires_example :
    is_some (resolve_cgi_request (asking (codes "GET") (codes "/img/a.py")) server)
    ≡ path_requires_cgi_body_spool (asking (codes "GET") (codes "/img/a.py")) server
resolve_cgi_request-path_requires_example =
    resolve_cgi_request-path_requires (asking (codes "GET") (codes "/img/a.py")) server

abbrev sent_body : Bytes
sent_body = codes "2\r\nab\r\n0\r\n\r\n"

sent_body-Due : Due (holding sent_body) (posting 0) (chunks (codes "ab" ∷ []) ++ last_chunk)
unfolding webserer_core.Request.create Buffer.content webserer_core.Cgi.Output.write_chunk
    webserer_core.Cgi.Output.print_hex
sent_body-Due = record {
  reading = posting-Reading 0 sent_body (omega arith);
  no_chunk = refl;
  no_trailing = refl;
  holds = refl;
}

parse_chunked-write_chunk_example :
    (b : Buffer) × (after : HttpRequest) × (parse_chunked (holding sent_body) (posting 0)
      ≡ returned (b, after))
    × Decoded (posting 0) (codes "ab") [] b after
unfolding webserer_core.Request.create
parse_chunked-write_chunk_example =
    parse_chunked-write_chunk (codes "ab" ∷ []) (holding sent_body) (posting 0) (omega arith, tt)
      sent_body-Due (omega arith)

answer_size : leb (length (concat (response system writing_conn 0))) 1000 ≡ true
unfolding lookup webserer_core.Handler.Serve.handle Connection.create
    webserer_core.Handler.close_segment webserer_core.Config.match_location
    webserer_core.Config.covers webserer_core.Base.equal
    webserer_core.Handler.Replies.send_error_internal webserer_core.Handler.Replies.load_error_page
    webserer_core.Handler.Replies.print_nat webserer_core.Handler.Replies.status_line
    webserer_core.Response.reason_phrase webserer_core.Response.connection_header
    webserer_core.Request.keep_alive webserer_core.Text.str_tolower webserer_core.Request.find
answer_size = refl

start-Holds : Holds 3 (codes "hello") 100 (length (concat (response system writing_conn 0))) start
unfolding lookup Buffer.content
start-Holds = record {
  conn = writing_conn;
  there = refl;
  valid = holding-IsValid (codes "hello") (omega arith);
  content_is = refl;
  limit_is = refl;
  memory =
      let k : length (concat (response system writing_conn 0)) ≤ 1000 =
        ground (arith, answer_size) in
      omega (arith, k);
}

respond-Holds_example :
    let answer = concat (response system writing_conn 0) in
    (5 + length answer ≤ 100
      → (t : Loop) × (respond system 3 start ≡ done t) × Holds 3 (codes "hello" ++ answer) 100 0 t)
    × (100 < 5 + length answer → (t : Loop) × (respond system 3 start ≡ raised t))
unfolding lookup
respond-Holds_example =
    respond-Holds system 3 100 writing_conn (codes "hello") start refl start-Holds (omega arith)
