-- ===== src/Lib.antt =====
-- webserer_core: an HTTP/1.1 server in C++. This library models the part of it that turns the bytes
-- of a client into a request, the part that turns a request into a response, the configuration, and
-- the event loop that runs them, with the scripts (CGI) it starts.
--
-- A connection keeps a read buffer, a write buffer and the request being read. Whenever bytes have
-- come in, `HttpParser::feed` runs the stages that the state of the request asks for: the request
-- line, the headers, then a counted or a chunked body. Each stage consumes what it understands of
-- the read buffer and leaves the rest for the next call; an error is a status code in the request.
-- The location of the path decides how large a body may be.
--
-- `ResponseHandler::handle` takes a request that is complete: it normalises the path, finds the
-- location, and serves a file, lists a directory, redirects, stores an upload or removes a file.
-- `API_conf` reads the configuration that both work with: passes over the text make tokens, a parser
-- with a loop for each kind of block makes servers with their locations, and a validation looks at
-- the result and at the files that it names.
--
-- `EventLoop::run` waits for events and calls a handler for each: for a listener, for a client, or
-- for the output of a script. Handlers read and write connections through the `ConnectionManager`,
-- start scripts, pass their output on as chunks, and register descriptors with references that are
-- deleted only between batches of events. Behind each batch the loop closes what is timed out and
-- waits for children that were killed.
--
-- The files and the code they are about:
--   Buffer       src/Buffer.cpp, Headers/buffer.hpp: `append`, `consume`, `earase`, ...
--     Growth     the loop of `_ensureCapacity`; Queue: the buffer as a bounded queue;
--     Client     what the parser relies on
--   Text         src/HttpParser.cpp: `str_tolower`, `str_trim`, `find_crlf`, the character classes
--   Uri          src/HttpParser.cpp: `pctDecode`, `cleanPath`
--   Config       conf/serverConfig.cpp: `Server::matchLocation`; the data of conf/locationConfig.hpp
--   Host         src/HttpParser.cpp: `validate_host`
--   Request      src/HttpRequest.cpp, Headers/HttpRequest.hpp
--   Connection   src/Connection.cpp, Headers/Connection.hpp; `override_host`
--   RequestLine  src/HttpParser.cpp: the state machine of `_parseRequestLine`
--   Target       src/HttpParser.cpp: the target in `_parseRequestLine`, and `_validatePath`
--   Parser       src/HttpParser.cpp: `_parseRequestLine` as a whole
--   Headers      src/HttpParser.cpp: `_parseHeaders`
--   Body         src/HttpParser.cpp: `_parseBody`
--   Chunked      src/HttpParser.cpp: `_parseChunked`
--   Feed         src/HttpParser.cpp: `feed`, `_applyLocationBodyLimit`
--     Left       what a call leaves in the read buffer
--   Tables       `std::map` with descriptors as keys, as the manager and the event loop use it
--   Manager      src/ConnectionManager.cpp: the connections by descriptor
--   Cgi          cgi/CgiHandler.cpp, cgi/CgiHelpers.cpp: program, arguments, environment of a script;
--     Output     src/EventLoop/EventLoop_helper_cgi.cpp: the head of a script's output, and chunks;
--     Args, Paths, Chunks  proofs about these
--   Loop         src/EventLoop/, Headers/EventLoop.hpp, Headers/EventRef.hpp, Headers/CgiJob.hpp:
--                the state, and the references of descriptors
--     Closing    cgi/CgiCleanning.cpp and `_closeClient`; Jobs: `_finishCgiJob`, `_failCgiJob`,
--                `_handleCgiEvent`; Launch: `_ApiStartCgi`; Spool: bodies kept in files;
--     Reads      `_handleRead`, `_tryDispatchComplete`; Writes: `_handleWrite`; Clients:
--                `_handleAccept`, `_handleClientEvent`; Turns: `_dispatch`, `run`, `stop`;
--     Starting   the constructor, and the part of src/main.cpp that makes and runs the loop;
--     Ended      what a handler comes to; Stable: what every handler keeps if its parts keep it;
--     Bounded, References, Served, Alive, Gone, Overdue, Expired, Reaping, Sending, Responding  proofs
--   Response     src/ResponseHandler_helper.cpp: escaping, MIME types, reason phrases
--   Handler      src/ResponseHandler.cpp: `normalizePath`, `sanitizeFilename`, multipart bodies
--     Replies    src/ResponseHandler.cpp, src/ResponseLoader.cpp: the texts of responses;
--     Serve      `handle`, `_handlePost`, `_handleDelete`, `_resolveFsPath`; Changes, Below and
--                Escape under it: which files are touched
--   Lexing       conf/parsing.cpp, conf/LexerConfig.cpp: from the text to tokens
--   Numerals     conf/httpConfig.cpp, conf/server_parser.cpp: `safe_strtol`, `is_valid_host`
--   Sizes        conf/parserConf.cpp: `ft_strtod`, `parse_cl_mx_bd_sz`
--   Settings     conf/server_parser.cpp, conf/location_parser.cpp, conf/parserConf.cpp,
--                conf/eventsConfig.cpp: the functions `parseDirective`
--     Defaults   conf/locationConfig.cpp, conf/serverConfig.cpp: `set_default_conf`
--   Blocks       the same files as Settings: the loops over the tokens of a block, `parsing_lexems`
--   Validation   conf/parsing.cpp: `validate_final_config`; src/API_conf.cpp
--   Base         names and lemmas that the others share; Examples: concrete runs
--
-- How the code is read. A byte is a natural number, a string a list of bytes. `size_t` is a natural
-- number whose sums, products and differences wrap at 2 ^ 64 where the code computes them. Code that
-- changes an object becomes a function from the old object to the new one. A call that can throw or
-- fail to end answers with an `Outcome`: `returned`, `thrown` or `hung`. The state machines are step
-- functions on records of the local variables.
--
-- Bounds. A vector holds at most 2 ^ 63 bytes. The loop of `_ensureCapacity` is given as many rounds
-- as bytes are needed, since it doubles a positive capacity; the loops over header lines and over
-- chunks are given one round more than the buffer has bytes, since a round that goes on consumes
-- something.
--
-- The loops of the configuration parser are given one round more than there are tokens, since each
-- round takes a token. The loop of `write` calls is given as many rounds as there are bytes. A number
-- is printed with 20 digits at most, which a `size_t` does not exceed. The loop of `send` calls of the
-- event loop is given as many rounds as the write buffer has bytes, and that of `write` calls for a
-- body in a file as many as the body has: each call that goes on takes a byte at least. Where calls
-- of `send` take nothing, which a socket does not do, the rounds may run out; the outcome is then
-- `stuck`. The other loops of the event loop go over lists: of what `accept` and `recv` return before
-- they fail, of events, of jobs.
--
-- An event handler comes to one of five ends (`Ended`): it returns, throws `BodyLimitException`,
-- throws another exception, uses a connection that is no longer there (`dangling`), or does not end.
-- A pointer to a connection is its descriptor; a pointer to an `EventRef` is a number that is never
-- used again, so that an event may lead to an object already deleted.
--
-- Parameters: what the file system answers (`stat` in `parse_request_line`; the records `Files` and
-- `FileSystem`), the clock, `strftime`, the socket calls, and the arithmetic of `double` (`Doubles`).
-- A path that reaches the file system in `handle` ends at its first zero byte. How the standard
-- library prints a number is written out, since responses and chunks have numbers in them. What the system
-- answers to the event loop is the record `System`; the answers are numbered, so that the same
-- question may be answered in another way later. `Programs` is what is asked about the files and the
-- environment of a script, and `scan` how a string stream reads the status of a script's output.
--
-- Not modelled: the logger, the listening sockets, the signals, the default of `httpConfig`,
-- `_httpDate`, the destructors of the event loop and the manager, failures of `epoll_wait`, and
-- the child of `fork` up to `execve` but for what it runs; these are calls of the system, log lines or
-- code that is never called. Warnings and error messages are left out; a parse error or a fatal error
-- of the configuration is `thrown`. Failing allocations are left out, and the system's limits on
-- files. A signal that calls `stop` in the middle of a handler is not modelled.
mod Base
pub mod Buffer
pub mod Text
pub mod Uri
pub mod Config
pub mod Host
pub mod Request
pub mod Connection
pub mod RequestLine
pub mod Tables
pub mod Target
pub mod Parser
pub mod Headers
pub mod Body
pub mod Chunked
pub mod Feed
pub mod Manager
pub mod Response
pub mod Handler
pub mod Cgi
pub mod Loop
pub mod Lexing
pub mod Numerals
pub mod Sizes
pub mod Settings
pub mod Blocks
pub mod Validation
mod Examples
