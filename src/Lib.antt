-- ===== src/Lib.antt =====
-- CxxServer (include/core, source/core): an asynchronous socket server and client library over asio.
--
-- A `Service` owns asio's io services and the threads that run them, and hands the io services out in
-- turn. A `Tcp::Server` accepts connections; each is a `Tcp::Session`, which the server keeps in a table,
-- and which tells the server when it connects and disconnects. A `Tcp::Client` connects to a server.
-- Session and client move bytes through two buffers: `sendAsync` appends to the main buffer, and `trySend`
-- swaps it with an empty flush buffer, which it hands to asio piece by piece. `SSL::Session` and
-- `SSL::Client` are the same over a stream that is encrypted after a handshake. All handlers of an object
-- run in its strand, or in an io service with one thread.
--
-- A method that mutates `*this` is a function from the object's record to a new one, beside the method's
-- result; a record's fields are the members of the class, without the leading underscore. What is handed
-- to asio stands in lists until it happens: `posted` (handlers), `reads`, `writes`, `connects`, `accepts`,
-- `handshakes`, `shutdowns` (operations not yet completed); `calls` lists the callbacks and the calls of
-- the socket, newest first. Each component has a type of events (a call by a user, a posted handler that
-- runs, an operation that completes with any outcome) and a function `step`; an ordering of handlers is a
-- list of events.
--
--   Common, Common/*: shared names, tests on numbers, 64-bit arithmetic, lists
--   Asio: error codes, executors and buffers, as the source uses them
--   Session, Session/Handlers, Session/System: source/core/tcp/tcp_session.cxx; the calls of its users, the
--     completion handlers and `connect`, and the events. Session/Sync: the blocking calls
--   Session/Cases, Invariant, Preserve, Stream, Writes, Pipe, Drain, Progress, Lifetime, Limits, Keeps, Closing, SendLimit,
--     Serial: proofs about the session; Session/Pipe has what is left of the bytes of a session that disconnects,
--     Session/Progress the end of sending, Session/Keeps what no event moves
--   Client, Client/Handlers, Client/System: source/core/tcp/tcp_client.cxx, likewise. Client/Sync, Timed: the blocking calls
--   Client/Cases, Connect, Invariant, Whole, Stream, Unlimited, Limit, Resend, Reconnect, Stale: proofs about the client
--   Wait: the condition variable and the two handlers of the blocking calls of both. Wait/Ended: what those of the client
--     read when they go on
--   Server, Server/Table, Server/Table/Entries, Server/System: source/core/tcp/tcp_server.cxx, its `std::map` of sessions, events
--   Server/Kinds: the interface of a server to its sessions, a record of operations, and the laws that the proofs
--     about the server use. Server/Tcp: plain sessions fill it
--   Server/Sessions, Sound, Preserve, Settle, Registered, Accepting, Stopped, Drained, Leaving, Emptied, Restart, Reopen:
--     proofs about the server; Server/Sound has what holds of the sessions that it keeps
--   Ssl/Session: source/core/tcp/ssl_session.cxx, on top of Session. Ssl/Handshake, Awake: proofs about it
--   Ssl/Client: source/core/tcp/ssl_client.cxx, on top of Client. Ssl/Keeps, Flags, Shaken, Failing: proofs
--     about it
--   Ssl/Server: source/core/tcp/ssl_server.cxx, its constructors and `newSession`; SSL sessions fill the interface of
--     Server, and its theorems hold of them
--   Service: include/core/service.hxx and source/core/service.cxx; Service/Running has its threads' loop
--   Service/Rotation: proofs about the round robin
--   Timer: source/core/timer.cxx, with the time last handed to asio's timer. Timer/System: its events, and proofs
--   Util, Util/CacheView: `fastItoa`, and `CacheView` with its comparisons, of include/core/util.hxx. Util/Order:
--     proofs about them
--   Memory: `HandlerMemory` of include/core/memory.hxx
--   Echo/Session, Echo/Client: the classes of performance/echo_tcp_server.cxx and performance/echo_tcp_client.cxx, and
--     those over SSL, on top of Session and Client. Echo/Server: the sessions of the echo servers. Echo/Stream: proofs
--     about the session. Echo/Recorded: the echo server with a record of each session's bytes, and proofs about it.
--     Echo/Link: a client and an echo session at the two ends of a connection. Echo/Carried, Returns: proofs about it
--   Echo/Traffic: the EchoClient within the client's handlers, which call its callbacks. Echo/Circuit: it and an echo
--     session at the two ends of a connection. Echo/Doubled, Answers, Balance, Reading, Circulation, Begun, Benchmark:
--     proofs about them. Echo/Report: what performance/echo_tcp_client.cxx prints at its end, and proofs about it
--   Echo/Secure: the EchoClient of performance/echo_ssl_client.cxx within the handlers of SSL::Client, and proofs about it
--   */Examples, Echo/RoundTrips: tests, and the theorems at concrete inputs
--
-- The overrides by which SSL::Session and SSL::Client differ (`isConnectionComplete`, `isReady`, `err`,
-- `disconnectAsync`) are the parameter `Virtuals` of the session and of the client; `tcp` is the plain
-- one, and Ssl has those of the SSL classes, which depend on their flags. The callbacks are taken as they
-- are declared, with empty bodies, and are recorded in `calls`; those of the echo programs are in Echo.
-- `assert`s are off, as in a release build: the early return after each is modelled. Sizes and counters
-- are of 64 bits and wrap. The answers of asio and of the socket (errors, sizes of buffers, bytes read and
-- written, ids) are arguments of the functions and of the events, so that a theorem holds of all of them;
-- asio reports at most the bytes that it was given. An event that cannot occur changes nothing. A
-- session's record has the server's counters of bytes, which Server/System copies in before the session's
-- events and out after them, and there a session that disconnects unregisters from the server. The calls of
-- the blocking `send` and `receive` are not events of a session: they are functions of their own. `sendAsync`
-- tests the connection before it takes the lock of its buffer; the test and the locked part are one step here.
--
-- The loops that wait for another thread (`reconnectAsync`, `Service::restart`, `Service::start`, `Service::stop`)
-- take their number of rounds as fuel, with what the other threads do in a round as a parameter, and give
-- `none` while they have not ended. For `Service` two rounds are proved to be enough, for `reconnectAsync`
-- two more than the handlers posted before it. The server's `restart` takes what other threads do before each
-- test of its loop as a list, and what they do between the loop and `start`; it gives `none` when the loop has not
-- ended after the tests of the list. `fastItoa`'s loop takes the size of its buffer as fuel, and `none` is a write
-- outside of the buffer. The loop of the echo client's `onReceive` takes its number of rounds as fuel; one more than
-- the bytes that are not answered are enough, since each round answers some.
--
-- Not modelled: asio, its SSL stream, OpenSSL and the operating system; exceptions that the socket
-- options, the acceptor and the constructors throw; the accessors, and those of them that ask the socket or
-- asio's timer (sizes of the socket's buffers, the expiry of a timer); `timerNotify`, which has no definition;
-- the main programs of the benchmarks but for that report; the tests.
pub mod Common
pub mod Asio
pub mod Wait
pub mod Session
pub mod Client
pub mod Server
pub mod Util
pub mod Memory
pub mod Ssl
pub mod Echo
pub mod Timer
pub mod Service
