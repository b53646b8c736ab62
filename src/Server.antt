-- ===== src/Server.antt =====
-- Tcp::Server of include/core/tcp/tcp_server.hxx and source/core/tcp/tcp_server.cxx: its acceptor, and the
-- table of the sessions that it has accepted. What is handed to asio stands in `posted` and `accepts`
-- until it runs or completes.
pub mod Table
pub mod Kinds
pub mod System
pub mod Sessions
pub mod Sound
mod Preserve
mod Settle
pub mod Tcp
pub mod Registered
pub mod Accepting
mod Stopped
pub mod Drained
pub mod Leaving
pub mod Emptied
pub mod Restart
pub mod Reopen
mod Examples
use cxx_server.Common.{
  ℕ, zero, suc, Bool, true, false, not, ◌&&◌, List, [], ◌∷◌, ◌++◌, Option, none, some, ◌==◌,
  if◌then◌else◌,
}
use cxx_server.Asio.{ErrorCode, is_disconnect, Executor, executor_for, Buffer, size}
use cxx_server.Server.Table.{emplace, erase, find, each}
use cxx_server.Server.Kinds.{Kind}

-- The lambdas that the server and its sessions post or dispatch to its executor.
pub data Task : Type 0 where
  start_task stop_task disconnect_all_task : Task
  unregister_task : ℕ → Task

-- What the server calls: its virtual callbacks, and the acceptor.
pub data Call : Type 0 where
  on_start on_stop : Call
  on_err : ErrorCode → Call
  open_acceptor bind listen close reuse_address reuse_port : Call

-- The fields of the class; `accepts` are the `async_accept`s not yet completed.
pub record Server (S : Type 0) : Type 0 where
  pub strand_needed : Bool
  pub addr : List ℕ
  pub port : ℕ
  pub session : Option S
  pub started : Bool
  pub sessions : List (ℕ × S)
  pub bytes_pending : ℕ
  pub bytes_received : ℕ
  pub bytes_sent : ℕ
  pub keep_alive : Bool
  pub no_delay : Bool
  pub reuse_addr : Bool
  pub reuse_port : Bool
  pub posted : List (Executor × Task)
  pub accepts : List Executor
  pub calls : List Call

module _ {S : Type 0} where
  -- The constructors; the one from a protocol leaves the address empty.
  unfoldable pub new_server : Bool → List ℕ → ℕ → Server S
  new_server strand_needed addr port = record {
    strand_needed = strand_needed;
    addr = addr;
    port = port;
    session = none;
    started = false;
    sessions = [];
    bytes_pending = 0;
    bytes_received = 0;
    bytes_sent = 0;
    keep_alive = false;
    no_delay = false;
    reuse_addr = false;
    reuse_port = false;
    posted = [];
    accepts = [];
    calls = [];
  }

  abbrev pub executor : Server S → Executor
  executor s = executor_for s.strand_needed

  abbrev pub call : Call → Server S → Server S
  call c s = record s { calls = c ∷ s.calls }

  abbrev pub enqueue : Task → Server S → Server S
  enqueue t s = record s { posted = s.posted ++ (executor s, t) ∷ [] }

  unfoldable pub start : Server S → Server S × Bool
  start s = if s.started then (s, false) else (enqueue Task.start_task s, true)

  pub stop : Server S → Server S × Bool
  stop s = if s.started then (enqueue Task.stop_task s, true) else (s, false)

  -- `while (!isStarted()) yield();`: each of `others` is what other threads do before a test of the loop; `none` is
  -- a wait that has not ended after these tests.
  pub spin : List (Server S → Server S) → Server S → Option (Server S)
  spin [] s = none
  spin (p ∷ ps) s = elim (p s).started [ true ↦ some (p s) | false ↦ spin ps (p s) ]

  -- `between` is what other threads do after the loop, before `start` reads `isStarted()` again.
  pub restart :
      List (Server S → Server S) → (Server S → Server S) → Server S → Option (Server S × Bool)
  restart others between s =
      let (t, done) = stop s in
      elim done [
        | false ↦ some (t, false)
        | true ↦ (elim (spin others t) [ none ↦ none | some u ↦ some (start (between u)) ])
      ]

  pub err : ErrorCode → Server S → Server S
  err e s = if is_disconnect e then s else call (Call.on_err e) s

  -- The options of the acceptor that are set.
  unfoldable pub prepare : Server S → Server S
  prepare s =
      let opened = call Call.open_acceptor s in
      let addressed = if s.reuse_addr then call Call.reuse_address opened else opened in
      let shared = if s.reuse_port then call Call.reuse_port addressed else addressed in
      call Call.listen (call Call.bind shared)

  unfoldable pub find_session : ℕ → Server S → Option S
  find_session id s = find id s.sessions

  pub unregister_session : ℕ → Server S → Server S
  unregister_session id s = record s { sessions = erase id s.sessions }

  abbrev clear_multicast_buffs : Server S → Server S
  clear_multicast_buffs s = record s { bytes_pending = 0 }

module _ {S E : Type 0} (k : Kind S E) where
  -- `accept`, whose callers are all inside the executor. The new session's id is `GenUuid()`'s.
  unfoldable pub accept : ℕ → Server S → Server S
  accept id s =
      let fresh = k.make id s.strand_needed s.bytes_sent s.bytes_received in
      if s.started
      then record s { session = some fresh; accepts = s.accepts ++ executor s ∷ [] }
      else s

  -- `registerSession` and `_session->connect()`: the session in the table is the one that connects. An id
  -- that the table has keeps its entry.
  unfoldable pub admit : ℕ → S → Server S → Server S
  admit space u s =
      let on = k.connect s.keep_alive s.no_delay space u in
      record s { sessions = emplace (k.id u) on s.sessions; session = some on }

  -- The completion handler of `async_accept`; `none` where the source dereferences an empty `_session`.
  unfoldable pub accept_handler : Option ErrorCode → ℕ → ℕ → Server S → Option (Server S)
  accept_handler (some e) space id s = some (accept id (err e s))
  accept_handler none space id s = elim s.session [
    | none ↦ none
    | some u ↦ some (accept id (admit space u s))
  ]

  -- The handler that `start` posts.
  unfoldable pub start_handler : ℕ → Server S → Server S
  start_handler id s =
      let on = record (prepare s) {
        bytes_pending = 0;
        bytes_received = 0;
        bytes_sent = 0;
        started = true;
      } in
      if s.started then s else accept id (call Call.on_start on)

  -- The function that `disconnectAll` dispatches.
  pub disconnect_sessions : Server S → Server S
  disconnect_sessions s =
      if s.started then record s { sessions = each k.disconnect s.sessions } else s

  pub disconnect_all : Bool → Server S → Server S × Bool
  disconnect_all inside s =
      if s.started
      then (if inside then disconnect_sessions s else enqueue Task.disconnect_all_task s, true)
      else (s, false)

  -- The handler that `stop` posts.
  pub stop_handler : Server S → Server S
  stop_handler s =
      let closed = record (call Call.close s) { session = none } in
      let alone = (disconnect_all true closed).0 in
      if s.started
      then call Call.on_stop (clear_multicast_buffs (record alone { started = false }))
      else s

  -- `multicast`; `inside id` says whether the caller is inside the executor of that session.
  pub multicast : (ℕ → Bool) → Buffer → Server S → Server S × Bool
  multicast inside (Buffer.null n) s = (s, s.started && n == 0)
  multicast inside (Buffer.bytes data') s =
      let send : S → S = λ u. k.send_async (inside (k.id u)) (Buffer.bytes data') u in
      if not s.started
      then (s, false)
      else if size (Buffer.bytes data') == 0
      then (s, true)
      else (record s { sessions = each send s.sessions }, true)
