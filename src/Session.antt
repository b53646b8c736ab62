-- ===== src/Session.antt =====
-- Tcp::Session of include/core/tcp/tcp_session.hxx and source/core/tcp/tcp_session.cxx: one accepted
-- connection. A method that mutates `*this` returns the new session beside its result. Handlers that
-- the source hands to asio stand in `posted`, `reads` and `writes` until they run.
pub mod Handlers
pub mod System
mod Cases
pub mod Invariant
pub mod Preserve
pub mod Lifetime
pub mod Limits
pub mod Closing
pub mod Keeps
pub mod SendLimit
pub mod Serial
pub mod Drain
pub mod Progress
pub mod Sync
pub mod Stream
pub mod Writes
pub mod Pipe
mod Examples
use cxx_server.Common.{
  ℕ, Bool, true, false, not, ◌&&◌, ◌||◌, List, [], ◌∷◌, ◌++◌, ltb, ◌==◌, if◌then◌else◌, add64,
  length, is_empty, drop,
}
use cxx_server.Asio.{ErrorCode, is_disconnect, Executor, executor_for, Buffer, size}

-- The lambdas that the session posts or dispatches.
pub data Task : Type 0 where
  send_task disconnect_task : Task

-- What the session calls beside asio's asynchronous operations: its virtual callbacks, those of its
-- server, and the socket.
pub data Call : Type 0 where
  on_connect on_disconnect on_empty : Call
  -- those of SSL::Session and its server
  on_handshaked server_handshaked : Call
  on_receive : List ℕ → Call
  on_send : ℕ → ℕ → Call
  on_err : ErrorCode → Call
  server_connect server_disconnect close : Call
  keep_alive no_delay : Bool → Call
  -- `_server->unregisterSession(id())`, dispatched to the server's executor
  unregister : ℕ → Call

-- The overrides by which SSL::Session differs: `isConnectionComplete`, as a function of
-- `isConnected`, and the codes that `err` drops.
pub record Virtuals : Type 0 where
  pub complete : Bool → Bool
  pub ignored : ErrorCode → Bool

abbrev pub tcp : Virtuals
tcp = record { complete = λ connected. connected; ignored = is_disconnect }

-- The fields of the class; of `_receive_buff` its size, since its bytes only pass through it, and
-- the two counters of the server that the session adds to. The last four fields are what it has asked
-- of the outside: the handlers posted (oldest first), the asynchronous operations not yet completed
-- (oldest first), and the calls made (newest first).
pub record Session : Type 0 where
  pub id : ℕ
  pub strand_needed : Bool
  pub connected : Bool
  pub bytes_pending : ℕ
  pub bytes_sending : ℕ
  pub bytes_sent : ℕ
  pub bytes_received : ℕ
  pub server_sent : ℕ
  pub server_received : ℕ
  pub receiving : Bool
  pub receive_limit : ℕ
  pub receive_buff : ℕ
  pub sending : Bool
  pub send_limit : ℕ
  pub send_buff_main : List ℕ
  pub send_buff_flush : List ℕ
  pub send_flush_offset : ℕ
  pub posted : List (Executor × Task)
  pub reads : List (Executor × ℕ)
  pub writes : List (Executor × List ℕ)
  pub calls : List Call

abbrev pub executor : Session → Executor
executor s = executor_for s.strand_needed

-- The constructor; the counters given are the server's.
unfoldable pub new : ℕ → Bool → ℕ → ℕ → Session
new id strand_needed server_sent server_received = record {
  id = id;
  strand_needed = strand_needed;
  connected = false;
  bytes_pending = 0;
  bytes_sending = 0;
  bytes_sent = 0;
  bytes_received = 0;
  server_sent = server_sent;
  server_received = server_received;
  receiving = false;
  receive_limit = 0;
  receive_buff = 0;
  sending = false;
  send_limit = 0;
  send_buff_main = [];
  send_buff_flush = [];
  send_flush_offset = 0;
  posted = [];
  reads = [];
  writes = [];
  calls = [];
}

pub set_receive_buff_limit : ℕ → Session → Session
set_receive_buff_limit limit s = record s { receive_limit = limit }

pub set_send_buff_limit : ℕ → Session → Session
set_send_buff_limit limit s = record s { send_limit = limit }

abbrev pub call : Call → Session → Session
call c s = record s { calls = c ∷ s.calls }

unfoldable pub err : Virtuals → ErrorCode → Session → Session
err v e s = if v.ignored e then s else call (Call.on_err e) s

unfoldable pub clear_buffs : Session → Session
clear_buffs s = record s {
  send_buff_main = [];
  send_buff_flush = [];
  send_flush_offset = 0;
  bytes_pending = 0;
  bytes_sending = 0;
}

abbrev pub enqueue : Task → Session → Session
enqueue t s = record s { posted = s.posted ++ (executor s, t) ∷ [] }

abbrev pub async_write_some : List ℕ → Session → Session
async_write_some data' s = record s { writes = s.writes ++ (executor s, data') ∷ [] }

abbrev pub async_read_some : Session → Session
async_read_some s = record s { reads = s.reads ++ (executor s, s.receive_buff) ∷ [] }

-- The handler that `disconnect` posts or dispatches.
unfoldable pub disconnect_handler : Session → Session
disconnect_handler s =
    let closed = record (call Call.close s) {
      connected = false;
      receiving = false;
      sending = false;
    } in
    let told = call Call.server_disconnect (call Call.on_disconnect (clear_buffs closed)) in
    if s.connected then call (Call.unregister s.id) told else s

-- A dispatched handler runs at once when the caller is already inside the executor, and is queued
-- otherwise; a posted one is always queued. The first flag is `dispatch`, the second says whether the
-- caller runs inside.
unfoldable pub disconnect : Bool → Bool → Session → Session × Bool
disconnect dispatch inside s =
    if s.connected
    then (if dispatch && inside then disconnect_handler s else enqueue Task.disconnect_task s, true)
    else (s, false)

unfoldable pub try_receive : Virtuals → Session → Session
try_receive v s =
    if s.receiving || not (v.complete s.connected)
    then s
    else async_read_some (record s { receiving = true })

abbrev pub receive_async : Virtuals → Session → Session
receive_async v s = try_receive v s

-- `if (_send_buff_flush.empty()) { … }` of `trySend`.
unfoldable pub swap_buffs : Session → Session
swap_buffs s =
    if is_empty s.send_buff_flush
    then record s {
      send_buff_flush = s.send_buff_main;
      send_buff_main = s.send_buff_flush;
      send_flush_offset = 0;
      bytes_pending = 0;
      bytes_sending = add64 s.bytes_sending (length s.send_buff_main);
    }
    else s

unfoldable pub start_send : Session → Session
start_send s =
    if is_empty s.send_buff_flush
    then call Call.on_empty s
    else async_write_some (drop s.send_flush_offset s.send_buff_flush) (record s { sending = true })

unfoldable pub try_send : Virtuals → Session → Session
try_send v s = if s.sending || not (v.complete s.connected) then s else start_send (swap_buffs s)

-- Running a handler that was posted.
unfoldable pub perform : Virtuals → Task → Session → Session
perform v Task.send_task s = try_send v s
perform v Task.disconnect_task s = disconnect_handler s

-- The part of `sendAsync` under `_send_lock`, and the dispatch of `trySend` that follows it.
unfoldable pub append : Virtuals → Bool → List ℕ → Session → Session × Bool
append v inside data' s =
    let multiple_sends = is_empty s.send_buff_main || is_empty s.send_buff_flush in
    let main = s.send_buff_main ++ data' in
    let filled = record s { send_buff_main = main; bytes_pending = length main } in
    let total = add64 (length s.send_buff_main) (length data') in
    if ltb s.send_limit total && ltb 0 s.send_limit
    then (err v ErrorCode.no_buffer_space s, false)
    else if multiple_sends
    then (if inside then try_send v filled else enqueue Task.send_task filled, true)
    else (filled, true)

unfoldable pub send_async : Virtuals → Bool → Buffer → Session → Session × Bool
send_async v inside buffer s =
    if not (v.complete s.connected)
    then (s, false)
    else if size buffer == 0
    then (s, true)
    else (elim buffer [ Buffer.null n ↦ (s, false) | Buffer.bytes data' ↦ append v inside data' s ])
