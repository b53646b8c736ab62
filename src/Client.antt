-- ===== src/Client.antt =====
-- Tcp::Client of include/core/tcp/tcp_client.hxx and source/core/tcp/tcp_client.cxx. A method that
-- mutates `*this` returns the new client beside its result; what is handed to asio stands in `posted`,
-- `connects`, `reads` and `writes` until it runs or completes.
pub mod Handlers
pub mod System
pub mod Cases
pub mod Connect
pub mod Resend
pub mod Invariant
pub mod Whole
pub mod Stream
pub mod Unlimited
pub mod Limit
pub mod Reconnect
pub mod Stale
pub mod Sync
pub mod Timed
mod Examples
use cxx_server.Common.{
  ℕ, Bool, true, false, not, ◌&&◌, ◌||◌, List, [], ◌∷◌, ◌++◌, Option, none, some, ltb, ◌==◌,
  if◌then◌else◌, add64, length, is_empty,
}
use cxx_server.Asio.{ErrorCode, is_disconnect, Executor, executor_for, Buffer, size}

-- The lambdas that the client posts or dispatches.
pub data Task : Type 0 where
  send_task connect_task disconnect_task : Task

-- What the client calls beside asio's asynchronous operations: its virtual callbacks and the socket.
pub data Call : Type 0 where
  on_connect on_disconnect on_empty close cancel : Call
  -- that of SSL::Client
  on_handshaked : Call
  on_receive : List ℕ → Call
  on_send : ℕ → ℕ → Call
  on_err : ErrorCode → Call
  set_keep_alive set_no_delay : Bool → Call

-- The fields of the class, as for Tcp::Session; an endpoint is an address and a port.
pub record Client : Type 0 where
  pub id : ℕ
  pub strand_needed : Bool
  pub addr : List ℕ
  pub scheme : List ℕ
  pub port : ℕ
  pub endpoint : Option (List ℕ × ℕ)
  pub connecting : Bool
  pub connected : Bool
  pub bytes_pending : ℕ
  pub bytes_sending : ℕ
  pub bytes_sent : ℕ
  pub bytes_received : ℕ
  pub receiving : Bool
  pub receive_buff_limit : ℕ
  pub receive_buff : ℕ
  pub sending : Bool
  pub send_buff_limit : ℕ
  pub send_buff_main : List ℕ
  pub send_buff_flush : List ℕ
  pub send_flush_offset : ℕ
  pub keep_alive : Bool
  pub no_delay : Bool
  pub posted : List (Executor × Task)
  pub connects : List Executor
  pub shutdowns : List Executor
  pub reads : List (Executor × ℕ)
  pub writes : List (Executor × List ℕ)
  pub calls : List Call

abbrev pub executor : Client → Executor
executor s = executor_for s.strand_needed

-- The constructors; those from a scheme and from an endpoint delegate to the first.
unfoldable pub new : ℕ → Bool → List ℕ → ℕ → Client
new id strand_needed addr port = record {
  id = id;
  strand_needed = strand_needed;
  addr = addr;
  scheme = [];
  port = port;
  endpoint = none;
  connecting = false;
  connected = false;
  bytes_pending = 0;
  bytes_sending = 0;
  bytes_sent = 0;
  bytes_received = 0;
  receiving = false;
  receive_buff_limit = 0;
  receive_buff = 0;
  sending = false;
  send_buff_limit = 0;
  send_buff_main = [];
  send_buff_flush = [];
  send_flush_offset = 0;
  keep_alive = false;
  no_delay = false;
  posted = [];
  connects = [];
  shutdowns = [];
  reads = [];
  writes = [];
  calls = [];
}

unfoldable pub new_scheme : ℕ → Bool → List ℕ → List ℕ → Client
new_scheme id strand_needed addr scheme = record (new id strand_needed addr 0) { scheme = scheme }

unfoldable pub new_endpoint : ℕ → Bool → List ℕ × ℕ → Client
new_endpoint id strand_needed (addr, port) = new id strand_needed addr port

abbrev pub call : Call → Client → Client
call c s = record s { calls = c ∷ s.calls }

abbrev pub enqueue : Task → Client → Client
enqueue t s = record s { posted = s.posted ++ (executor s, t) ∷ [] }

abbrev pub async_write_some : List ℕ → Client → Client
async_write_some data' s = record s { writes = s.writes ++ (executor s, data') ∷ [] }

abbrev pub async_read_some : Client → Client
async_read_some s = record s { reads = s.reads ++ (executor s, s.receive_buff) ∷ [] }

-- What SSL::Client overrides: `isReady`, as a function of `isConnected`, the codes that `err` drops, and
-- `disconnectAsync(true)` as it is called from a handler.
pub record Virtuals : Type 0 where
  pub ready : Bool → Bool
  pub ignored : ErrorCode → Bool
  pub hang_up : Client → Client

unfoldable pub err : Virtuals → ErrorCode → Client → Client
err v e s = if v.ignored e then s else call (Call.on_err e) s

unfoldable pub clear_buffs : Client → Client
clear_buffs s = record s {
  send_buff_main = [];
  send_buff_flush = [];
  send_flush_offset = 0;
  bytes_pending = 0;
  bytes_sending = 0;
}

unfoldable pub disconnect : Client → Client × Bool
disconnect s =
    let closed = record (call Call.close s) {
      connecting = false;
      connected = false;
      receiving = false;
      sending = false;
    } in
    if s.connected then (call Call.on_disconnect (clear_buffs closed), true) else (s, false)

-- The first flag is `dispatch`, the second says whether the caller is inside the executor.
unfoldable pub disconnect_async : Bool → Bool → Client → Client × Bool
disconnect_async dispatch inside s =
    let cancelled = call Call.cancel s in
    if not s.connected || s.connecting then (s, false) else (
      if dispatch && inside
          then (disconnect cancelled).0
          else enqueue Task.disconnect_task cancelled,
      true,
    )

abbrev pub tcp : Virtuals
tcp = record {
  ready = λ connected. connected;
  ignored = is_disconnect;
  hang_up = λ s. (disconnect_async true true s).0;
}

unfoldable pub try_receive : Virtuals → Client → Client
try_receive v s =
    if s.receiving || not (v.ready s.connected)
    then s
    else async_read_some (record s { receiving = true })

abbrev pub receive_async : Virtuals → Client → Client
receive_async v s = try_receive v s

unfoldable pub swap_buffs : Client → Client
swap_buffs s =
    if is_empty s.send_buff_flush
    then record s {
      send_buff_flush = s.send_buff_main;
      send_buff_main = s.send_buff_flush;
      send_flush_offset = 0;
      bytes_pending = 0;
      bytes_sending = add64 s.bytes_sending (length s.send_buff_main);
    }
    else s

-- The whole of `_send_buff_flush` is written, whatever `_send_flush_offset` is.
unfoldable pub start_send : Client → Client
start_send s =
    if is_empty s.send_buff_flush
    then call Call.on_empty s
    else async_write_some s.send_buff_flush (record s { sending = true })

unfoldable pub try_send : Virtuals → Client → Client
try_send v s = if s.sending || not (v.ready s.connected) then s else start_send (swap_buffs s)

unfoldable pub append : Virtuals → Bool → List ℕ → Client → Client × Bool
append v inside data' s =
    let multiple_send_required = is_empty s.send_buff_main || is_empty s.send_buff_flush in
    let main = s.send_buff_main ++ data' in
    let filled = record s { send_buff_main = main; bytes_pending = length main } in
    let total = add64 (length s.send_buff_main) (length data') in
    if ltb s.send_buff_limit total && ltb 0 s.send_buff_limit
    then (err v ErrorCode.no_buffer_space s, false)
    else if multiple_send_required
    then (if inside then try_send v filled else enqueue Task.send_task filled, true)
    else (filled, true)

unfoldable pub send_async : Virtuals → Bool → Buffer → Client → Client × Bool
send_async v inside buffer s =
    if not (v.ready s.connected) || size buffer == 0
    then (s, false)
    else (elim buffer [ Buffer.null n ↦ (s, false) | Buffer.bytes data' ↦ append v inside data' s ])
