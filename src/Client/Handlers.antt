-- ===== src/Client/Handlers.antt =====
-- Connecting, and the completion handlers of Tcp::Client (source/core/tcp/tcp_client.cxx). Errors and the
-- size of the receive buffer (SO_RCVBUF) come from the socket.
use cxx_server.Common.{
  ℕ, zero, suc, Bool, true, false, ◌&&◌, ◌||◌, List, [], ◌∷◌, ◌++◌, Option, none, some, ltb, ◌==◌,
  if◌then◌else◌, add64, sub64, mul64, length, is_empty,
}
use cxx_server.Asio.{ErrorCode}
use cxx_server.Client.{
  Client, Virtuals, Call, Task, call, enqueue, executor, err, disconnect, disconnect_async,
  try_receive, try_send,
}

-- The socket options, buffers and counters of a new connection.
unfoldable pub set_up : ℕ → Client → Client
set_up space s =
    record (call (Call.set_no_delay s.no_delay) (call (Call.set_keep_alive s.keep_alive) s)) {
      receive_buff = space;
      bytes_pending = 0;
      bytes_sending = 0;
      bytes_received = 0;
      bytes_sent = 0;
      connected = true;
    }

unfoldable pub tell_empty : Client → Client
tell_empty s = if is_empty s.send_buff_main then call Call.on_empty s else s

unfoldable pub refuse : Virtuals → ErrorCode → Client → Client
refuse v e s = call Call.on_disconnect (err v e s)

abbrev pub with_endpoint : Client → Client
with_endpoint s = record s { endpoint = some (s.addr, s.port) }

-- `connect`; the error is that of the socket's `connect`.
unfoldable pub connect : Virtuals → Option ErrorCode → ℕ → Client → Client × Bool
connect v e space s =
    let t = with_endpoint s in
    let made : Client × Bool = elim e [
      | none ↦ (tell_empty (call Call.on_connect (set_up space t)), true)
      | some c ↦ (refuse v c t, false)
    ] in
    if s.connected then (s, false) else made

unfoldable pub connect_async : Client → Client × Bool
connect_async s =
    if s.connected || s.connecting then (s, false) else (enqueue Task.connect_task s, true)

-- The handler that `connectAsync` posts.
unfoldable pub connect_handler : Client → Client
connect_handler s =
    if s.connected || s.connecting
    then s
    else record (with_endpoint s) { connecting = true; connects = s.connects ++ executor s ∷ [] }

-- The completion handler of `async_connect`.
unfoldable pub connected_handler : Virtuals → Option ErrorCode → ℕ → Client → Client
connected_handler v e space s =
    let t = record s { connecting = false } in
    let made : Client = elim e [
      | none ↦
          tell_empty (call Call.on_connect (try_receive v (call Call.on_connect (set_up space t))))
      | some c ↦ refuse v c t
    ] in
    if s.connected then t else made

unfoldable pub reconnect : Virtuals → Option ErrorCode → ℕ → Client → Client × Bool
reconnect v e space s =
    let (t, done) = disconnect s in if done then connect v e space t else (t, false)

-- `while (isConnected()) yield();`: what other threads do meanwhile is `progress`; `none` is a wait that
-- has not ended after `fuel` rounds.
unfoldable pub spin : ℕ → (Client → Client) → Client → Option Client
spin zero progress s = none
spin (suc fuel) progress s = elim s.connected [
  | true ↦ spin fuel progress (progress s)
  | false ↦ some s
]

unfoldable pub reconnect_async : ℕ → (Client → Client) → Bool → Client → Option (Client × Bool)
reconnect_async fuel progress inside s =
    let (t, done) = disconnect_async false inside s in
    elim done [
      | false ↦ some (t, false)
      | true ↦ (elim (spin fuel progress t) [ none ↦ none | some u ↦ some (connect_async u) ])
    ]

unfoldable pub perform : Virtuals → Task → Client → Client
perform v Task.send_task s = try_send v s
perform v Task.connect_task s = connect_handler s
perform v Task.disconnect_task s = (disconnect s).0

unfoldable pub finish_receive : Virtuals → Option ErrorCode → Client → Client
finish_receive v none s = try_receive v s
finish_receive v (some e) s = v.hang_up (err v e s)

unfoldable pub grow : Virtuals → Option ErrorCode → ℕ → Client → Client
grow v e n s =
    let doubled = mul64 n 2 in
    if s.receive_buff == n
    then if ltb s.receive_buff_limit doubled && ltb 0 s.receive_buff_limit
      then v.hang_up (err v ErrorCode.no_buffer_space s)
      else finish_receive v e (record s { receive_buff = doubled })
    else finish_receive v e s

unfoldable pub received : List ℕ → Client → Client
received bytes s =
    call (Call.on_receive bytes)
      (record s { bytes_received = add64 s.bytes_received (length bytes) })

unfoldable pub receive_handler : Virtuals → Option ErrorCode → List ℕ → Client → Client
receive_handler v e bytes s =
    let idle = record s { receiving = false } in
    if v.ready s.connected
    then if ltb 0 (length bytes)
      then grow v e (length bytes) (received bytes idle)
      else finish_receive v e idle
    else idle

unfoldable pub sent : ℕ → Client → Client
sent n s =
    let offset = add64 s.send_flush_offset n in
    let counted = record s {
      bytes_sending = sub64 s.bytes_sending n;
      bytes_sent = add64 s.bytes_sent n;
      send_flush_offset = offset;
    } in
    let flushed =
      if offset == length s.send_buff_flush
      then record counted { send_buff_flush = []; send_flush_offset = 0 }
      else counted in
    call (Call.on_send n s.bytes_pending) flushed

unfoldable pub finish_send : Virtuals → Option ErrorCode → Client → Client
finish_send v none s = try_send v s
finish_send v (some e) s = v.hang_up (err v e s)

unfoldable pub send_handler : Virtuals → Option ErrorCode → ℕ → Client → Client
send_handler v e n s =
    let idle = record s { sending = false } in
    if v.ready s.connected then finish_send v e (if ltb 0 n then sent n idle else idle) else idle
