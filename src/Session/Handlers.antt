-- ===== src/Session/Handlers.antt =====
-- The completion handlers of Tcp::Session's asynchronous reads and writes, and `connect`
-- (source/core/tcp/tcp_session.cxx). An error code is `some`, success is `none`; a read hands over the
-- bytes read, a write the number of bytes written.
use cxx_server.Common.{
  ℕ, Bool, true, false, ◌&&◌, List, [], Option, none, some, ltb, ◌==◌, if◌then◌else◌, add64, sub64,
  mul64, length, is_empty,
}
use cxx_server.Asio.{ErrorCode}
use cxx_server.Session.{Session, Virtuals, Call, call, err, disconnect, try_receive, try_send}

-- The end of the read handler: read on, or report the error and disconnect.
unfoldable pub finish_receive : Virtuals → Option ErrorCode → Session → Session
finish_receive v none s = try_receive v s
finish_receive v (some e) s = (disconnect true true (err v e s)).0

-- A buffer that was filled doubles, unless that passes the limit.
unfoldable pub grow : Virtuals → Option ErrorCode → ℕ → Session → Session
grow v e n s =
    let doubled = mul64 n 2 in
    let refused = (disconnect true true (err v ErrorCode.no_buffer_space s)).0 in
    if s.receive_buff == n
    then if ltb s.receive_limit doubled && ltb 0 s.receive_limit
      then refused
      else finish_receive v e (record s { receive_buff = doubled })
    else finish_receive v e s

-- The counters and the callback of a read of some bytes.
unfoldable pub received : List ℕ → Session → Session
received bytes s = call (Call.on_receive bytes) (record s {
  bytes_received = add64 s.bytes_received (length bytes);
  server_received = add64 s.server_received (length bytes);
})

unfoldable pub receive_handler : Virtuals → Option ErrorCode → List ℕ → Session → Session
receive_handler v e bytes s =
    let idle = record s { receiving = false } in
    if v.complete s.connected
    then if ltb 0 (length bytes)
      then grow v e (length bytes) (received bytes idle)
      else finish_receive v e idle
    else idle

-- The counters, the offset and the callback of a write of `n` bytes.
unfoldable pub sent : ℕ → Session → Session
sent n s =
    let offset = add64 s.send_flush_offset n in
    let counted = record s {
      bytes_sending = sub64 s.bytes_sending n;
      bytes_sent = add64 s.bytes_sent n;
      server_sent = add64 s.server_sent n;
      send_flush_offset = offset;
    } in
    let flushed =
      if offset == length s.send_buff_flush
      then record counted { send_buff_flush = []; send_flush_offset = 0 }
      else counted in
    call (Call.on_send n s.bytes_pending) flushed

unfoldable pub finish_send : Virtuals → Option ErrorCode → Session → Session
finish_send v none s = try_send v s
finish_send v (some e) s = (disconnect true true (err v e s)).0

unfoldable pub send_handler : Virtuals → Option ErrorCode → ℕ → Session → Session
send_handler v e n s =
    let idle = record s { sending = false } in
    if v.complete s.connected then finish_send v e (if ltb 0 n then sent n idle else idle) else idle

-- The part of `connect` that SSL::Session has too: the flags are the server's, the size is SO_RCVBUF of the
-- socket.
unfoldable pub connect_stream : Virtuals → Bool → Bool → ℕ → Session → Session
connect_stream v alive delay buff_size s =
    let set_up = call (Call.no_delay delay) (call (Call.keep_alive alive) s) in
    let fresh = record set_up {
      receive_buff = buff_size;
      bytes_sending = 0;
      bytes_sent = 0;
      bytes_pending = 0;
      bytes_received = 0;
      connected = true;
    } in
    call Call.server_connect (call Call.on_connect (try_receive v fresh))

unfoldable pub tell_empty : Session → Session
tell_empty s = if is_empty s.send_buff_main then call Call.on_empty s else s

unfoldable pub connect : Virtuals → Bool → Bool → ℕ → Session → Session
connect v alive delay buff_size s = tell_empty (connect_stream v alive delay buff_size s)
