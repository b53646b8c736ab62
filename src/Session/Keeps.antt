-- ===== src/Session/Keeps.antt =====
-- What no event of a session moves: its id, its send limit, and that it asks to be unregistered when it
-- disconnects, and only then.
use cxx_server.Common.{
  ℕ, Bool, true, false, ◌≡◌, List, [], ◌∷◌, Option, none, some, arith, length, mul64, ◌++◌, ◌+◌,
  suc, if◌then◌else◌,
}
use cxx_server.Asio.{ErrorCode, Executor, Buffer, null, bytes, no_buffer_space}
use cxx_server.Session.{
  Session, Virtuals, Call, unregister, Task, send_task, disconnect_task, disconnect,
  disconnect_handler, clear_buffs, err, try_receive, try_send, swap_buffs, start_send, perform,
  append, send_async,
}
use cxx_server.Session.Handlers.{
  finish_receive, grow, received, receive_handler, sent, finish_send, send_handler,
}
use cxx_server.Session.System.{
  Event, call_send, call_disconnect, call_receive, run_posted, read_done, write_done, step,
  end_read, end_write, run_first,
}

-- How often a session has asked to be unregistered.
abbrev pub leaves : List Call → ℕ
leaves [] = 0
leaves (unregister id ∷ rest) = suc (leaves rest)
leaves (_ ∷ rest) = leaves rest

-- How often it has asked, and will.
abbrev pub leavings : Session → ℕ
leavings s = leaves s.calls + (if s.connected then 1 else 0)

pub record Keeps (s t : Session) : Type 0 where
  pub named : t.id ≡ s.id
  pub once : leavings t ≡ leavings s
  pub limited : t.send_limit ≡ s.send_limit

module _ (v : Virtuals) where
  pub try_send-Keeps : (s : Session) → Keeps s (try_send v s)
  unfolding try_send swap_buffs start_send
  try_send-Keeps s = ground arith

  append-Keeps :
      (inside : Bool) (data' : List ℕ) (s : Session) → Keeps s (append v inside data' s).0
  unfolding append err
  append-Keeps inside data' s = ground (
    arith,
    try_send-Keeps (record s {
      send_buff_main = s.send_buff_main ++ data';
      bytes_pending = length (s.send_buff_main ++ data');
    }),
  )

  pub send_async-Keeps :
      (inside : Bool) (b : Buffer) (s : Session) → Keeps s (send_async v inside b s).0
  unfolding send_async
  send_async-Keeps inside (null n) s = ground arith
  send_async-Keeps inside (bytes data') s = ground (arith, append-Keeps inside data' s)

  pub disconnect-Keeps : (d inside : Bool) (s : Session) → Keeps s (disconnect d inside s).0
  unfolding disconnect disconnect_handler clear_buffs
  disconnect-Keeps d inside s = ground arith

  run_first-Keeps : (ts : List (Executor × Task)) (s : Session) → Keeps s (run_first v ts s)
  unfolding run_first perform disconnect_handler clear_buffs
  run_first-Keeps [] s = ground arith
  run_first-Keeps ((x, send_task) ∷ rest) s =
      ground (arith, try_send-Keeps (record s { posted = rest }))
  run_first-Keeps ((x, disconnect_task) ∷ rest) s = ground arith

  hang_up-Keeps : (e : ErrorCode) (s : Session) → Keeps s (disconnect true true (err v e s)).0
  unfolding err
  hang_up-Keeps e s = ground (arith, disconnect-Keeps true true (err v e s))

  pub finish_receive-Keeps : (e : Option ErrorCode) (s : Session) → Keeps s (finish_receive v e s)
  unfolding finish_receive try_receive
  finish_receive-Keeps none s = ground arith
  finish_receive-Keeps (some e) s = hang_up-Keeps e s

  pub grow-Keeps : (e : Option ErrorCode) (n : ℕ) (s : Session) → Keeps s (grow v e n s)
  unfolding grow
  grow-Keeps e n s = ground (
    arith,
    hang_up-Keeps no_buffer_space s,
    finish_receive-Keeps e s,
    finish_receive-Keeps e (record s { receive_buff = mul64 n 2 }),
  )

  finish_send-Keeps : (e : Option ErrorCode) (s : Session) → Keeps s (finish_send v e s)
  unfolding finish_send
  finish_send-Keeps none s = try_send-Keeps s
  finish_send-Keeps (some e) s = hang_up-Keeps e s

  sent-Keeps : (n : ℕ) (s : Session) → Keeps s (sent n s)
  unfolding sent
  sent-Keeps n s = ground arith

  end_write-Keeps :
      (e : Option ErrorCode) (n : ℕ) (ws : List (Executor × List ℕ)) (s : Session)
      → Keeps s (end_write v e n ws s)
  unfolding end_write send_handler
  end_write-Keeps e n [] s = ground arith
  end_write-Keeps e n ((x, w) ∷ rest) s =
      let idle : Session = record s { writes = rest; sending = false } in
      ground (arith, finish_send-Keeps e idle, finish_send-Keeps e (sent n idle), sent-Keeps n idle)

  end_read-Keeps :
      (e : Option ErrorCode) (data' : List ℕ) (rs : List (Executor × ℕ)) (s : Session)
      → Keeps s (end_read v e data' rs s)
  unfolding end_read receive_handler received
  end_read-Keeps e data' [] s = ground arith
  end_read-Keeps e data' ((x, space) ∷ rest) s =
      let idle : Session = record s { reads = rest; receiving = false } in
      ground (arith, grow-Keeps e (length data') (received data' idle), finish_receive-Keeps e idle)

  pub step-Keeps : (ev : Event) (s : Session) → Keeps s (step v ev s)
  unfolding step try_receive
  step-Keeps (call_send inside b) s = ground (arith, send_async-Keeps inside b s)
  step-Keeps (call_disconnect inside) s = disconnect-Keeps false inside s
  step-Keeps call_receive s = ground arith
  step-Keeps run_posted s = run_first-Keeps s.posted s
  step-Keeps (read_done e data') s = end_read-Keeps e data' s.reads s
  step-Keeps (write_done e n) s = end_write-Keeps e n s.writes s

  -- Sending disconnects nobody.
  pub try_send_connected : (s : Session) → (try_send v s).connected ≡ s.connected
  unfolding try_send start_send swap_buffs
  try_send_connected s = ground arith

  append_connected :
      (inside : Bool) (data' : List ℕ) (s : Session)
      → (append v inside data' s).0.connected ≡ s.connected
  unfolding append err
  append_connected inside data' s = ground (
    arith,
    try_send_connected (record s {
      send_buff_main = s.send_buff_main ++ data';
      bytes_pending = length (s.send_buff_main ++ data');
    }),
  )

  pub send_async_connected :
      (inside : Bool) (buffer : Buffer) (s : Session)
      → (send_async v inside buffer s).0.connected ≡ s.connected
  unfolding send_async
  send_async_connected inside (null n) s = ground arith
  send_async_connected inside (bytes data') s = ground (arith, append_connected inside data' s)
