-- ===== src/Session/Limits.antt =====
-- The limits of a Tcp::Session's buffers under every sequence of events.
use cxx_server.Common.{
  ℕ, ◌+◌, ◌≤◌, ◌<◌, ◌≡◌, Bool, true, false, List, [], ◌∷◌, Option, none, some, arith, word, mul64,
  length, length-append,
}
use cxx_server.Asio.{ErrorCode, no_buffer_space, Executor, Buffer, null, bytes}
use cxx_server.Session.{
  Session, Virtuals, Task, send_task, disconnect_task, disconnect, disconnect_handler, clear_buffs,
  try_receive, try_send, swap_buffs, start_send, perform, append, enqueue, send_async, err,
}
use cxx_server.Session.Cases.{filled}
use cxx_server.Session.Handlers.{
  finish_receive, grow, received, receive_handler, finish_send, sent, send_handler,
}
use cxx_server.Session.System.{
  Event, call_send, call_disconnect, call_receive, run_posted, read_done, write_done, step, run,
  end_read, end_write, run_first,
}

-- The buffers are within the limits `receive` and `send` that are set (0 stands for no limit).
pub record Within (receive send : ℕ) (s : Session) : Type 0 where
  pub receive_set : s.receive_limit ≡ receive
  pub send_set : s.send_limit ≡ send
  pub receive_fits : s.receive_buff ≤ receive
  pub send_fits : length s.send_buff_main ≤ send
  pub memory : length s.send_buff_main + length s.send_buff_flush < word

module _ (receive send : ℕ) (limited : 0 < receive) (bounded : 0 < send) (v : Virtuals) where
  try_send-Within : (s : Session) → Within receive send s → Within receive send (try_send v s)
  unfolding try_send swap_buffs start_send
  try_send-Within s i = ground arith

  disconnect-Within :
      (d inside : Bool) (s : Session)
      → Within receive send s
      → Within receive send (disconnect d inside s).0
  unfolding disconnect disconnect_handler clear_buffs
  disconnect-Within d inside s i = ground arith

  err-Within :
      (e : ErrorCode) (s : Session) → Within receive send s → Within receive send (err v e s)
  unfolding err
  err-Within e s i = ground arith

  filled-Within :
      (data' : List ℕ) (s : Session)
      → length s.send_buff_main + length s.send_buff_flush + length data' < word
      → length s.send_buff_main + length data' ≤ send
      → Within receive send s
      → Within receive send (filled data' s)
  filled-Within data' s f h i = ground (arith, length-append s.send_buff_main data')

  enqueue-Within :
      (t : Task) (s : Session) → Within receive send s → Within receive send (enqueue t s)
  enqueue-Within t s i = ground arith

  append-Within :
      (inside : Bool) (data' : List ℕ) (s : Session)
      → length s.send_buff_main + length s.send_buff_flush + length data' < word
      → Within receive send s
      → Within receive send (append v inside data' s).0
  unfolding append
  append-Within inside data' s f i =
      let j = filled-Within data' s f in
      ground (
        arith,
        j,
        err-Within no_buffer_space s i,
        try_send-Within (filled data' s),
        enqueue-Within send_task (filled data' s),
      )

  send_async-Within :
      (inside : Bool) (buffer : Buffer) (s : Session)
      → Within receive send s
      → Within receive send (step v (call_send inside buffer) s)
  unfolding step send_async
  send_async-Within inside (null n) s i = ground arith
  send_async-Within inside (bytes data') s i = ground (arith, append-Within inside data' s)

  run_first-Within :
      (ts : List (Executor × Task)) (s : Session)
      → Within receive send s
      → Within receive send (run_first v ts s)
  unfolding run_first perform disconnect_handler clear_buffs
  run_first-Within [] s i = i
  run_first-Within ((x, send_task) ∷ rest) s i =
      try_send-Within (record s { posted = rest }) (ground arith)
  run_first-Within ((x, disconnect_task) ∷ rest) s i = ground arith

  finish_receive-Within :
      (e : Option ErrorCode) (s : Session)
      → Within receive send s
      → Within receive send (finish_receive v e s)
  unfolding finish_receive try_receive
  finish_receive-Within none s i = ground arith
  finish_receive-Within (some e) s i = disconnect-Within true true (err v e s) (err-Within e s i)

  grow-Within :
      (e : Option ErrorCode) (n : ℕ) (s : Session)
      → Within receive send s
      → Within receive send (grow v e n s)
  unfolding grow
  grow-Within e n s i = ground (
    arith,
    disconnect-Within true true (err v no_buffer_space s) (err-Within no_buffer_space s i),
    finish_receive-Within e s i,
    finish_receive-Within e (record s { receive_buff = mul64 n 2 }),
  )

  end_read-Within :
      (e : Option ErrorCode) (data' : List ℕ) (rs : List (Executor × ℕ)) (s : Session)
      → Within receive send s
      → Within receive send (end_read v e data' rs s)
  unfolding end_read receive_handler received
  end_read-Within e data' [] s i = i
  end_read-Within e data' ((x, space) ∷ rest) s i =
      let idle : Session = record s { reads = rest; receiving = false } in
      ground
        (arith, grow-Within e (length data') (received data' idle), finish_receive-Within e idle)

  finish_send-Within :
      (e : Option ErrorCode) (s : Session)
      → Within receive send s
      → Within receive send (finish_send v e s)
  unfolding finish_send
  finish_send-Within none s i = try_send-Within s i
  finish_send-Within (some e) s i = disconnect-Within true true (err v e s) (err-Within e s i)

  sent-Within : (n : ℕ) (s : Session) → Within receive send s → Within receive send (sent n s)
  unfolding sent
  sent-Within n s i = ground arith

  end_write-Within :
      (e : Option ErrorCode) (n : ℕ) (ws : List (Executor × List ℕ)) (s : Session)
      → Within receive send s
      → Within receive send (end_write v e n ws s)
  unfolding end_write send_handler
  end_write-Within e n [] s i = i
  end_write-Within e n ((x, w) ∷ rest) s i =
      let idle : Session = record s { writes = rest; sending = false } in
      ground (
        arith,
        finish_send-Within e idle,
        finish_send-Within e (sent n idle) (sent-Within n idle (ground arith)),
      )

  step-Within :
      (ev : Event) (s : Session) → Within receive send s → Within receive send (step v ev s)
  unfolding step try_receive
  step-Within (call_send inside buffer) s i = send_async-Within inside buffer s i
  step-Within (call_disconnect inside) s i = disconnect-Within false inside s i
  step-Within call_receive s i = ground arith
  step-Within run_posted s i = run_first-Within s.posted s i
  step-Within (read_done e data') s i = end_read-Within e data' s.reads s i
  step-Within (write_done e n) s i = end_write-Within e n s.writes s i

  -- With both limits set and both buffers within them at the start, no sequence of events makes the
  -- receive buffer or the buffer of pending bytes larger than its limit, or changes the limits.
  pub run-Within :
      (evs : List Event) (s : Session) → Within receive send s → Within receive send (run v evs s)
  unfolding run
  run-Within [] s i = i
  run-Within (ev ∷ evs) s i = run-Within evs (step v ev s) (step-Within ev s i)
