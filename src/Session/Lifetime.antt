-- ===== src/Session/Lifetime.antt =====
-- A Tcp::Session that has disconnected stays so, and makes no further call.
use cxx_server.Common.{ℕ, ◌≡◌, inl, inr, true, false, Bool-cases, List, [], ◌∷◌, Option, arith}
use cxx_server.Asio.{ErrorCode, Executor}
use cxx_server.Session.{
  Session, Virtuals, Task, send_task, disconnect_task, disconnect, disconnect_handler, try_receive,
  try_send, perform, send_async,
}
use cxx_server.Session.Handlers.{receive_handler, send_handler}
use cxx_server.Session.System.{
  Event, call_send, call_disconnect, call_receive, run_posted, read_done, write_done, step, run,
  end_read, end_write, run_first,
}

-- `t` is disconnected, and nothing but operations that ended was taken from `s`.
pub record Settled (s t : Session) : Type 0 where
  pub closed : t.connected ≡ false
  pub calls_kept : t.calls ≡ s.calls
  pub main_kept : t.send_buff_main ≡ s.send_buff_main
  pub flush_kept : t.send_buff_flush ≡ s.send_buff_flush
  pub sent_kept : t.bytes_sent ≡ s.bytes_sent
  pub received_kept : t.bytes_received ≡ s.bytes_received
  pub pending_kept : t.bytes_pending ≡ s.bytes_pending
  pub sending_kept : t.bytes_sending ≡ s.bytes_sending
  pub server_sent_kept : t.server_sent ≡ s.server_sent
  pub server_received_kept : t.server_received ≡ s.server_received

module _ (v : Virtuals) (shut : v.complete false ≡ false) where
  run_first-Settled :
      (ts : List (Executor × Task)) (s : Session)
      → s.connected ≡ false
      → Settled s (run_first v ts s)
  unfolding run_first perform try_send disconnect_handler
  run_first-Settled [] s h = ground arith
  run_first-Settled ((x, send_task) ∷ rest) s h = ground arith
  run_first-Settled ((x, disconnect_task) ∷ rest) s h = ground arith

  end_read-Settled :
      (e : Option ErrorCode) (bytes : List ℕ) (rs : List (Executor × ℕ)) (s : Session)
      → s.connected ≡ false
      → Settled s (end_read v e bytes rs s)
  unfolding end_read receive_handler
  end_read-Settled e bytes [] s h = ground arith
  end_read-Settled e bytes ((x, space) ∷ rest) s h = ground arith

  end_write-Settled :
      (e : Option ErrorCode) (n : ℕ) (ws : List (Executor × List ℕ)) (s : Session)
      → s.connected ≡ false
      → Settled s (end_write v e n ws s)
  unfolding end_write send_handler
  end_write-Settled e n [] s h = ground arith
  end_write-Settled e n ((x, w) ∷ rest) s h = ground arith

  pub step-Settled : (ev : Event) (s : Session) → s.connected ≡ false → Settled s (step v ev s)
  unfolding step send_async disconnect try_receive
  step-Settled (call_send inside buffer) s h = ground arith
  step-Settled (call_disconnect inside) s h = ground arith
  step-Settled call_receive s h = ground arith
  step-Settled run_posted s h = run_first-Settled s.posted s h
  step-Settled (read_done e bytes) s h = end_read-Settled e bytes s.reads s h
  step-Settled (write_done e n) s h = end_write-Settled e n s.writes s h

  -- A disconnected session stays disconnected under all events: no callback is called again (so
  -- `onDisconnect` is not), no byte is buffered, and neither its four
  -- counters of bytes nor the server's two move. `isConnectionComplete` must
  -- be false of it.
  pub run-Settled : (evs : List Event) (s : Session) → s.connected ≡ false → Settled s (run v evs s)
  unfolding run
  run-Settled [] s h = ground arith
  run-Settled (ev ∷ evs) s h =
      let first = step-Settled ev s h in
      let later = run-Settled evs (step v ev s) first.closed in ground arith

  pub run_connected :
      (evs : List Event) (s : Session) → (run v evs s).connected ≡ true → s.connected ≡ true
  run_connected evs s h = elim (Bool-cases s.connected) [
    | inl on ↦ on
    | inr off ↦ let q = (run-Settled evs s off).closed in ground arith
  ]
