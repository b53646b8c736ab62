-- ===== src/Session/Writes.antt =====
-- The outstanding writes of a Tcp::Session: no event that leaves it disconnected begins one.
use cxx_server.Common.{
  ℕ, ◌≡◌, refl, Bool, true, false, List, [], ◌∷◌, Option, none, some, arith, leb, length, mul64,
}
use cxx_server.Asio.{ErrorCode, Executor, Buffer, null, bytes}
use cxx_server.Session.{
  Session, Virtuals, Task, send_task, disconnect_task, disconnect, disconnect_handler, clear_buffs,
  try_receive, try_send, swap_buffs, start_send, perform, send_async, err,
}
use cxx_server.Session.Handlers.{
  finish_receive, grow, received, receive_handler, sent, finish_send, send_handler,
}
use cxx_server.Session.System.{call_send, step, run_first, end_read, end_write}
use cxx_server.Session.Keeps.{send_async_connected}

module _ (v : Virtuals) where
  pub finish_receive_writes :
      (e : Option ErrorCode) (s : Session) → (finish_receive v e s).writes ≡ s.writes
  unfolding finish_receive try_receive disconnect disconnect_handler clear_buffs err
  finish_receive_writes none s = ground arith
  finish_receive_writes (some e) s = ground arith

  pub grow_writes : (e : Option ErrorCode) (n : ℕ) (s : Session) → (grow v e n s).writes ≡ s.writes
  unfolding grow disconnect disconnect_handler clear_buffs err
  grow_writes e n s = ground (
    arith,
    finish_receive_writes e s,
    finish_receive_writes e (record s { receive_buff = mul64 n 2 }),
  )

  pub end_read_writes :
      (e : Option ErrorCode) (data' : List ℕ) (rs : List (Executor × ℕ)) (s : Session)
      → (end_read v e data' rs s).writes ≡ s.writes
  unfolding end_read receive_handler received
  end_read_writes e data' [] s = refl
  end_read_writes e data' ((x, space) ∷ rest) s =
      let idle : Session = record s { reads = rest; receiving = false } in
      ground
        (arith, finish_receive_writes e idle, grow_writes e (length data') (received data' idle))

  pub end_write_none : (e : Option ErrorCode) (n : ℕ) (s : Session) → end_write v e n [] s ≡ s
  unfolding end_write
  end_write_none e n s = refl

  pub end_write_refused :
      (e : Option ErrorCode) (n : ℕ) (x : Executor) (w : List ℕ) (rest : List (Executor × List ℕ))
      (s : Session)
      → leb n (length w) ≡ false
      → end_write v e n ((x, w) ∷ rest) s ≡ s
  unfolding end_write
  end_write_refused e n x w rest s big = rw big refl

  pub disconnect_writes :
      (d inside : Bool) (s : Session) → (disconnect d inside s).0.writes ≡ s.writes
  unfolding disconnect disconnect_handler clear_buffs
  disconnect_writes d inside s = ground arith

  pub try_receive_writes : (s : Session) → (try_receive v s).writes ≡ s.writes
  unfolding try_receive
  try_receive_writes s = ground arith

module _ (v : Virtuals) (shut : v.complete false ≡ false) where
  pub run_first_writes :
      (ts : List (Executor × Task)) (s : Session)
      → (run_first v ts s).connected ≡ false
      → (run_first v ts s).writes ≡ s.writes
  unfolding run_first perform try_send swap_buffs start_send disconnect_handler clear_buffs
  run_first_writes [] s h = refl
  run_first_writes ((x, send_task) ∷ rest) s h = ground arith
  run_first_writes ((x, disconnect_task) ∷ rest) s h = ground arith

  -- The write that ended is outstanding no more.
  pub end_write_writes :
      (e : Option ErrorCode) (n : ℕ) (x : Executor) (w : List ℕ) (rest : List (Executor × List ℕ))
      (s : Session)
      → (end_write v e n ((x, w) ∷ rest) s).connected ≡ false
      → leb n (length w) ≡ true
      → (end_write v e n ((x, w) ∷ rest) s).writes ≡ rest
  unfolding end_write send_handler finish_send sent try_send swap_buffs start_send disconnect
      disconnect_handler clear_buffs err
  end_write_writes none n x w rest s h l = ground arith
  end_write_writes (some e) n x w rest s h l = ground arith

  pub send_writes :
      (inside : Bool) (buffer : Buffer) (s : Session)
      → (step v (call_send inside buffer) s).connected ≡ false
      → (step v (call_send inside buffer) s).writes ≡ s.writes
  unfolding step send_async
  send_writes inside buffer s h =
      let same : s.connected ≡ false = ground (arith, send_async_connected v inside buffer s) in
      settled_writes inside buffer s same
    where
      settled_writes :
          (inside : Bool) (buffer : Buffer) (s : Session)
          → s.connected ≡ false
          → (step v (call_send inside buffer) s).writes ≡ s.writes
      settled_writes inside (null n) s h = ground arith
      settled_writes inside (bytes data') s h = ground arith
