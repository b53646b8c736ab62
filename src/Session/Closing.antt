-- ===== src/Session/Closing.antt =====
-- A Tcp::Session whose disconnect is posted: until the handler has run, it stays in the executor.
use cxx_server.Common.{
  ℕ, Bool, true, false, ◌≡◌, refl, ap, ◌∙◌, List, [], ◌∷◌, ◌++◌, Option, none, some, arith, length,
  mul64,
}
use cxx_server.Asio.{ErrorCode, Executor, Buffer, null, bytes, no_buffer_space}
use cxx_server.Session.{
  Session, Virtuals, Task, send_task, disconnect_task, executor, disconnect, disconnect_handler,
  clear_buffs, err, try_receive, try_send, swap_buffs, start_send, perform, append, send_async,
}
use cxx_server.Session.Handlers.{
  finish_receive, grow, received, receive_handler, sent, finish_send, send_handler,
}
use cxx_server.Session.System.{
  Event, call_send, call_disconnect, call_receive, run_posted, read_done, write_done, step,
  end_read, end_write, run_first,
}

-- A disconnect waits in the executor.
abbrev pub closing : List (Executor × Task) → Bool
closing [] = false
closing ((x, disconnect_task) ∷ rest) = true
closing ((x, send_task) ∷ rest) = closing rest

closing-append : (ts us : List (Executor × Task)) → closing ts ≡ true → closing (ts ++ us) ≡ true
closing-append [] us h = absurd (ground arith)
closing-append ((x, disconnect_task) ∷ rest) us h = refl
closing-append ((x, send_task) ∷ rest) us h = closing-append rest us h

pub closing-append_disconnect :
    (x : Executor) (ts : List (Executor × Task)) → closing (ts ++ (x, disconnect_task) ∷ []) ≡ true
closing-append_disconnect x [] = refl
closing-append_disconnect x ((y, disconnect_task) ∷ rest) = refl
closing-append_disconnect x ((y, send_task) ∷ rest) = closing-append_disconnect x rest

-- A disconnect of a connected session is posted.
pub disconnect-closing :
    (s : Session) → s.connected ≡ true → closing (disconnect false false s).0.posted ≡ true
unfolding disconnect
disconnect-closing s on = ground (arith, closing-append_disconnect (executor s) s.posted)

module _ (v : Virtuals) where
  pub try_send_posted : (s : Session) → (try_send v s).posted ≡ s.posted
  unfolding try_send swap_buffs start_send
  try_send_posted s = ground arith

  append-closing :
      (inside : Bool) (data' : List ℕ) (s : Session)
      → closing s.posted ≡ true
      → closing (append v inside data' s).0.posted ≡ true
  unfolding append err
  append-closing inside data' s h = ground (
    arith,
    closing-append s.posted ((executor s, send_task) ∷ []) h,
    try_send_posted (record s {
      send_buff_main = s.send_buff_main ++ data';
      bytes_pending = length (s.send_buff_main ++ data');
    }),
  )

  pub send_async-closing :
      (inside : Bool) (b : Buffer) (s : Session)
      → closing s.posted ≡ true
      → closing (send_async v inside b s).0.posted ≡ true
  unfolding send_async
  send_async-closing inside (null n) s h = ground arith
  send_async-closing inside (bytes data') s h = ground (arith, append-closing inside data' s h)

  disconnect_call_closing :
      (inside : Bool) (s : Session)
      → closing s.posted ≡ true
      → closing (disconnect false inside s).0.posted ≡ true
  unfolding disconnect
  disconnect_call_closing inside s h =
      ground (arith, closing-append s.posted ((executor s, disconnect_task) ∷ []) h)

  run_first-closing :
      (ts : List (Executor × Task)) (s : Session)
      → s.posted ≡ ts
      → closing ts ≡ true
      → (run_first v ts s).connected ≡ true
      → closing (run_first v ts s).posted ≡ true
  unfolding run_first perform disconnect_handler clear_buffs
  run_first-closing [] s q h on = absurd (ground arith)
  run_first-closing ((x, send_task) ∷ rest) s q h on =
      ap closing (try_send_posted (record s { posted = rest })) ∙ h
  run_first-closing ((x, disconnect_task) ∷ rest) s q h on = absurd (ground arith)

  hang_up_posted :
      (e : ErrorCode) (s : Session) → (disconnect true true (err v e s)).0.posted ≡ s.posted
  unfolding err disconnect disconnect_handler clear_buffs
  hang_up_posted e s = ground arith

  finish_receive_posted :
      (e : Option ErrorCode) (s : Session) → (finish_receive v e s).posted ≡ s.posted
  unfolding finish_receive try_receive
  finish_receive_posted none s = ground arith
  finish_receive_posted (some e) s = hang_up_posted e s

  grow_posted : (e : Option ErrorCode) (n : ℕ) (s : Session) → (grow v e n s).posted ≡ s.posted
  unfolding grow
  grow_posted e n s = ground (
    arith,
    hang_up_posted no_buffer_space s,
    finish_receive_posted e s,
    finish_receive_posted e (record s { receive_buff = mul64 n 2 }),
  )

  finish_send_posted : (e : Option ErrorCode) (s : Session) → (finish_send v e s).posted ≡ s.posted
  unfolding finish_send
  finish_send_posted none s = try_send_posted s
  finish_send_posted (some e) s = hang_up_posted e s

  sent_posted : (n : ℕ) (s : Session) → (sent n s).posted ≡ s.posted
  unfolding sent
  sent_posted n s = ground arith

  end_write_posted :
      (e : Option ErrorCode) (n : ℕ) (ws : List (Executor × List ℕ)) (s : Session)
      → (end_write v e n ws s).posted ≡ s.posted
  unfolding end_write send_handler
  end_write_posted e n [] s = refl
  end_write_posted e n ((x, w) ∷ rest) s =
      let idle : Session = record s { writes = rest; sending = false } in
      ground
        (arith, finish_send_posted e idle, finish_send_posted e (sent n idle), sent_posted n idle)

  end_read_posted :
      (e : Option ErrorCode) (data' : List ℕ) (rs : List (Executor × ℕ)) (s : Session)
      → (end_read v e data' rs s).posted ≡ s.posted
  unfolding end_read receive_handler received
  end_read_posted e data' [] s = refl
  end_read_posted e data' ((x, space) ∷ rest) s =
      let idle : Session = record s { reads = rest; receiving = false } in
      ground
        (arith, grow_posted e (length data') (received data' idle), finish_receive_posted e idle)

  -- A session that is still connected after an event has its disconnect still posted.
  pub step-closing :
      (ev : Event) (s : Session)
      → closing s.posted ≡ true
      → (step v ev s).connected ≡ true
      → closing (step v ev s).posted ≡ true
  unfolding step try_receive
  step-closing (call_send inside b) s h on = ground (arith, send_async-closing inside b s h)
  step-closing (call_disconnect inside) s h on = disconnect_call_closing inside s h
  step-closing call_receive s h on = ground arith
  step-closing run_posted s h on = run_first-closing s.posted s refl h on
  step-closing (read_done e data') s h on = ap closing (end_read_posted e data' s.reads s) ∙ h
  step-closing (write_done e n) s h on = ap closing (end_write_posted e n s.writes s) ∙ h
