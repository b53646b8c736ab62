-- ===== src/Session/Serial.antt =====
-- Where the handlers of a Tcp::Session run.
use cxx_server.Common.{
  ℕ, ◌≡◌, refl, Bool, true, false, List, [], ◌∷◌, ◌++◌, Option, none, some, arith, mul64, length,
  drop,
}
use cxx_server.Asio.{ErrorCode, no_buffer_space, Executor, Buffer, null, bytes}
use cxx_server.Session.{
  Session, Virtuals, Task, send_task, disconnect_task, executor, enqueue, disconnect,
  disconnect_handler, clear_buffs, try_receive, try_send, swap_buffs, start_send, perform, append,
  send_async, err,
}
use cxx_server.Session.Cases.{filled, append_cases}
use cxx_server.Session.Handlers.{
  finish_receive, grow, received, receive_handler, finish_send, sent, send_handler,
}
use cxx_server.Session.System.{
  Event, call_send, call_disconnect, call_receive, run_posted, read_done, write_done, step, run,
  end_read, end_write, run_first,
}

-- All entries run in `x`.
abbrev pub AllIn {ℓ} : {A : Type ℓ} → Executor → List (Executor × A) → Type 0
AllIn x [] = Unit
AllIn x ((y, a) ∷ rest) = (y ≡ x) × AllIn x rest

AllIn-append {ℓ} :
    {A : Type ℓ} (x : Executor) (l : List (Executor × A)) (a : A)
    → AllIn x l
    → AllIn x (l ++ (x, a) ∷ [])
AllIn-append x [] a h = (refl, tt)
AllIn-append x ((y, b) ∷ l) a h = (h.0, AllIn-append x l a h.1)

pub record IsSerial (x : Executor) (s : Session) : Type 0 where
  pub own : executor s ≡ x
  pub posted_in : AllIn x s.posted
  pub reads_in : AllIn x s.reads
  pub writes_in : AllIn x s.writes

module _ (x : Executor) (v : Virtuals) where
  try_send-IsSerial : (s : Session) → IsSerial x s → IsSerial x (try_send v s)
  unfolding try_send swap_buffs start_send
  try_send-IsSerial s i = ground (
    arith,
    AllIn-append x s.writes s.send_buff_main i.writes_in,
    AllIn-append x s.writes (drop s.send_flush_offset s.send_buff_flush) i.writes_in,
  )

  try_receive-IsSerial : (s : Session) → IsSerial x s → IsSerial x (try_receive v s)
  unfolding try_receive
  try_receive-IsSerial s i = ground (arith, AllIn-append x s.reads s.receive_buff i.reads_in)

  disconnect-IsSerial :
      (d inside : Bool) (s : Session) → IsSerial x s → IsSerial x (disconnect d inside s).0
  unfolding disconnect disconnect_handler clear_buffs
  disconnect-IsSerial d inside s i =
      ground (arith, AllIn-append x s.posted disconnect_task i.posted_in)

  enqueue-IsSerial : (t : Task) (s : Session) → IsSerial x s → IsSerial x (enqueue t s)
  enqueue-IsSerial t s i = ground (arith, AllIn-append x s.posted t i.posted_in)

  err-IsSerial : (e : ErrorCode) (s : Session) → IsSerial x s → IsSerial x (err v e s)
  unfolding err
  err-IsSerial e s i = ground arith

  append-IsSerial :
      (inside : Bool) (data' : List ℕ) (s : Session)
      → IsSerial x s
      → IsSerial x (append v inside data' s).0
  append-IsSerial inside data' s i =
      let kept : IsSerial x (filled data' s) = ground arith in
      append_cases (IsSerial x) v inside data' s (err-IsSerial no_buffer_space s i)
        (try_send-IsSerial (filled data' s) kept) (enqueue-IsSerial send_task (filled data' s) kept)
        (λ _. kept)

  send_async-IsSerial :
      (inside : Bool) (buffer : Buffer) (s : Session)
      → IsSerial x s
      → IsSerial x (step v (call_send inside buffer) s)
  unfolding step send_async
  send_async-IsSerial inside (null n) s i = ground arith
  send_async-IsSerial inside (bytes data') s i = ground (arith, append-IsSerial inside data' s i)

  run_first-IsSerial :
      (ts : List (Executor × Task)) (s : Session)
      → s.posted ≡ ts
      → IsSerial x s
      → IsSerial x (run_first v ts s)
  unfolding run_first perform disconnect_handler clear_buffs
  run_first-IsSerial [] s e i = i
  run_first-IsSerial ((y, send_task) ∷ rest) s e i =
      try_send-IsSerial (record s { posted = rest }) (ground arith)
  run_first-IsSerial ((y, disconnect_task) ∷ rest) s e i = ground arith

  finish_receive-IsSerial :
      (e : Option ErrorCode) (s : Session) → IsSerial x s → IsSerial x (finish_receive v e s)
  unfolding finish_receive
  finish_receive-IsSerial none s i = try_receive-IsSerial s i
  finish_receive-IsSerial (some e) s i =
      disconnect-IsSerial true true (err v e s) (err-IsSerial e s i)

  grow-IsSerial :
      (e : Option ErrorCode) (n : ℕ) (s : Session) → IsSerial x s → IsSerial x (grow v e n s)
  unfolding grow
  grow-IsSerial e n s i = ground (
    arith,
    disconnect-IsSerial true true (err v no_buffer_space s) (err-IsSerial no_buffer_space s i),
    finish_receive-IsSerial e s i,
    finish_receive-IsSerial e (record s { receive_buff = mul64 n 2 }),
  )

  end_read-IsSerial :
      (e : Option ErrorCode) (data' : List ℕ) (rs : List (Executor × ℕ)) (s : Session)
      → s.reads ≡ rs
      → IsSerial x s
      → IsSerial x (end_read v e data' rs s)
  unfolding end_read receive_handler received
  end_read-IsSerial e data' [] s q i = i
  end_read-IsSerial e data' ((y, space) ∷ rest) s q i =
      let idle : Session = record s { reads = rest; receiving = false } in
      ground (
        arith,
        grow-IsSerial e (length data') (received data' idle),
        finish_receive-IsSerial e idle,
      )

  finish_send-IsSerial :
      (e : Option ErrorCode) (s : Session) → IsSerial x s → IsSerial x (finish_send v e s)
  unfolding finish_send
  finish_send-IsSerial none s i = try_send-IsSerial s i
  finish_send-IsSerial (some e) s i = disconnect-IsSerial true true (err v e s) (err-IsSerial e s i)

  sent-IsSerial : (n : ℕ) (s : Session) → IsSerial x s → IsSerial x (sent n s)
  unfolding sent
  sent-IsSerial n s i = ground arith

  end_write-IsSerial :
      (e : Option ErrorCode) (n : ℕ) (ws : List (Executor × List ℕ)) (s : Session)
      → s.writes ≡ ws
      → IsSerial x s
      → IsSerial x (end_write v e n ws s)
  unfolding end_write send_handler
  end_write-IsSerial e n [] s q i = i
  end_write-IsSerial e n ((y, w) ∷ rest) s q i =
      let idle : Session = record s { writes = rest; sending = false } in
      let kept : IsSerial x idle = ground arith in
      ground (
        arith,
        finish_send-IsSerial e idle kept,
        finish_send-IsSerial e (sent n idle) (sent-IsSerial n idle kept),
      )

  step-IsSerial : (ev : Event) (s : Session) → IsSerial x s → IsSerial x (step v ev s)
  unfolding step
  step-IsSerial (call_send inside buffer) s i = send_async-IsSerial inside buffer s i
  step-IsSerial (call_disconnect inside) s i = disconnect-IsSerial false inside s i
  step-IsSerial call_receive s i = try_receive-IsSerial s i
  step-IsSerial run_posted s i = run_first-IsSerial s.posted s refl i
  step-IsSerial (read_done e data') s i = end_read-IsSerial e data' s.reads s refl i
  step-IsSerial (write_done e n) s i = end_write-IsSerial e n s.writes s refl i

  -- Whatever events come, every handler that the session posts and every operation that it starts is
  -- bound to one executor, `x`: the session's strand if strands are needed, else its io service.
  pub run-IsSerial : (evs : List Event) (s : Session) → IsSerial x s → IsSerial x (run v evs s)
  unfolding run
  run-IsSerial [] s i = i
  run-IsSerial (ev ∷ evs) s i = run-IsSerial evs (step v ev s) (step-IsSerial ev s i)
