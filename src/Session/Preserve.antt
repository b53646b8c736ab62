-- ===== src/Session/Preserve.antt =====
-- The events of Tcp::Session keep its invariant.
use cxx_server.Common.{
  ℕ, ◌+◌, ◌≤◌, ◌≡◌, refl, ◌∙◌, Bool, true, false, List, [], ◌∷◌, Option, none, some, arith, mul64,
  length, length-drop, inl, inr, Bool-cases,
}
use cxx_server.Asio.{ErrorCode, no_buffer_space, Executor, Buffer, null, bytes}
use cxx_server.Session.{Session, Virtuals, Task, try_receive, send_async, new, err}
use cxx_server.Session.Handlers.{
  finish_receive, grow, received, receive_handler, sent, finish_send, send_handler, connect,
  connect_stream, tell_empty,
}
use cxx_server.Session.System.{
  Event, call_send, call_disconnect, call_receive, run_posted, read_done, write_done, step, run,
  end_read, end_write, run_first,
}
use cxx_server.Session.Invariant.{
  Base, connected_of_complete, Inv, disconnect-Inv, try_receive-Inv, try_send-Base, perform-Inv,
  append-Inv, err-Inv, hang_up-Inv,
}

module _ (v : Virtuals) (shut : v.complete false ≡ false) where
  pub finish_receive-Inv :
      (e : Option ErrorCode) (s : Session) → Inv v s → Inv v (finish_receive v e s)
  unfolding finish_receive
  finish_receive-Inv none s i = try_receive-Inv v shut s i
  finish_receive-Inv (some e) s i =
      disconnect-Inv v shut true true (err v e s) (err-Inv v shut e s i)

  pub received-Inv : (data' : List ℕ) (s : Session) → Inv v s → Inv v (received data' s)
  unfolding received
  received-Inv data' s i = ground arith

  resize-Inv :
      (n : ℕ) (s : Session) → s.receiving ≡ false → Inv v s → Inv v (record s { receive_buff = n })
  resize-Inv n s r i = ground arith

  pub grow-Inv :
      (e : Option ErrorCode) (n : ℕ) (s : Session)
      → s.receiving ≡ false
      → Inv v s
      → Inv v (grow v e n s)
  unfolding grow
  grow-Inv e n s r i = ground (
    arith,
    disconnect-Inv v shut true true (err v no_buffer_space s) (err-Inv v shut no_buffer_space s i),
    finish_receive-Inv e s i,
    finish_receive-Inv e (record s { receive_buff = mul64 n 2 }) (resize-Inv (mul64 n 2) s r i),
  )

  -- The read handler first takes back the operation and the flag.
  pub read_ended-Inv :
      (s : Session) (x : Executor) (space : ℕ) (rest : List (Executor × ℕ))
      → s.reads ≡ (x, space) ∷ rest
      → Inv v s
      → Inv v (record s { receiving = false; reads = rest })
  read_ended-Inv s x space rest q i = ground arith

  receive_handler-Inv :
      (e : Option ErrorCode) (data' : List ℕ) (s : Session)
      → Inv v (record s { receiving = false })
      → Inv v (receive_handler v e data' s)
  unfolding receive_handler received
  receive_handler-Inv e data' s i = ground (
    arith,
    grow-Inv e (length data') (received data' (record s { receiving = false })),
    received-Inv data' (record s { receiving = false }) i,
    finish_receive-Inv e (record s { receiving = false }) i,
  )

  finish_send-Inv :
      (e : Option ErrorCode) (s : Session)
      → s.connected ≡ true
      → Base v s
      → Inv v (finish_send v e s)
  unfolding finish_send
  finish_send-Inv none s c i = try_send-Base v shut s i
  finish_send-Inv (some e) s c i = hang_up-Inv v shut e s c i

  -- A write of `n` of the outstanding bytes.
  sent-Base :
      (n : ℕ) (s : Session)
      → s.sending ≡ false
      → s.send_flush_offset + n ≤ length s.send_buff_flush
      → v.complete s.connected ≡ true
      → Base v s
      → Base v (sent n s)
  unfolding sent
  sent-Base n s q h c i = ground arith

  write_ended-Base :
      (s : Session) (x : Executor) (w : List ℕ) (rest : List (Executor × List ℕ))
      → s.writes ≡ (x, w) ∷ rest
      → Base v s
      → Base v (record s { sending = false; writes = rest })
  write_ended-Base s x w rest q i = ground arith

  write_within :
      (s : Session) (x : Executor) (w : List ℕ) (rest : List (Executor × List ℕ)) (n : ℕ)
      → s.writes ≡ (x, w) ∷ rest
      → s.connected ≡ true
      → n ≤ length w
      → Base v s
      → s.send_flush_offset + n ≤ length s.send_buff_flush
  write_within s x w rest n q c h i =
      ground (arith, length-drop s.send_flush_offset s.send_buff_flush)

  gated-Inv : (s : Session) → v.complete s.connected ≡ false → Base v s → Inv v s
  gated-Inv s c i = ground arith

  sent_connected : (n : ℕ) (s : Session) → (sent n s).connected ≡ s.connected
  unfolding sent
  sent_connected n s = ground arith

  send_handler-Inv :
      (e : Option ErrorCode) (n : ℕ) (s : Session) (x : Executor) (w : List ℕ)
      (rest : List (Executor × List ℕ))
      → s.writes ≡ (x, w) ∷ rest
      → n ≤ length w
      → Inv v s
      → Inv v (send_handler v e n (record s { writes = rest }))
  unfolding send_handler
  send_handler-Inv e n s x w rest q b i =
      let t : Session = record s { sending = false; writes = rest } in
      let j : Base v t = write_ended-Base s x w rest q i.base in
      elim (Bool-cases (v.complete s.connected)) [
        | inl c ↦
            let on : s.connected ≡ true = connected_of_complete v shut s c in
            let k : Base v (sent n t) =
              sent-Base n t refl (write_within s x w rest n q on b i.base) c j in
            ground (
              arith,
              finish_send-Inv e t on j,
              finish_send-Inv e (sent n t) (sent_connected n t ∙ on) k,
            )
        | inr c ↦ ground (arith, gated-Inv t c j)
      ]

  pub send_async-Inv :
      (inside : Bool) (buffer : Buffer) (s : Session)
      → Inv v s
      → Inv v (step v (call_send inside buffer) s)
  unfolding step send_async
  send_async-Inv inside (null n) s i = ground arith
  send_async-Inv inside (bytes data') s i = ground (arith, append-Inv v shut inside data' s)

  run_first-Inv :
      (ts : List (Executor × Task)) (s : Session)
      → s.posted ≡ ts
      → Inv v s
      → Inv v (run_first v ts s)
  unfolding run_first
  run_first-Inv [] s e i = i
  run_first-Inv ((x, t) ∷ rest) s e i = perform-Inv v shut x t rest s e i

  end_read-Inv :
      (e : Option ErrorCode) (data' : List ℕ) (rs : List (Executor × ℕ)) (s : Session)
      → s.reads ≡ rs
      → Inv v s
      → Inv v (end_read v e data' rs s)
  unfolding end_read
  end_read-Inv e data' [] s q i = i
  end_read-Inv e data' ((x, space) ∷ rest) s q i = ground (
    arith,
    receive_handler-Inv e data' (record s { reads = rest }) (read_ended-Inv s x space rest q i),
  )

  end_write-Inv :
      (e : Option ErrorCode) (n : ℕ) (ws : List (Executor × List ℕ)) (s : Session)
      → s.writes ≡ ws
      → Inv v s
      → Inv v (end_write v e n ws s)
  unfolding end_write
  end_write-Inv e n [] s q i = i
  end_write-Inv e n ((x, w) ∷ rest) s q i = ground (arith, send_handler-Inv e n s x w rest)

  -- Every event keeps the invariant, for each override of `isConnectionComplete` that needs a connection.
  pub step-Inv : (ev : Event) (s : Session) → Inv v s → Inv v (step v ev s)
  unfolding step
  step-Inv (call_send inside buffer) s i = send_async-Inv inside buffer s i
  step-Inv (call_disconnect inside) s i = disconnect-Inv v shut false inside s i
  step-Inv call_receive s i = try_receive-Inv v shut s i
  step-Inv run_posted s i = run_first-Inv s.posted s refl i
  step-Inv (read_done e data') s i = end_read-Inv e data' s.reads s refl i
  step-Inv (write_done e n) s i = end_write-Inv e n s.writes s refl i

  -- Every sequence of events keeps the invariant, if `isConnectionComplete` is false of a session that is
  -- not connected.
  pub run-Inv : (evs : List Event) (s : Session) → Inv v s → Inv v (run v evs s)
  unfolding run
  run-Inv [] s i = i
  run-Inv (ev ∷ evs) s i = run-Inv evs (step v ev s) (step-Inv ev s i)

  -- A session that the server has just connected satisfies the invariant.
  pub connect-Inv :
      (id : ℕ) (needed : Bool) (a b : ℕ) (alive delay : Bool) (space : ℕ)
      → Inv v (connect v alive delay space (new id needed a b))
  unfolding connect connect_stream tell_empty new try_receive
  connect-Inv id needed a b alive delay space = ground arith
