-- ===== src/Ssl/Awake.antt =====
-- What a connected SSL session waits for: the end of its handshake, or a read.
use cxx_server.Common.{
  ℕ, ◌≡◌, ◌≢◌, ◌⊎◌, inl, inr, refl, sym, ap, ◌∙◌, Bool, true, false, List, [], ◌∷◌, Option, none,
  some, arith, mul64, length, if◌then◌else◌, if_rule, ◌||◌,
}
use cxx_server.Asio.{ErrorCode, Executor, Buffer, null, bytes}
use cxx_server.Session.{
  Session, Virtuals, Task, send_task, disconnect_task, executor, disconnect, disconnect_handler,
  clear_buffs, err, try_receive, try_send, swap_buffs, start_send, perform, send_async, new,
}
use cxx_server.Session.Handlers.{
  finish_receive, grow, received, receive_handler, sent, finish_send, send_handler, connect_stream,
  tell_empty,
}
use cxx_server.Session.System as Tcp
use cxx_server.Session.System.{
  call_send, call_disconnect, call_receive, run_posted, read_done, write_done, step, run_first,
  end_read, end_write,
}
use cxx_server.Session.Closing.{closing, closing-append_disconnect, step-closing}
use cxx_server.Session.SendLimit.{append_receiving}
use cxx_server.Session.Keeps.{send_async_connected}
use cxx_server.Session.Lifetime.{run_connected}
use cxx_server.Ssl.Session.{
  SslSession, virtuals, connect, new_session, begin_receive, handshake_handler, Event,
  handshake_done, tcp_event, end_handshake, ssl_step, ssl_run,
}
use cxx_server.Ssl.Handshake.{SslInv, ssl_run-SslInv, connect-SslInv}

-- `t` is disconnected, or reads exactly if its handshake has ended.
abbrev Reads : Bool → Session → Type 0
Reads h t = t.connected ≡ true → t.receiving ≡ h

module _ (h : Bool) where
  try_receive-Reads : (s : Session) → Reads h s → Reads h (try_receive (virtuals h) s)
  unfolding try_receive
  try_receive-Reads s r on = ground arith

  finish_receive-Reads :
      (e : Option ErrorCode) (s : Session) → h ≡ true → Reads h (finish_receive (virtuals h) e s)
  unfolding finish_receive try_receive err disconnect disconnect_handler clear_buffs
  finish_receive-Reads none s q on = ground arith
  finish_receive-Reads (some e) s q on = ground arith

  grow-Reads :
      (e : Option ErrorCode) (n : ℕ) (s : Session) → h ≡ true → Reads h (grow (virtuals h) e n s)
  unfolding grow err disconnect disconnect_handler clear_buffs
  grow-Reads e n s q on = ground (
    arith,
    finish_receive-Reads e s q,
    finish_receive-Reads e (record s { receive_buff = mul64 n 2 }) q,
  )

  end_read-Reads :
      (e : Option ErrorCode) (data' : List ℕ) (rs : List (Executor × ℕ)) (s : Session)
      → Reads h s
      → Reads h (end_read (virtuals h) e data' rs s)
  unfolding end_read receive_handler received
  end_read-Reads e data' [] s r on = ground arith
  end_read-Reads e data' ((x, space) ∷ rest) s r on =
      let idle : Session = record s { reads = rest; receiving = false } in
      ground (arith, finish_receive-Reads e idle, grow-Reads e (length data') (received data' idle))

  try_send_receiving : (s : Session) → (try_send (virtuals h) s).receiving ≡ s.receiving
  unfolding try_send swap_buffs start_send
  try_send_receiving s = ground arith

  try_send_connected : (s : Session) → (try_send (virtuals h) s).connected ≡ s.connected
  unfolding try_send swap_buffs start_send
  try_send_connected s = ground arith

  send_connected :
      (inside : Bool) (buffer : Buffer) (s : Session)
      → (step (virtuals h) (call_send inside buffer) s).connected ≡ s.connected
  unfolding step
  send_connected inside buffer s = ground (arith, send_async_connected (virtuals h) inside buffer s)

  send-Reads :
      (inside : Bool) (buffer : Buffer) (s : Session)
      → Reads h s
      → Reads h (step (virtuals h) (call_send inside buffer) s)
  unfolding step send_async
  send-Reads inside (null n) s r on = ground arith
  send-Reads inside (bytes data') s r on =
      let was : s.connected ≡ true = sym (send_connected inside (bytes data') s) ∙ on in
      ground (arith, append_receiving (virtuals h) inside data' s)

  run_first-Reads :
      (ts : List (Executor × Task)) (s : Session)
      → Reads h s
      → Reads h (run_first (virtuals h) ts s)
  unfolding run_first perform disconnect_handler clear_buffs
  run_first-Reads [] s r on = ground arith
  run_first-Reads ((x, send_task) ∷ rest) s r on =
      let u : Session = record s { posted = rest } in
      ground (arith, try_send_receiving u, try_send_connected u)
  run_first-Reads ((x, disconnect_task) ∷ rest) s r on = ground arith

  end_write-Reads :
      (e : Option ErrorCode) (n : ℕ) (ws : List (Executor × List ℕ)) (s : Session)
      → Reads h s
      → Reads h (end_write (virtuals h) e n ws s)
  unfolding end_write send_handler finish_send sent err disconnect disconnect_handler clear_buffs
  end_write-Reads e n [] s r on = ground arith
  end_write-Reads none n ((x, w) ∷ rest) s r on =
      let idle : Session = record s { writes = rest; sending = false } in
      ground (
        arith,
        try_send_receiving idle,
        try_send_connected idle,
        try_send_receiving (sent n idle),
        try_send_connected (sent n idle),
      )
  end_write-Reads (some e) n ((x, w) ∷ rest) s r on = ground arith

  step-Reads : (ev : Tcp.Event) (s : Session) → Reads h s → Reads h (step (virtuals h) ev s)
  unfolding step
  step-Reads (call_send inside buffer) s r on = unfold step in send-Reads inside buffer s r on
  step-Reads (call_disconnect inside) s r on =
      unfold disconnect disconnect_handler clear_buffs in ground arith
  step-Reads call_receive s r on = try_receive-Reads s r on
  step-Reads run_posted s r on = run_first-Reads s.posted s r on
  step-Reads (read_done e data') s r on = end_read-Reads e data' s.reads s r on
  step-Reads (write_done e n) s r on = end_write-Reads e n s.writes s r on

-- A connected session reads exactly if its handshake has ended, and until then the end of the handshake or a posted
-- disconnect is to come.
record Awake (s : SslSession) : Type 0 where
  reads : Reads s.handshaked s.session
  waits :
      s.session.connected ≡ true
      → s.handshaked ≡ false
      → (s.handshakes ≢ []) ⊎ (closing s.session.posted ≡ true)

begin_receive-Reads : (s : Session) → Reads true (begin_receive s)
unfolding begin_receive try_receive tell_empty
begin_receive-Reads s on = ground arith

-- A refused handshake posts a disconnect.
refused_closing :
    (v : Virtuals) (c : ErrorCode) (s : Session)
    → let t = (disconnect false true (err v c s)).0 in
      (t.connected ≡ s.connected)
      × (t.receiving ≡ s.receiving)
      × (closing t.posted ≡ (s.connected || closing s.posted))
unfolding disconnect err
refused_closing v c s =
    (ground arith, ground arith, ground (arith, closing-append_disconnect (executor s) s.posted))

after_handshake :
    (s : SslSession) (rest : List Executor)
    → Awake (record s { handshaked = true; session = begin_receive s.session; handshakes = rest })
after_handshake s rest = record {
  reads = begin_receive-Reads s.session;
  waits = λ on yet. absurd (ground arith);
}

end_handshake-Awake :
    (e : Option ErrorCode) (xs : List Executor) (s : SslSession)
    → Awake s
    → Awake (end_handshake e xs s)
unfolding end_handshake handshake_handler
end_handshake-Awake e [] s a = a
end_handshake-Awake none (x ∷ rest) s a =
    if_rule Awake s.handshaked _ _
      (λ done. record { reads = a.reads; waits = λ on yet. absurd (ground arith) })
      (λ yet. after_handshake s rest)
end_handshake-Awake (some c) (x ∷ rest) s a =
    let (same, still, posted) = refused_closing (virtuals s.handshaked) c s.session in
    if_rule Awake s.handshaked _ _
      (λ done. record { reads = a.reads; waits = λ on yet. absurd (ground arith) })
      (λ yet. record {
        reads = λ on. still ∙ a.reads (sym same ∙ on);
        waits = λ on no_flag.
            let was : s.session.connected ≡ true = sym same ∙ on in
            inr (posted ∙ ap (λ b. b || closing s.session.posted) was);
      })

tcp_event-Awake : (ev : Tcp.Event) (s : SslSession) → Awake s → Awake (ssl_step (tcp_event ev) s)
unfolding ssl_step Tcp.run step
tcp_event-Awake ev s a = record {
  reads = step-Reads s.handshaked ev s.session a.reads;
  waits = λ on yet.
      let was : s.session.connected ≡ true =
        run_connected (virtuals s.handshaked) refl (ev ∷ []) s.session on in
      elim (a.waits was yet) [
        | inl more ↦ inl more
        | inr shuts ↦ inr (step-closing (virtuals s.handshaked) ev s.session shuts on)
      ];
}

ssl_run-Awake : (evs : List Event) (s : SslSession) → Awake s → Awake (ssl_run evs s)
unfolding ssl_run ssl_step
ssl_run-Awake [] s a = a
ssl_run-Awake (handshake_done e ∷ evs) s a =
    ssl_run-Awake evs (end_handshake e s.handshakes s) (end_handshake-Awake e s.handshakes s a)
ssl_run-Awake (tcp_event ev ∷ evs) s a =
    ssl_run-Awake evs (ssl_step (tcp_event ev) s) (tcp_event-Awake ev s a)

connect-Awake :
    (id : ℕ) (needed : Bool) (a b : ℕ) (alive delay : Bool) (space : ℕ)
    → Awake (connect alive delay space (new_session id needed a b))
unfolding connect new_session connect_stream new try_receive
connect-Awake id needed a b alive delay space = record {
  reads = λ on. refl;
  waits = λ on yet. inl (ground arith);
}

-- What a connected SSL session waits for.
abbrev pub IsAwaiting : SslSession → Type 0
IsAwaiting s =
    if s.handshaked
    then s.session.reads ≡ (executor s.session, s.session.receive_buff) ∷ []
    else (s.session.reads ≡ []) × ((s.handshakes ≢ []) ⊎ (closing s.session.posted ≡ true))

awaits_of : (s : SslSession) → Awake s → SslInv s → s.session.connected ≡ true → IsAwaiting s
awaits_of s awake i on =
    if_rule (λ X. X) s.handshaked _ _ (λ done. i.reading (awake.reads on ∙ done))
      (λ yet. (i.quiet on (awake.reads on ∙ yet), awake.waits on yet))

-- Whatever events an SSL session sees that the server has accepted, while it is connected: if its handshake has ended
-- well, exactly one read of its stream is outstanding, of the size of its buffer and in its executor; until then none
-- is, and an `async_handshake` or a posted disconnect is.
pub connected_awaits :
    (id : ℕ) (needed : Bool) (a b : ℕ) (alive delay : Bool) (space : ℕ) (evs : List Event)
    → (ssl_run evs (connect alive delay space (new_session id needed a b))).session.connected ≡ true
    → IsAwaiting (ssl_run evs (connect alive delay space (new_session id needed a b)))
connected_awaits id needed a b alive delay space evs on =
    let first : SslSession = connect alive delay space (new_session id needed a b) in
    awaits_of (ssl_run evs first)
      (ssl_run-Awake evs first (connect-Awake id needed a b alive delay space))
      (ssl_run-SslInv evs first (connect-SslInv id needed a b alive delay space)) on
