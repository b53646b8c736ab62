-- ===== src/Ssl/Keeps.antt =====
-- What sending and receiving leave alone in a Tcp::Client: whether it is connected or connecting.
use cxx_server.Common.{
  ℕ, ◌≡◌, refl, ◌∙◌, Bool, false, List, [], ◌∷◌, Option, none, some, arith, length, mul64,
}
use cxx_server.Asio.{ErrorCode, Executor, Buffer, null, bytes, no_buffer_space}
use cxx_server.Client.{
  Client, Virtuals, err, try_receive, try_send, swap_buffs, start_send, append, send_async, enqueue,
  send_task,
}
use cxx_server.Client.Cases.{filled, append_cases}
use cxx_server.Client.Handlers.{
  tell_empty, refuse, received, finish_receive, grow, receive_handler, sent, finish_send,
  send_handler,
}
use cxx_server.Client.System.{end_read, end_write}
use cxx_server.Ssl.Client.{shut_down}

pub record Keeps (c d : Client) : Type 0 where
  pub connected : d.connected ≡ c.connected
  pub connecting : d.connecting ≡ c.connecting
  pub connects : d.connects ≡ c.connects
  pub strand_needed : d.strand_needed ≡ c.strand_needed

pub Keeps-refl : (c : Client) → Keeps c c
Keeps-refl c = record { connected = refl; connecting = refl; connects = refl; strand_needed = refl }

pub Keeps-trans : (b c d : Client) → Keeps b c → Keeps c d → Keeps b d
Keeps-trans b c d h k = record {
  connected = k.connected ∙ h.connected;
  connecting = k.connecting ∙ h.connecting;
  connects = k.connects ∙ h.connects;
  strand_needed = k.strand_needed ∙ h.strand_needed;
}

pub shut_down-Keeps : (h : Bool) (c : Client) → Keeps c (shut_down h c)
unfolding shut_down
shut_down-Keeps h c = ground arith

pub tell_empty-Keeps : (c : Client) → Keeps c (tell_empty c)
unfolding tell_empty
tell_empty-Keeps c = ground arith

module _ (v : Virtuals) where
  pub err-Keeps : (e : ErrorCode) (c : Client) → Keeps c (err v e c)
  unfolding err
  err-Keeps e c = ground arith

  pub refuse-Keeps : (e : ErrorCode) (c : Client) → Keeps c (refuse v e c)
  unfolding refuse err
  refuse-Keeps e c = ground arith

  pub try_receive-Keeps : (c : Client) → Keeps c (try_receive v c)
  unfolding try_receive
  try_receive-Keeps c = ground arith

  pub try_send-Keeps : (c : Client) → Keeps c (try_send v c)
  unfolding try_send swap_buffs start_send
  try_send-Keeps c = ground arith

  filled-Keeps : (data' : List ℕ) (c : Client) → Keeps c (filled data' c)
  filled-Keeps data' c = ground arith

  enqueued-Keeps : (data' : List ℕ) (c : Client) → Keeps c (enqueue send_task (filled data' c))
  enqueued-Keeps data' c = ground arith

  append-Keeps : (inside : Bool) (data' : List ℕ) (c : Client) → Keeps c (append v inside data' c).0
  append-Keeps inside data' c =
      let full : Client = filled data' c in
      append_cases (Keeps c) v inside data' c (err-Keeps no_buffer_space c)
        (Keeps-trans c full (try_send v full) (filled-Keeps data' c) (try_send-Keeps full))
        (enqueued-Keeps data' c) (λ e. filled-Keeps data' c)

  pub send_async-Keeps :
      (inside : Bool) (buffer : Buffer) (c : Client) → Keeps c (send_async v inside buffer c).0
  unfolding send_async
  send_async-Keeps inside (null n) c = ground arith
  send_async-Keeps inside (bytes data') c = ground (arith, append-Keeps inside data' c)

-- The handlers end with `disconnectAsync(true)` after an error.
module _ (v : Virtuals) (hang_up : (c : Client) → Keeps c (v.hang_up c)) where
  report-Keeps : (e : ErrorCode) (c : Client) → Keeps c (v.hang_up (err v e c))
  report-Keeps e c =
      Keeps-trans c (err v e c) (v.hang_up (err v e c)) (err-Keeps v e c) (hang_up (err v e c))

  finish_receive-Keeps : (e : Option ErrorCode) (c : Client) → Keeps c (finish_receive v e c)
  unfolding finish_receive
  finish_receive-Keeps none c = try_receive-Keeps v c
  finish_receive-Keeps (some e) c = report-Keeps e c

  grow-Keeps : (e : Option ErrorCode) (n : ℕ) (c : Client) → Keeps c (grow v e n c)
  unfolding grow
  grow-Keeps e n c = ground (
    arith,
    report-Keeps no_buffer_space c,
    finish_receive-Keeps e c,
    finish_receive-Keeps e (record c { receive_buff = mul64 n 2 }),
  )

  received-Keeps : (data' : List ℕ) (c : Client) → Keeps c (received data' c)
  unfolding received
  received-Keeps data' c = ground arith

  receive_handler-Keeps :
      (e : Option ErrorCode) (data' : List ℕ) (c : Client) → Keeps c (receive_handler v e data' c)
  unfolding receive_handler
  receive_handler-Keeps e data' c =
      let idle : Client = record c { receiving = false } in
      ground (
        arith,
        received-Keeps data' idle,
        grow-Keeps e (length data') (received data' idle),
        finish_receive-Keeps e idle,
      )

  pub end_read-Keeps :
      (e : Option ErrorCode) (data' : List ℕ) (rs : List (Executor × ℕ)) (c : Client)
      → Keeps c (end_read v e data' rs c)
  unfolding end_read
  end_read-Keeps e data' [] c = Keeps-refl c
  end_read-Keeps e data' ((x, space) ∷ rest) c =
      ground (arith, receive_handler-Keeps e data' (record c { reads = rest }))

  sent-Keeps : (n : ℕ) (c : Client) → Keeps c (sent n c)
  unfolding sent
  sent-Keeps n c = ground arith

  finish_send-Keeps : (e : Option ErrorCode) (c : Client) → Keeps c (finish_send v e c)
  unfolding finish_send
  finish_send-Keeps none c = try_send-Keeps v c
  finish_send-Keeps (some e) c = report-Keeps e c

  send_handler-Keeps : (e : Option ErrorCode) (n : ℕ) (c : Client) → Keeps c (send_handler v e n c)
  unfolding send_handler
  send_handler-Keeps e n c =
      let idle : Client = record c { sending = false } in
      ground (arith, sent-Keeps n idle, finish_send-Keeps e (sent n idle), finish_send-Keeps e idle)

  pub end_write-Keeps :
      (e : Option ErrorCode) (n : ℕ) (ws : List (Executor × List ℕ)) (c : Client)
      → Keeps c (end_write v e n ws c)
  unfolding end_write
  end_write-Keeps e n [] c = Keeps-refl c
  end_write-Keeps e n ((x, w) ∷ rest) c =
      ground (arith, send_handler-Keeps e n (record c { writes = rest }))
