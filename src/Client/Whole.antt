-- ===== src/Client/Whole.antt =====
-- What holds of a connected Tcp::Client as long as each write that asio completes without an error is of
-- all the bytes handed to it, and no new connection is begun.
use cxx_server.Common.{
  ℕ, ◌<◌, ◌≡◌, refl, ◌∙◌, Bool, true, false, List, [], ◌∷◌, Option, none, some, arith, mul64,
  length,
}
use cxx_server.Asio.{ErrorCode, no_buffer_space, Executor, Buffer, null, bytes}
use cxx_server.Client.{Client, tcp, err, clear_buffs, disconnect, disconnect_async, send_async}
use cxx_server.Client.Handlers.{
  finish_receive, grow, received, receive_handler, sent, finish_send, send_handler,
}
use cxx_server.Client.System.{
  Event, call_connect, call_connect_async, connect_done, call_disconnect, call_disconnect_async,
  call_send, call_receive, run_posted, read_done, write_done, step, run, end_read, end_write,
}
use cxx_server.Client.Invariant.{
  Base, Inv, disconnect-Inv, disconnect_async-Inv, try_receive-Inv, err-Inv, try_send-Inv,
  run_first-Inv, append-Inv,
}

-- The write `n` is of all that is outstanding.
abbrev IsAll : ℕ → List (Executor × List ℕ) → Type 0
IsAll n [] = Unit
IsAll n ((x, w) ∷ rest) = n ≡ length w

-- The event does not connect, and a write that ends well is complete.
abbrev pub IsWhole : Event → Client → Type 0
IsWhole (call_connect e space) s = ⊥
IsWhole call_connect_async s = ⊥
IsWhole (connect_done e space) s = ⊥
IsWhole (write_done none n) s = IsAll n s.writes
IsWhole _ s = Unit

abbrev pub AllWhole : List Event → Client → Type 0
AllWhole [] s = Unit
AllWhole (ev ∷ evs) s = IsWhole ev s × AllWhole evs (step tcp ev s)

send_async-Inv :
    (inside : Bool) (buffer : Buffer) (s : Client)
    → Inv s
    → Inv (step tcp (call_send inside buffer) s)
unfolding step send_async
send_async-Inv inside (null n) s i = ground arith
send_async-Inv inside (bytes data') s i = ground (arith, append-Inv inside data' s)

pub finish_receive-Inv : (e : Option ErrorCode) (s : Client) → Inv s → Inv (finish_receive tcp e s)
unfolding finish_receive
finish_receive-Inv none s i = try_receive-Inv s i
finish_receive-Inv (some e) s i = disconnect_async-Inv true true (err tcp e s) (err-Inv e s i)

pub grow-Inv : (e : Option ErrorCode) (n : ℕ) (s : Client) → Inv s → Inv (grow tcp e n s)
unfolding grow
grow-Inv e n s i = ground (
  arith,
  disconnect_async-Inv true true (err tcp no_buffer_space s) (err-Inv no_buffer_space s i),
  finish_receive-Inv e s i,
  finish_receive-Inv e (record s { receive_buff = mul64 n 2 }),
)

pub received-Inv : (data' : List ℕ) (s : Client) → Inv s → Inv (received data' s)
unfolding received
received-Inv data' s i = ground arith

pub read_ended-Inv :
    (rest : List (Executor × ℕ)) (s : Client)
    → Inv s
    → Inv (record s { reads = rest; receiving = false })
read_ended-Inv rest s i = ground arith

receive_handler-Inv :
    (e : Option ErrorCode) (data' : List ℕ) (s : Client)
    → Inv (record s { receiving = false })
    → Inv (receive_handler tcp e data' s)
unfolding receive_handler
receive_handler-Inv e data' s i =
    let idle : Client = record s { receiving = false } in
    ground (
      arith,
      grow-Inv e (length data') (received data' idle) (received-Inv data' idle i),
      finish_receive-Inv e idle i,
    )

end_read-Inv :
    (e : Option ErrorCode) (data' : List ℕ) (rs : List (Executor × ℕ)) (s : Client)
    → Inv s
    → Inv (end_read tcp e data' rs s)
unfolding end_read
end_read-Inv e data' [] s i = i
end_read-Inv e data' ((x, space) ∷ rest) s i =
    ground
      (arith, receive_handler-Inv e data' (record s { reads = rest }) (read_ended-Inv rest s i))

-- An error disconnects a connected client, whatever its buffers were.
disconnected-Inv :
    (s : Client) → s.connected ≡ true → s.connecting ≡ false → Inv (disconnect_async true true s).0
unfolding disconnect_async disconnect clear_buffs
disconnected-Inv s c k = ground arith

pub err_kept :
    (e : ErrorCode) (s : Client)
    → ((err tcp e s).connected ≡ s.connected) × ((err tcp e s).connecting ≡ s.connecting)
unfolding err
err_kept e s = ground arith

hang_up-Inv :
    (e : ErrorCode) (s : Client)
    → s.connected ≡ true
    → s.connecting ≡ false
    → Inv (disconnect_async true true (err tcp e s)).0
hang_up-Inv e s c k = disconnected-Inv (err tcp e s) ((err_kept e s).0 ∙ c) ((err_kept e s).1 ∙ k)

-- A complete write empties the flush buffer.
whole_write_flushes :
    (n : ℕ) (s : Client) (x : Executor) (w : List ℕ) (rest : List (Executor × List ℕ))
    → s.writes ≡ (x, w) ∷ rest
    → n ≡ length w
    → s.connected ≡ true
    → Inv s
    → (0 < n) × Base (sent n (record s { writes = rest; sending = false }))
unfolding sent
whole_write_flushes n s x w rest q h c i = ground arith

-- Nor does the end of a write of an earlier connection matter.
stale_write-Inv :
    (s : Client) (rest : List (Executor × List ℕ))
    → s.connected ≡ false
    → Inv s
    → Inv (record s { writes = rest; sending = false })
stale_write-Inv s rest c i = ground arith

end_write-Inv :
    (e : Option ErrorCode) (n : ℕ) (ws : List (Executor × List ℕ)) (s : Client)
    → s.writes ≡ ws
    → IsWhole (write_done e n) (record s { writes = ws })
    → Inv s
    → Inv (end_write tcp e n ws s)
unfolding end_write send_handler finish_send sent
end_write-Inv e n [] s q h i = i
end_write-Inv none n ((x, w) ∷ rest) s q h i =
    let idle : Client = record s { writes = rest; sending = false } in
    ground (
      arith,
      whole_write_flushes n s x w rest q h,
      try_send-Inv (sent n idle),
      stale_write-Inv s rest,
    )
end_write-Inv (some e) n ((x, w) ∷ rest) s q h i =
    let idle : Client = record s { writes = rest; sending = false } in
    ground (arith, hang_up-Inv e idle, hang_up-Inv e (sent n idle))

pub step-Inv : (ev : Event) (s : Client) → IsWhole ev s → Inv s → Inv (step tcp ev s)
unfolding step
step-Inv (call_connect e space) s h i = absurd h
step-Inv call_connect_async s h i = absurd h
step-Inv (connect_done e space) s h i = absurd h
step-Inv call_disconnect s h i = disconnect-Inv s i
step-Inv (call_disconnect_async inside) s h i = disconnect_async-Inv false inside s i
step-Inv (call_send inside buffer) s h i = send_async-Inv inside buffer s i
step-Inv call_receive s h i = try_receive-Inv s i
step-Inv run_posted s h i = run_first-Inv s.posted s refl i
step-Inv (read_done e data') s h i = end_read-Inv e data' s.reads s i
step-Inv (write_done e n) s h i = end_write-Inv e n s.writes s refl h i

-- The invariant of a connected client holds over every sequence of such events.
pub run_whole-Inv : (evs : List Event) (s : Client) → AllWhole evs s → Inv s → Inv (run tcp evs s)
unfolding run
run_whole-Inv [] s h i = i
run_whole-Inv (ev ∷ evs) s h i = run_whole-Inv evs (step tcp ev s) h.1 (step-Inv ev s h.0 i)
