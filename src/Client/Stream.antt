-- ===== src/Client/Stream.antt =====
-- The bytes that a Tcp::Client accepts by `sendAsync` against those that asio takes from it.
use cxx_server.Common.{
  ℕ, ◌≡◌, refl, Bool, true, false, List, [], ◌∷◌, ◌++◌, Option, none, some, arith, mul64, leb,
  if◌then◌else◌, append-nil, append_assoc, length, take, take-length, append_trade,
}
use cxx_server.Asio.{ErrorCode, no_buffer_space, Executor, Buffer, null, bytes}
use cxx_server.Client.{
  Client, Virtuals, tcp, Task, send_task, connect_task, disconnect_task, disconnect,
  disconnect_async, clear_buffs, try_receive, try_send, swap_buffs, start_send, append, send_async,
  err,
}
use cxx_server.Client.Handlers.{
  connect_handler, perform, finish_receive, grow, received, receive_handler, sent, finish_send,
  send_handler,
}
use cxx_server.Client.System.{
  Event, call_connect, call_connect_async, connect_done, call_disconnect, call_disconnect_async,
  call_send, call_receive, run_posted, read_done, write_done, step, run, fits, end_read, end_write,
  run_first,
}
use cxx_server.Client.Invariant.{Inv}
use cxx_server.Client.Whole.{IsWhole, AllWhole, step-Inv, err_kept}

-- What the client holds and asio has not taken, with the offset at 0.
abbrev pub unsent : Client → List ℕ
unsent s = s.send_buff_flush ++ s.send_buff_main

abbrev taken : Buffer → List ℕ
taken (null n) = []
taken (bytes data') = data'

unfoldable pub accept : Event → Client → List ℕ
accept (call_send inside buffer) s =
    if fits buffer s then (if (send_async tcp inside buffer s).1 then taken buffer else []) else []
accept _ s = []

unfoldable pub taken_by : ℕ → List (Executor × List ℕ) → List ℕ
taken_by n [] = []
taken_by n ((x, w) ∷ rest) = if leb n (length w) then take n w else []

unfoldable pub transmit : Event → Client → List ℕ
transmit (write_done e n) s = taken_by n s.writes
transmit _ s = []

pub accepted : List Event → Client → List ℕ
accepted [] s = []
accepted (ev ∷ evs) s = accept ev s ++ accepted evs (step tcp ev s)

pub transmitted : List Event → Client → List ℕ
transmitted [] s = []
transmitted (ev ∷ evs) s = transmit ev s ++ transmitted evs (step tcp ev s)

unsent-try_send : (v : Virtuals) (s : Client) → unsent (try_send v s) ≡ unsent s
unfolding try_send start_send swap_buffs
unsent-try_send v s = ground (arith, append-nil s.send_buff_main)

try_send_connected : (s : Client) → (try_send tcp s).connected ≡ true → s.connected ≡ true
unfolding try_send start_send swap_buffs
try_send_connected s h = ground arith

pub unsent-append :
    (v : Virtuals) (inside : Bool) (data' : List ℕ) (s : Client)
    → unsent s ++ (if (append v inside data' s).1 then data' else [])
      ≡ unsent (append v inside data' s).0
unfolding append err
unsent-append v inside data' s = ground (
  arith,
  append-nil (unsent s),
  append_assoc s.send_buff_flush s.send_buff_main data',
  unsent-try_send v (record s {
    send_buff_main = s.send_buff_main ++ data';
    bytes_pending = length (s.send_buff_main ++ data');
  }),
)

unsent-accept :
    (inside : Bool) (buffer : Buffer) (s : Client)
    → unsent s ++ accept (call_send inside buffer) s ≡ unsent (step tcp (call_send inside buffer) s)
unfolding accept step send_async
unsent-accept inside (null n) s = ground (arith, append-nil (unsent s))
unsent-accept inside (bytes []) s = ground (arith, append-nil (unsent s))
unsent-accept inside (bytes (b ∷ bs)) s =
    ground (arith, append-nil (unsent s), unsent-append tcp inside (b ∷ bs) s)

-- `t` is disconnected, or `s` was connected and both hold the same.
pub record Keeps (s t : Client) : Type 0 where
  pub on : t.connected ≡ true → s.connected ≡ true
  pub held : t.connected ≡ true → unsent t ≡ unsent s

Keeps-trans : (s t u : Client) → Keeps s t → Keeps t u → Keeps s u
Keeps-trans s t u p q = ground arith

disconnect_async-Keeps : (d inside : Bool) (s : Client) → Keeps s (disconnect_async d inside s).0
unfolding disconnect_async disconnect clear_buffs
disconnect_async-Keeps d inside s = ground arith

err-Keeps : (e : ErrorCode) (s : Client) → Keeps s (err tcp e s)
unfolding err
err-Keeps e s = ground arith

hang_up-Keeps : (e : ErrorCode) (s : Client) → Keeps s (disconnect_async true true (err tcp e s)).0
hang_up-Keeps e s =
    Keeps-trans s (err tcp e s) (disconnect_async true true (err tcp e s)).0 (err-Keeps e s)
      (disconnect_async-Keeps true true (err tcp e s))

pub finish_receive-Keeps : (e : Option ErrorCode) (s : Client) → Keeps s (finish_receive tcp e s)
unfolding finish_receive try_receive
finish_receive-Keeps none s = ground arith
finish_receive-Keeps (some e) s = hang_up-Keeps e s

pub grow-Keeps : (e : Option ErrorCode) (n : ℕ) (s : Client) → Keeps s (grow tcp e n s)
unfolding grow
grow-Keeps e n s = ground (
  arith,
  hang_up-Keeps no_buffer_space s,
  finish_receive-Keeps e s,
  finish_receive-Keeps e (record s { receive_buff = mul64 n 2 }),
)

end_read-Keeps :
    (e : Option ErrorCode) (data' : List ℕ) (rs : List (Executor × ℕ)) (s : Client)
    → Keeps s (end_read tcp e data' rs s)
unfolding end_read receive_handler received
end_read-Keeps e data' [] s = ground arith
end_read-Keeps e data' ((x, space) ∷ rest) s =
    let idle : Client = record s { reads = rest; receiving = false } in
    ground (arith, finish_receive-Keeps e idle, grow-Keeps e (length data') (received data' idle))

run_first-Keeps : (ts : List (Executor × Task)) (s : Client) → Keeps s (run_first tcp ts s)
unfolding run_first perform connect_handler disconnect clear_buffs
run_first-Keeps [] s = ground arith
run_first-Keeps ((x, send_task) ∷ rest) s = ground (
  arith,
  try_send_connected (record s { posted = rest }),
  unsent-try_send tcp (record s { posted = rest }),
)
run_first-Keeps ((x, connect_task) ∷ rest) s = ground arith
run_first-Keeps ((x, disconnect_task) ∷ rest) s = ground arith

disconnect-Keeps : (s : Client) → Keeps s (disconnect s).0
unfolding disconnect clear_buffs
disconnect-Keeps s = ground arith

send_connected :
    (inside : Bool) (buffer : Buffer) (s : Client)
    → (step tcp (call_send inside buffer) s).connected ≡ true
    → s.connected ≡ true
unfolding step send_async
send_connected inside (null n) s h = ground arith
send_connected inside (bytes data') s h = ground arith

hang_up_off :
    (e : ErrorCode) (s : Client)
    → s.connected ≡ true
    → s.connecting ≡ false
    → (disconnect_async true true (err tcp e s)).0.connected ≡ false
unfolding disconnect_async disconnect clear_buffs
hang_up_off e s c k = ground (arith, err_kept e s)

-- The end of a write that took all of its bytes, or that failed.
end_write_trade :
    (e : Option ErrorCode) (n : ℕ) (ws : List (Executor × List ℕ)) (s : Client)
    → s.writes ≡ ws
    → IsWhole (write_done e n) (record s { writes = ws })
    → Inv s
    → (end_write tcp e n ws s).connected ≡ true
    → (s.connected ≡ true) × (unsent s ≡ taken_by n ws ++ unsent (end_write tcp e n ws s))
unfolding end_write send_handler finish_send sent taken_by
end_write_trade e n [] s q c i h = (h, refl)
end_write_trade none n ((x, w) ∷ rest) s q c i h =
    let idle : Client = record s { writes = rest; sending = false } in
    ground
      (arith, unsent-try_send tcp (sent n idle), try_send_connected (sent n idle), take-length w)
end_write_trade (some e) n ((x, w) ∷ rest) s q c i h =
    let idle : Client = record s { writes = rest; sending = false } in
    ground (arith, hang_up_off e idle, hang_up_off e (sent n idle))

pub step_trade :
    (ev : Event) (s : Client)
    → IsWhole ev s
    → Inv s
    → (step tcp ev s).connected ≡ true
    → (s.connected ≡ true) × (unsent s ++ accept ev s ≡ transmit ev s ++ unsent (step tcp ev s))
unfolding step accept transmit
step_trade (call_connect e space) s c i h = absurd c
step_trade call_connect_async s c i h = absurd c
step_trade (connect_done e space) s c i h = absurd c
step_trade call_disconnect s c i h = ground (arith, append-nil (unsent s), disconnect-Keeps s)
step_trade (call_disconnect_async inside) s c i h =
    ground (arith, append-nil (unsent s), disconnect_async-Keeps false inside s)
step_trade (call_send inside buffer) s c i h =
    (send_connected inside buffer s h, unfold step accept in unsent-accept inside buffer s)
step_trade call_receive s c i h = unfold try_receive in ground (arith, append-nil (unsent s))
step_trade run_posted s c i h = ground (arith, append-nil (unsent s), run_first-Keeps s.posted s)
step_trade (read_done e data') s c i h =
    ground (arith, append-nil (unsent s), end_read-Keeps e data' s.reads s)
step_trade (write_done e n) s c i h =
    ground (arith, append-nil (unsent s), end_write_trade e n s.writes s refl)

trade :
    (evs : List Event) (s : Client)
    → AllWhole evs s
    → Inv s
    → (run tcp evs s).connected ≡ true
    → (s.connected ≡ true)
      × (unsent s ++ accepted evs s ≡ transmitted evs s ++ unsent (run tcp evs s))
unfolding accepted transmitted run
trade [] s c i h = (h, append-nil (unsent s))
trade (ev ∷ evs) s c i h =
    let t = step tcp ev s in
    let later = trade evs t c.1 (step-Inv ev s c.0 i) h in
    let first = step_trade ev s c.0 i later.0 in
    (
      first.0,
      append_trade (unsent s) (accept ev s) (accepted evs t) (transmit ev s) (unsent t)
          (transmitted evs t) (unsent (run tcp evs t)) first.1 later.1,
    )

-- From a state that satisfies the invariant, while the client stays connected, no new connection is begun
-- and every write that ends without an error is complete, the bytes
-- held at the start and those of each `sendAsync` that returned true are, in order, those that asio took
-- and those still held.
pub accepted-transmitted_whole :
    (evs : List Event) (s : Client)
    → AllWhole evs s
    → Inv s
    → (run tcp evs s).connected ≡ true
    → unsent s ++ accepted evs s ≡ transmitted evs s ++ unsent (run tcp evs s)
accepted-transmitted_whole evs s c i h = (trade evs s c i h).1
