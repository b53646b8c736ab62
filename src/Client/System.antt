-- ===== src/Client/System.antt =====
-- A client among what calls it. An event that cannot occur changes nothing, as in Session/System.antt.
use cxx_server.Common.{
  ℕ, ◌+◌, Bool, false, List, [], ◌∷◌, Option, ltb, leb, if◌then◌else◌, word, length,
}
use cxx_server.Asio.{ErrorCode, Executor, Buffer, size}
use cxx_server.Client.{
  Client, Virtuals, Task, receive_async, send_async, disconnect, disconnect_async,
}
use cxx_server.Client.Handlers.{
  connect, connect_async, connected_handler, perform, receive_handler, send_handler,
}

pub data Event : Type 0 where
  -- `connect` with the socket's answer and its buffer size, `connectAsync`, and the end of the latter
  call_connect : Option ErrorCode → ℕ → Event
  call_connect_async : Event
  connect_done : Option ErrorCode → ℕ → Event
  call_disconnect : Event
  call_disconnect_async : Bool → Event
  call_send : Bool → Buffer → Event
  call_receive : Event
  run_posted : Event
  read_done : Option ErrorCode → List ℕ → Event
  write_done : Option ErrorCode → ℕ → Event

abbrev pub fits : Buffer → Client → Bool
fits buffer s = ltb (length s.send_buff_main + length s.send_buff_flush + size buffer) word

unfoldable pub run_first : Virtuals → List (Executor × Task) → Client → Client
run_first v [] s = s
run_first v ((x, task) ∷ rest) s = perform v task (record s { posted = rest })

unfoldable pub end_connect : Virtuals → Option ErrorCode → ℕ → List Executor → Client → Client
end_connect v e space [] s = s
end_connect v e space (x ∷ rest) s = connected_handler v e space (record s { connects = rest })

unfoldable pub end_read :
    Virtuals → Option ErrorCode → List ℕ → List (Executor × ℕ) → Client → Client
end_read v e bytes [] s = s
end_read v e bytes ((x, space) ∷ rest) s =
    if leb (length bytes) space then receive_handler v e bytes (record s { reads = rest }) else s

unfoldable pub end_write :
    Virtuals → Option ErrorCode → ℕ → List (Executor × List ℕ) → Client → Client
end_write v e n [] s = s
end_write v e n ((x, bytes) ∷ rest) s =
    if leb n (length bytes) then send_handler v e n (record s { writes = rest }) else s

unfoldable pub step : Virtuals → Event → Client → Client
step v (Event.call_connect e space) s = (connect v e space s).0
step v Event.call_connect_async s = (connect_async s).0
step v (Event.connect_done e space) s = end_connect v e space s.connects s
step v Event.call_disconnect s = (disconnect s).0
step v (Event.call_disconnect_async inside) s = (disconnect_async false inside s).0
step v (Event.call_send inside buffer) s =
    if fits buffer s then (send_async v inside buffer s).0 else s
step v Event.call_receive s = receive_async v s
step v Event.run_posted s = run_first v s.posted s
step v (Event.read_done e bytes) s = end_read v e bytes s.reads s
step v (Event.write_done e n) s = end_write v e n s.writes s

unfoldable pub run : Virtuals → List Event → Client → Client
run v [] s = s
run v (ev ∷ evs) s = run v evs (step v ev s)
