-- ===== src/Session/System.antt =====
-- A session among what calls it: its users, the executor that runs posted handlers, and asio, which
-- completes the operations that were started. An event that cannot occur changes nothing: no handler or
-- operation is outstanding, asio reports more bytes than the buffer has, or the data do not fit into
-- memory.
use cxx_server.Common.{
  ℕ, ◌+◌, Bool, false, List, [], ◌∷◌, Option, ltb, leb, if◌then◌else◌, word, length,
}
use cxx_server.Asio.{ErrorCode, Executor, Buffer, size}
use cxx_server.Session.{Session, Virtuals, Task, receive_async, perform, send_async, disconnect}
use cxx_server.Session.Handlers.{receive_handler, send_handler}

pub data Event : Type 0 where
  -- `sendAsync`, `disconnect` and `receiveAsync`; the flag says whether the caller is inside the executor
  call_send : Bool → Buffer → Event
  call_disconnect : Bool → Event
  call_receive : Event
  run_posted : Event
  read_done : Option ErrorCode → List ℕ → Event
  write_done : Option ErrorCode → ℕ → Event

abbrev pub fits : Buffer → Session → Bool
fits buffer s = ltb (length s.send_buff_main + length s.send_buff_flush + size buffer) word

unfoldable pub run_first : Virtuals → List (Executor × Task) → Session → Session
run_first v [] s = s
run_first v ((x, task) ∷ rest) s = perform v task (record s { posted = rest })

unfoldable pub end_read :
    Virtuals → Option ErrorCode → List ℕ → List (Executor × ℕ) → Session → Session
end_read v e bytes [] s = s
end_read v e bytes ((x, space) ∷ rest) s =
    if leb (length bytes) space then receive_handler v e bytes (record s { reads = rest }) else s

unfoldable pub end_write :
    Virtuals → Option ErrorCode → ℕ → List (Executor × List ℕ) → Session → Session
end_write v e n [] s = s
end_write v e n ((x, bytes) ∷ rest) s =
    if leb n (length bytes) then send_handler v e n (record s { writes = rest }) else s

unfoldable pub step : Virtuals → Event → Session → Session
step v (Event.call_send inside buffer) s =
    if fits buffer s then (send_async v inside buffer s).0 else s
step v (Event.call_disconnect inside) s = (disconnect false inside s).0
step v Event.call_receive s = receive_async v s
step v Event.run_posted s = run_first v s.posted s
step v (Event.read_done e bytes) s = end_read v e bytes s.reads s
step v (Event.write_done e n) s = end_write v e n s.writes s

unfoldable pub run : Virtuals → List Event → Session → Session
run v [] s = s
run v (ev ∷ evs) s = run v evs (step v ev s)
