-- ===== src/Echo/Session.antt =====
-- EchoSession of performance/echo_tcp_server.cxx and performance/echo_ssl_server.cxx: a session whose
-- `onReceive` sends the bytes back. The other events are those of Tcp::Session.
use cxx_server.Common.{
  ℕ, true, false, ◌&&◌, List, [], ◌∷◌, ◌++◌, Option, ltb, leb, if◌then◌else◌, length,
}
use cxx_server.Asio.{ErrorCode, Executor, bytes}
use cxx_server.Session.{Session, Virtuals, send_async}
use cxx_server.Session.Handlers.{finish_receive, grow, received}
use cxx_server.Session.System.{Event, fits, step}
use cxx_server.Session.Stream.{accept, transmit}

-- `onReceive`, called by the read handler, in the session's executor.
unfoldable pub on_receive : Virtuals → List ℕ → Session → Session
on_receive v data' s = (send_async v true (bytes data') s).0

-- The read handler of Tcp::Session, with this `onReceive`.
unfoldable pub receive_handler : Virtuals → Option ErrorCode → List ℕ → Session → Session
receive_handler v e data' s =
    let idle = record s { receiving = false } in
    if v.complete s.connected
    then if ltb 0 (length data')
      then grow v e (length data') (on_receive v data' (received data' idle))
      else finish_receive v e idle
    else idle

-- A read that completes; the bytes fit into memory with those that are held.
unfoldable pub end_read :
    Virtuals → Option ErrorCode → List ℕ → List (Executor × ℕ) → Session → Session
end_read v e data' [] s = s
end_read v e data' ((x, space) ∷ rest) s =
    if leb (length data') space && fits (bytes data') s
    then receive_handler v e data' (record s { reads = rest })
    else s

unfoldable pub echo_step : Virtuals → Event → Session → Session
echo_step v (Event.read_done e data') s = end_read v e data' s.reads s
echo_step v ev s = step v ev s

unfoldable pub echo_run : Virtuals → List Event → Session → Session
echo_run v [] s = s
echo_run v (ev ∷ evs) s = echo_run v evs (echo_step v ev s)

-- The bytes with which a completed read calls `onReceive`.
unfoldable pub read_by : Virtuals → List ℕ → List (Executor × ℕ) → Session → List ℕ
read_by v data' [] s = []
read_by v data' ((x, space) ∷ rest) s =
    if leb (length data') space && fits (bytes data') s && v.complete s.connected then data' else []

-- The bytes that an event brings: those that are read, and those of a `sendAsync` of a user that returns
-- true.
unfoldable pub arrive : Virtuals → Event → Session → List ℕ
arrive v (Event.read_done e data') s = read_by v data' s.reads s
arrive v ev s = accept v ev s

unfoldable pub arrived : Virtuals → List Event → Session → List ℕ
arrived v [] s = []
arrived v (ev ∷ evs) s = arrive v ev s ++ arrived v evs (echo_step v ev s)

-- The bytes that the session writes back.
unfoldable pub returned : Virtuals → List Event → Session → List ℕ
returned v [] s = []
returned v (ev ∷ evs) s = transmit ev s ++ returned v evs (echo_step v ev s)
