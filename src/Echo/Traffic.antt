-- ===== src/Echo/Traffic.antt =====
-- EchoClient of performance/echo_tcp_client.cxx within the handlers of Tcp::Client (source/core/tcp/tcp_client.cxx),
-- which call its `onConnect`, `onReceive` and `onSend`.
use cxx_server.Common.{
  ℕ, suc, ◌+◌, false, List, [], ◌∷◌, Option, none, some, ltb, leb, if◌then◌else◌, length,
}
use cxx_server.Asio.{ErrorCode, Executor}
use cxx_server.Client.{Client, Virtuals, Call, call, try_receive}
use cxx_server.Client.Handlers.{
  set_up, tell_empty, refuse, with_endpoint, finish_receive, grow, received, sent, finish_send,
}
use cxx_server.Client.System.{Event, step}
use cxx_server.Echo.Client.{EchoClient, on_connect, on_send, on_receive}

-- A part of a handler that the callbacks have no part in.
abbrev pub within : (Client → Client) → EchoClient → EchoClient
within f s = record s { client = f s.client }

-- The client is told that it has connected.
unfoldable pub told_connected : Virtuals → List ℕ → EchoClient → EchoClient
told_connected v message s = on_connect v message (within (call Call.on_connect) s)

-- `connect`; the error is that of the socket's `connect`.
unfoldable pub echo_connect : Virtuals → List ℕ → Option ErrorCode → ℕ → EchoClient → EchoClient
echo_connect v message e space s =
    let t = within with_endpoint s in
    let made : EchoClient = elim e [
      | none ↦ within tell_empty (told_connected v message (within (set_up space) t))
      | some c ↦ within (refuse v c) t
    ] in
    if s.client.connected then s else made

-- The completion handler of `async_connect`.
unfoldable pub echo_connected : Virtuals → List ℕ → Option ErrorCode → ℕ → EchoClient → EchoClient
echo_connected v message e space s =
    let t = within (λ c. record c { connecting = false }) s in
    let made : EchoClient = elim e [
      | none ↦
          let told = told_connected v message (within (set_up space) t) in
          within tell_empty (told_connected v message (within (try_receive v) told))
      | some c ↦ within (refuse v c) t
    ] in
    if s.client.connected then t else made

unfoldable pub echo_end_connect :
    Virtuals → List ℕ → Option ErrorCode → ℕ → List Executor → EchoClient → EchoClient
echo_end_connect v message e space [] s = s
echo_end_connect v message e space (x ∷ rest) s =
    echo_connected v message e space (within (λ c. record c { connects = rest }) s)

-- The read handler after `onReceive`.
abbrev pub then_grow : Virtuals → Option ErrorCode → ℕ → Option EchoClient → Option EchoClient
then_grow v e n none = none
then_grow v e n (some s) = some (within (grow v e n) s)

-- The read handler; `none` is an `onReceive` that does not end. Its rounds are one more than the bytes that are
-- not answered.
unfoldable pub echo_receive :
    Virtuals → List ℕ → Option ErrorCode → List ℕ → EchoClient → Option EchoClient
echo_receive v message e data' s =
    let idle = within (λ c. record c { receiving = false }) s in
    let n = length data' in
    if v.ready s.client.connected
    then if ltb 0 n
      then then_grow v e n
          (on_receive v (suc (s.received + n)) message n (within (received data') idle))
      else some (within (finish_receive v e) idle)
    else some idle

unfoldable pub echo_end_read :
    Virtuals
    → List ℕ
    → Option ErrorCode
    → List ℕ
    → List (Executor × ℕ)
    → EchoClient
    → Option EchoClient
echo_end_read v message e data' [] s = some s
echo_end_read v message e data' ((x, space) ∷ rest) s =
    if leb (length data') space
    then echo_receive v message e data' (within (λ c. record c { reads = rest }) s)
    else some s

-- The write handler.
unfoldable pub echo_send : Virtuals → Option ErrorCode → ℕ → EchoClient → EchoClient
echo_send v e n s =
    let idle = within (λ c. record c { sending = false }) s in
    if v.ready s.client.connected
    then within (finish_send v e) (if ltb 0 n then on_send n (within (sent n) idle) else idle)
    else idle

unfoldable pub echo_end_write :
    Virtuals → Option ErrorCode → ℕ → List (Executor × List ℕ) → EchoClient → EchoClient
echo_end_write v e n [] s = s
echo_end_write v e n ((x, w) ∷ rest) s =
    if leb n (length w) then echo_send v e n (within (λ c. record c { writes = rest }) s) else s

unfoldable pub echo_client_step : Virtuals → List ℕ → Event → EchoClient → Option EchoClient
echo_client_step v message (Event.call_connect e space) s = some (echo_connect v message e space s)
echo_client_step v message (Event.connect_done e space) s =
    some (echo_end_connect v message e space s.client.connects s)
echo_client_step v message (Event.read_done e data') s =
    echo_end_read v message e data' s.client.reads s
echo_client_step v message (Event.write_done e n) s = some (echo_end_write v e n s.client.writes s)
echo_client_step v message ev s = some (within (step v ev) s)

unfoldable pub echo_client_run :
    Virtuals → List ℕ → List Event → Option EchoClient → Option EchoClient
echo_client_run v message evs none = none
echo_client_run v message [] (some s) = some s
echo_client_run v message (ev ∷ evs) (some s) =
    echo_client_run v message evs (echo_client_step v message ev s)
