-- ===== src/Echo/RoundTrips.antt =====
-- Tests of a client and an echo session at the two ends of a connection, and the theorems at concrete inputs.
use cxx_server.Common.{◌+◌, ◌≡◌, refl, true, false, List, [], ◌∷◌, ◌++◌, Option, none, some, arith}
use cxx_server.Session.{
  Session, tcp, new, try_receive, swap_buffs, start_send, try_send, append, send_async,
}
use cxx_server.Session.Handlers.{
  connect, connect_stream, tell_empty, received, grow, finish_receive, sent, finish_send,
  send_handler,
}
use cxx_server.Session.System.{write_done, step, end_write}
use cxx_server.Session.Preserve.{connect-Inv}
use cxx_server.Session.Stream.{unsent, transmit, taken_by}
use cxx_server.Echo.Session.{on_receive, receive_handler, end_read, echo_step, read_by}
use cxx_server.Client as TcpClient
use cxx_server.Client.{Client}
use cxx_server.Client.Handlers as ClientHandlers
use cxx_server.Client.System as ClientSystem
use cxx_server.Client.Stream as ClientStream
use cxx_server.Echo.Client.{EchoClient, copies, on_receive_ends}
use cxx_server.Echo.Client as Echo
use cxx_server.Asio.{bytes}
use cxx_server.Echo.Link.{
  Link, LinkEvent, client_event, session_event, client_reads, session_reads, taken_in, client_step,
  session_step, link_step, link_run, AllPlain, under_way,
}
use cxx_server.Echo.Returns.{Sound, IsUp, sent_returns}
use cxx_server.Common.{◌*◌, Option}
use cxx_server.Echo.Client.{
  new_echo_client, copies, send_message, send_messages, on_connect, answer, on_send,
}
use cxx_server.Echo.Client as Echo
use cxx_server.Echo.Traffic.{
  told_connected, echo_connect, echo_connected, echo_end_connect, echo_receive, echo_end_read,
  echo_send, echo_end_write, echo_client_step, echo_client_run,
}
use cxx_server.Echo.Doubled.{connect_async_sends_twice}
use cxx_server.Echo.Circuit as Circuit
use cxx_server.Echo.Circuit.{Circuit, circuit_step, circuit_run, in_circuit}
use cxx_server.Echo.Benchmark.{connecting, meet, benchmark_circulates}

-- A session with strands, just connected, with a receive buffer of 4 bytes.
abbrev fresh : Session
fresh = connect tcp true false 4 (new 7 true 0 0)

-- A client that has connected asynchronously.
abbrev joined : Client
joined =
    ClientSystem.run TcpClient.tcp
      (ClientSystem.call_connect_async
        ∷ ClientSystem.run_posted
        ∷ ClientSystem.connect_done none 4
        ∷ [])
      (TcpClient.new 3 true (127 ∷ 0 ∷ 0 ∷ 1 ∷ []) 80)

-- The client sends three bytes to the session, which reads two of them and writes one back.
abbrev journey : List LinkEvent
journey =
    client_event (ClientSystem.call_send true (bytes (1 ∷ 2 ∷ 3 ∷ [])))
    ∷ client_event (ClientSystem.write_done none 3)
    ∷ session_reads none 2
    ∷ session_event (write_done none 1)
    ∷ client_reads none 1
    ∷ []

abbrev joined_link : Link
joined_link = record { client = joined; session = fresh; sent = []; up = []; down = []; got = [] }

-- Its line names what the link computes with.
travelled : Link
unfolding link_run link_step client_step session_step taken_in ClientSystem.run ClientSystem.step
    ClientSystem.run_first ClientSystem.end_connect ClientSystem.end_write ClientSystem.end_read
    TcpClient.new TcpClient.try_send TcpClient.swap_buffs TcpClient.start_send TcpClient.append
    TcpClient.send_async ClientHandlers.connect_async ClientHandlers.perform
    ClientHandlers.connect_handler ClientHandlers.connected_handler ClientHandlers.set_up
    ClientHandlers.tell_empty ClientHandlers.send_handler ClientHandlers.sent
    ClientHandlers.finish_send ClientHandlers.receive_handler ClientHandlers.received
    ClientHandlers.grow ClientHandlers.finish_receive TcpClient.try_receive echo_step end_read
    receive_handler on_receive received grow finish_receive try_receive send_async append try_send
    swap_buffs start_send step end_write send_handler sent finish_send connect connect_stream
    tell_empty new read_by transmit ClientStream.accept ClientStream.transmit taken_by
    ClientStream.taken_by
travelled = link_run journey joined_link

travelled-IsUp : IsUp (link_run journey joined_link)
unfolding travelled
travelled-IsUp = record { client_on = refl; session_on = refl }

journey-AllPlain : AllPlain journey joined_link
unfolding travelled
journey-AllPlain = (tt, (refl, (tt, (tt, (tt, tt)))))

joined_link-Sound : Sound joined_link
unfolding travelled
joined_link-Sound = record {
  client_kept = ground arith;
  session_kept = connect-Inv tcp refl 7 true 0 0 true false 4;
  unlimited = refl;
}

joined_link_accounted : joined_link.sent ≡ joined_link.got ++ under_way joined_link
unfolding travelled
joined_link_accounted = refl

sent_returns_example : let m = link_run journey joined_link in m.sent ≡ m.got ++ under_way m
sent_returns_example =
    sent_returns journey joined_link journey-AllPlain joined_link-Sound joined_link_accounted
      travelled-IsUp

journey_bytes :
    let m = link_run journey joined_link in
    (m.sent ≡ 1 ∷ 2 ∷ 3 ∷ []) × (m.got ≡ 1 ∷ []) × (m.up ≡ 3 ∷ []) × (unsent m.session ≡ 2 ∷ [])
unfolding travelled
journey_bytes = (refl, refl, refl, refl)

-- A new client of one message of two bytes.
abbrev newcomer : EchoClient
newcomer = new_echo_client 3 true (127 ∷ 0 ∷ 0 ∷ 1 ∷ []) 80 1

connect_async_sends_twice_example :
    (ClientStream.unsent (echo_connect TcpClient.tcp (5 ∷ 6 ∷ []) none 4 newcomer).client
      ≡ [] ++ copies 1 (5 ∷ 6 ∷ []))
    × (ClientStream.unsent (echo_connected TcpClient.tcp (5 ∷ 6 ∷ []) none 4 newcomer).client
        ≡ [] ++ copies (1 + 1) (5 ∷ 6 ∷ []))
unfolding new_echo_client TcpClient.new
connect_async_sends_twice_example = connect_async_sends_twice 5 (6 ∷ []) 4 newcomer refl refl

abbrev client_of : Option EchoClient → EchoClient
client_of none = newcomer
client_of (some s) = s

abbrev arrived_client : EchoClient
arrived_client =
    client_of (echo_client_run TcpClient.tcp (5 ∷ 6 ∷ []) (connecting 4) (some newcomer))

-- The first message goes to the session and back, and is answered.
abbrev round_trip : List LinkEvent
round_trip =
    client_event (ClientSystem.write_done none 2)
    ∷ session_reads none 2
    ∷ session_event (write_done none 2)
    ∷ client_reads none 2
    ∷ []

abbrev arrived_circuit : Circuit
arrived_circuit = meet arrived_client fresh

-- Its line names what the circuit computes with.
went_round : Option Circuit
unfolding travelled circuit_step circuit_run new_echo_client send_message send_messages on_connect
    answer Echo.on_receive on_send told_connected echo_connected echo_end_connect echo_receive
    echo_end_read echo_send echo_end_write echo_client_step echo_client_run
went_round = circuit_run (5 ∷ 6 ∷ []) round_trip (some arrived_circuit)

arrived_ran :
    echo_client_run TcpClient.tcp (5 ∷ 6 ∷ []) (connecting 4) (some newcomer) ≡ some arrived_client
unfolding went_round
arrived_ran = refl

round_trip-AllPlain : Circuit.AllPlain (5 ∷ 6 ∷ []) round_trip (some arrived_circuit)
unfolding went_round
round_trip-AllPlain = (
  record { client_on = refl; session_on = refl },
  refl,
  (
    record { client_on = refl; session_on = refl },
    tt,
    (
      record { client_on = refl; session_on = refl },
      tt,
      (
        record { client_on = refl; session_on = refl },
        tt,
        record { client_on = refl; session_on = refl },
      ),
    ),
  ),
)

benchmark_circulates_example :
    (l : Circuit) × (circuit_run (5 ∷ 6 ∷ []) round_trip (some arrived_circuit) ≡ some l)
    × (in_circuit l ≡ 2 * (1 * 2))
benchmark_circulates_example =
    benchmark_circulates 1 5 (6 ∷ []) 3 80 4 (127 ∷ 0 ∷ 0 ∷ 1 ∷ []) true true true false 7 0 0 4
      round_trip arrived_client (omega arith) arrived_ran round_trip-AllPlain
