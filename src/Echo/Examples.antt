-- ===== src/Echo/Examples.antt =====
-- Tests of the echo programs, and their theorems at concrete inputs.
use cxx_server.Common.{
  ℕ, ◌+◌, ◌<◌, ◌≡◌, refl, true, false, List, [], ◌∷◌, ◌++◌, Option, none, some, arith, length,
}
use cxx_server.Session.{
  Session, tcp, new, err, disconnect, try_receive, swap_buffs, start_send, try_send, append,
  send_async,
}
use cxx_server.Session.Handlers.{
  connect, connect_stream, tell_empty, received, grow, finish_receive, sent, finish_send,
  send_handler,
}
use cxx_server.Session.System.{Event, read_done, write_done, step, end_write}
use cxx_server.Session.Stream.{accept, unsent, transmit, taken_by}
use cxx_server.Echo.Session.{
  on_receive, receive_handler, end_read, echo_step, echo_run, read_by, arrive, arrived, returned,
}
use cxx_server.Client as TcpClient
use cxx_server.Server as TcpServer
use cxx_server.Server.{Server, new_server}
use cxx_server.Server.Table.{find, emplace, replace}
use cxx_server.Server.System as Servers
use cxx_server.Server.Tcp.{share}
use cxx_server.Echo.Recorded.{Recorded, recorded_step, recorded_kind, found_echoes}
use cxx_server.Client.{Client}
use cxx_server.Client.Handlers as ClientHandlers
use cxx_server.Client.System as ClientSystem
use cxx_server.Client.Stream as ClientStream
use cxx_server.Client.Unlimited.{IsOpen}
use cxx_server.Echo.Client.{EchoClient, copies, on_receive_ends}
use cxx_server.Echo.Client as Echo
use cxx_server.Common.{◌/◌, ◌%◌, ◌^◌, ◌≤◌, ◌≢◌, ◌⊎◌, ◌↔◌}
use cxx_server.Echo.Report.{
  Totals, total_time, total_data, total_messages, data_throughput, average_latency, report,
  print_totals, print_messages, elapsed, second, report_ends,
}

-- A session with strands, just connected, with a receive buffer of 4 bytes.
abbrev fresh : Session
fresh = connect tcp true false 4 (new 7 true 0 0)

-- Two reads, the second while the bytes of the first are being written, and a partial write.
abbrev traffic : List Event
traffic = read_done none (1 ∷ 2 ∷ 3 ∷ []) ∷ read_done none (4 ∷ []) ∷ write_done none 2 ∷ []

-- Its line names what a run computes with.
after : List Event → Session
unfolding echo_run echo_step end_read receive_handler on_receive received grow finish_receive
    try_receive send_async append try_send swap_buffs start_send step end_write send_handler sent
    finish_send connect connect_stream tell_empty new disconnect err
after evs = echo_run tcp evs fresh

traffic_bytes :
    (arrived tcp traffic fresh ≡ 1 ∷ 2 ∷ 3 ∷ 4 ∷ [])
    × (returned tcp traffic fresh ≡ 1 ∷ 2 ∷ [])
    × (unsent (echo_run tcp traffic fresh) ≡ 3 ∷ 4 ∷ [])
unfolding after arrived arrive accept read_by returned transmit taken_by
traffic_bytes = (refl, refl, refl)

-- A client that has connected asynchronously.
abbrev joined : Client
joined =
    ClientSystem.run TcpClient.tcp
      (ClientSystem.call_connect_async
        ∷ ClientSystem.run_posted
        ∷ ClientSystem.connect_done none 4
        ∷ [])
      (TcpClient.new 3 true (127 ∷ 0 ∷ 0 ∷ 1 ∷ []) 80)

joined-IsOpen : IsOpen TcpClient.tcp joined
unfolding ClientSystem.run ClientSystem.step ClientSystem.run_first ClientSystem.end_connect
    TcpClient.new ClientHandlers.connect_async ClientHandlers.perform ClientHandlers.connect_handler
    ClientHandlers.connected_handler ClientHandlers.set_up ClientHandlers.tell_empty
    TcpClient.try_receive
joined-IsOpen = record { on = refl; unlimited = refl }

-- Messages of two bytes; three bytes come after one that is not answered yet.
abbrev echoing : EchoClient
echoing = record { client = joined; sent = 4; received = 1; messages = 2; bytes_sent = 9 }

on_receive_ends_example :
    (n : ℕ) × (t : EchoClient) × (Echo.on_receive TcpClient.tcp 5 (7 ∷ 8 ∷ []) 3 echoing ≡ some t)
    × (ClientStream.unsent t.client ≡ ClientStream.unsent joined ++ copies n (7 ∷ 8 ∷ []))
    × (t.received < length {A = ℕ} (7 ∷ 8 ∷ []))
    × (length (copies n (7 ∷ 8 ∷ [])) + t.received ≡ 1 + 3)
on_receive_ends_example =
    on_receive_ends TcpClient.tcp 5 7 (8 ∷ []) 3 echoing joined-IsOpen (omega arith) (omega arith)

-- A connection arrives at an echo server, and two bytes on it.
abbrev visitors : List (Servers.Event Event)
visitors =
    Servers.call_start
    ∷ Servers.run_posted 1
    ∷ Servers.accept_done none 4 2
    ∷ Servers.session_event false 1 (read_done none (5 ∷ 6 ∷ []))
    ∷ []

abbrev closed_server : Server Recorded
closed_server = new_server false [] 1111

abbrev server_of : Option (Server Recorded) → Server Recorded
server_of none = closed_server
server_of (some s) = s

abbrev busy_server : Server Recorded
busy_server = server_of (Servers.run (recorded_kind tcp) visitors closed_server)

abbrev visitor : Recorded
visitor = recorded_step tcp (read_done none (5 ∷ 6 ∷ [])) (record {
  session = share 0 0 (connect tcp false false 4 (new 1 false 0 0));
  came = [];
  back = [];
})

visitors_ran : Servers.run (recorded_kind tcp) visitors closed_server ≡ some busy_server
unfolding Servers.run Servers.step Servers.then_step Servers.run_first Servers.perform
    Servers.end_accept Servers.visit Servers.settle TcpServer.start TcpServer.start_handler
    TcpServer.prepare TcpServer.accept TcpServer.accept_handler TcpServer.admit new_server find
    emplace replace recorded_step share new connect connect_stream tell_empty try_receive echo_step
    end_read receive_handler received on_receive send_async append try_send swap_buffs start_send
    grow finish_receive arrive read_by transmit
visitors_ran = refl

visitor_found : TcpServer.find_session 1 busy_server ≡ some visitor
unfolding Servers.run Servers.step Servers.then_step Servers.run_first Servers.perform
    Servers.end_accept Servers.visit Servers.settle TcpServer.start TcpServer.start_handler
    TcpServer.prepare TcpServer.accept TcpServer.accept_handler TcpServer.admit new_server find
    emplace replace recorded_step share new connect connect_stream tell_empty try_receive echo_step
    end_read receive_handler received on_receive send_async append try_send swap_buffs start_send
    grow finish_receive arrive read_by transmit TcpServer.find_session
visitor_found = refl

found_echoes_example : visitor.came ≡ visitor.back ++ unsent visitor.session
unfolding Servers.run Servers.step Servers.then_step Servers.run_first Servers.perform
    Servers.end_accept Servers.visit Servers.settle TcpServer.start TcpServer.start_handler
    TcpServer.prepare TcpServer.accept TcpServer.accept_handler TcpServer.admit new_server find
    emplace replace recorded_step share new connect connect_stream tell_empty try_receive echo_step
    end_read receive_handler received on_receive send_async append try_send swap_buffs start_send
    grow finish_receive arrive read_by transmit
found_echoes_example =
    found_echoes tcp refl false [] 1111 visitors busy_server visitors_ran 1 visitor visitor_found
      refl

-- A run of a tenth of a second, with two messages of 32 bytes.
abbrev hasty : Totals
hasty = record { start = 5; end = 100000005; bytes_sent = 64; msg_size = 32 }

report_ends_example :
    ((report hasty).1 ≡ true)
    ↔ ((0 < 32) × (elapsed hasty ≢ 0) × (((64 / 32) % 2 ^ 32 ≡ 0) ⊎ (second ≤ elapsed hasty)))
report_ends_example = report_ends hasty

hasty_faults : report hasty ≡ (
  total_time 100000000
      ∷ total_data 64
      ∷ total_messages 2
      ∷ data_throughput 640
      ∷ average_latency 50000000
      ∷ [],
  false,
)
unfolding report print_totals print_messages
hasty_faults = refl
