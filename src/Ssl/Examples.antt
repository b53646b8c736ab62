-- ===== src/Ssl/Examples.antt =====
-- The SSL classes' theorems at concrete inputs.
use cxx_server.Common.{◌≡◌, refl, true, false, List, [], ◌∷◌, Option, none, some}
use cxx_server.Asio.{bytes, bad_record_mac, other}
use cxx_server.Session.{new, try_receive, send_async, append, try_send, swap_buffs, start_send}
use cxx_server.Session.Handlers.{connect_stream, tell_empty}
use cxx_server.Session.System.{call_send}
use cxx_server.Session.System as TcpSystem
use cxx_server.Server.{
  Server, new_server, start, start_handler, prepare, accept, accept_handler, admit, find_session,
}
use cxx_server.Server.Table.{find, emplace, replace}
use cxx_server.Server.Tcp.{share}
use cxx_server.Server.System.{
  call_start, run_posted, accept_done, session_event, step, run, then_step, run_first, perform,
  end_accept, visit, settle, Event as ServerEvent,
}
use cxx_server.Ssl.Server.{SslServer, new_ssl_server, ssl_kind, found_before_handshake}
use cxx_server.Session.Stream.{unsent}
use cxx_server.Ssl.Session.{
  SslSession, new_session, connect, Event, handshake_done, tcp_event, ssl_step, ssl_run,
  end_handshake, handshake_handler, begin_receive,
}
use cxx_server.Client.{Client}
use cxx_server.Client as TcpClient
use cxx_server.Client.Handlers as ClientHandlers
use cxx_server.Ssl.Client.{SslClient, new_ssl, is_engaged, ssl_connect, ssl_connect_async}
use cxx_server.Ssl.Client as SslClients
use cxx_server.Ssl.Shaken.{new_ssl-Flags, ssl_run-Flags}
use cxx_server.Ssl.Flags.{Flags}
use cxx_server.Ssl.Failing.{failed_connect_sticks, failed_handshake_disconnects}
use cxx_server.Ssl.Awake.{IsAwaiting, connected_awaits}

-- A session just accepted.
abbrev fresh : SslSession
fresh = connect false true 4 (new_session 5 true 0 0)

-- A send that is refused, the handshake, and the send again.
abbrev greeting : List Event
greeting =
    tcp_event (call_send true (bytes (1 ∷ [])))
    ∷ handshake_done none
    ∷ tcp_event (call_send true (bytes (1 ∷ [])))
    ∷ []

greeted_connected : (ssl_run greeting fresh).session.connected ≡ true
unfolding ssl_run ssl_step end_handshake handshake_handler begin_receive TcpSystem.step send_async
    append try_send swap_buffs start_send try_receive tell_empty connect connect_stream new_session
    new
greeted_connected = refl

connected_awaits_example : IsAwaiting (ssl_run greeting fresh)
connected_awaits_example = connected_awaits 5 true 0 0 false true 4 greeting greeted_connected

-- A connection arrives at a server, and a send before the handshake is refused.
abbrev secure : SslServer
secure = record { server = new_server false [] 443; context = 9 }

abbrev hello : List (ServerEvent Event)
hello =
    call_start
    ∷ run_posted 1
    ∷ accept_done none 4 2
    ∷ session_event false 1 (tcp_event (call_send true (bytes (1 ∷ []))))
    ∷ []

abbrev server_of : Option (Server SslSession) → Server SslSession
server_of none = secure.server
server_of (some s) = s

abbrev greeted : Server SslSession
greeted = server_of (run ssl_kind hello secure.server)

abbrev guest : SslSession
guest = connect false false 4 (new_session 1 false 0 0)

hello_ran : run ssl_kind hello secure.server ≡ some greeted
unfolding run step start run_first perform start_handler prepare accept end_accept accept_handler
    admit new_server new new_session then_step visit settle find emplace replace connect
    connect_stream try_receive ssl_step TcpSystem.step send_async share
hello_ran = refl

guest_found : find_session 1 greeted ≡ some guest
unfolding run step start run_first perform start_handler prepare accept end_accept accept_handler
    admit new_server new new_session then_step visit settle find emplace replace connect
    connect_stream try_receive ssl_step TcpSystem.step send_async share find_session
guest_found = refl

found_before_handshake_example :
    (unsent guest.session ≡ []) × (guest.session.reads ≡ []) × (guest.session.writes ≡ [])
unfolding new_ssl_server connect connect_stream new_session new try_receive
found_before_handshake_example =
    found_before_handshake 9 false [] 443 secure refl hello greeted hello_ran 1 guest guest_found
      refl refl

abbrev home : SslClient
home = new_ssl 3 true (127 ∷ 0 ∷ 0 ∷ 1 ∷ []) 443

home-Flags : Flags home
home-Flags = new_ssl-Flags 3 true (127 ∷ 0 ∷ 0 ∷ 1 ∷ []) 443

abbrev joining : List SslClients.Event
joining =
    SslClients.call_connect_async ∷ SslClients.run_posted ∷ SslClients.connect_done none 4 ∷ []

ssl_run-Flags_example : Flags (SslClients.ssl_run joining home)
ssl_run-Flags_example = ssl_run-Flags joining home home-Flags

-- The handshake under way.
abbrev shaking : SslClient
shaking = SslClients.ssl_run joining home

failed_handshake_disconnects_example :
    let t = SslClients.ssl_step (SslClients.handshake_done (some bad_record_mac)) shaking in
    let u = SslClients.ssl_step SslClients.shutdown_done t in
    (u.client.connected ≡ false) × (is_engaged u ≡ false)
unfolding SslClients.ssl_run SslClients.ssl_step new_ssl TcpClient.new SslClients.run_first
    SslClients.perform ssl_connect_async SslClients.ssl_connect_handler SslClients.end_connect
    SslClients.connect_endpoint ClientHandlers.set_up
failed_handshake_disconnects_example =
    failed_handshake_disconnects bad_record_mac shaking (ssl_run-Flags joining home home-Flags) refl
      refl

failed_connect_sticks_example :
    let r = ssl_connect none 4 (some (other 7)) home in
    (r.1 ≡ false)
    × (r.0.client.connected ≡ true)
    × (ssl_connect none 4 none r.0 ≡ (r.0, false))
    × (ssl_connect_async r.0 ≡ (r.0, false))
unfolding new_ssl TcpClient.new
failed_connect_sticks_example = failed_connect_sticks (other 7) 4 none none 4 home refl
