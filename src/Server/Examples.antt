-- ===== src/Server/Examples.antt =====
-- Tcp::Server's theorems at concrete inputs.
use cxx_server.Common.{◌≡◌, refl, true, false, List, [], ◌∷◌, Option, none, some, arith}
use cxx_server.Asio.{operation_aborted, eof}
use cxx_server.Session.{Session, tcp, new, try_receive, disconnect}
use cxx_server.Session.Handlers.{connect, connect_stream, tell_empty}
use cxx_server.Session.System.{call_receive, call_disconnect}
use cxx_server.Session.System as Session
use cxx_server.Session.Invariant.{Inv}
use cxx_server.Server.Kinds.{Kind, IsLawful}
use cxx_server.Server.Tcp.{share, tcp_kind, tcp_kind-IsLawful}
use cxx_server.Server.{
  enqueue, start_task, executor, Server, new_server, start, stop, disconnect_all,
  disconnect_sessions, restart, start_handler, prepare, accept, accept_handler, admit, stop_handler,
  err,
}
use cxx_server.Server.Table.{find, each, emplace, replace}
use cxx_server.Server.System.{
  Event, call_start, call_stop, run_posted, accept_done, session_event, perform, run_first,
  end_accept, step, visit, settle, run, then_step,
}
use cxx_server.Server.Sound.{Sound, Holds, new_server-Sound}
use cxx_server.Server.Registered.{run-Holds}
use cxx_server.Server.Emptied.{drain, stopped_server_empties}
use cxx_server.Server.Accepting.{Listening, Goes, AllStaying, run-Accepting, stop-accept_handler}
use cxx_server.Server.Reopen.{reopen_accepts_twice}
use cxx_server.Server.Restart.{restart_races}

abbrev plain : Kind Session Session.Event
plain = tcp_kind tcp

abbrev idle : Server Session
idle = new_server false [] 8080

idle-Listening : Listening idle
unfolding new_server
idle-Listening = ground arith

idle-Sound : Sound plain (Inv tcp) idle
idle-Sound = new_server-Sound plain (Inv tcp) false [] 8080

plain-IsLawful : IsLawful plain (Inv tcp)
plain-IsLawful = tcp_kind-IsLawful tcp refl

-- A server with one session in its table and another that waits to be accepted.
abbrev one : Session
one = connect tcp false false 4 (new 10 false 0 0)

abbrev busy : Server Session
busy = record idle {
  started = true;
  sessions = (10, one) ∷ [];
  session = some (new 11 false 0 0);
  accepts = [];
}

-- Two connections arrive, a receive is asked for, a third accept fails, and the first session disconnects.
abbrev evening : List (Event Session.Event)
evening =
    call_start
    ∷ run_posted 1
    ∷ accept_done none 4 2
    ∷ accept_done none 4 3
    ∷ session_event false 1 call_receive
    ∷ accept_done (some eof) 0 4
    ∷ session_event false 1 (call_disconnect false)
    ∷ session_event false 1 Session.run_posted
    ∷ []

stays : AllStaying plain evening idle
unfolding AllStaying step start run_first perform start_handler prepare accept end_accept
    accept_handler admit err new_server new visit settle find emplace replace connect connect_stream
    tell_empty try_receive Session.step disconnect share
stays = (tt, (tt, (tt, (tt, (tt, (tt, (tt, (tt, tt))))))))

run-Accepting_example : Goes plain (Inv tcp) (run plain evening idle)
run-Accepting_example =
    run-Accepting plain (Inv tcp) plain-IsLawful evening idle stays idle-Listening idle-Sound

run-Holds_example : Holds plain (Inv tcp) (run plain evening idle)
run-Holds_example = run-Holds plain (Inv tcp) plain-IsLawful evening idle idle-Sound

-- One connection arrives, and the server stops.
abbrev day : List (Event Session.Event)
day = call_start ∷ run_posted 1 ∷ accept_done none 4 2 ∷ call_stop ∷ run_posted 3 ∷ []

abbrev server_of : Option (Server Session) → Server Session
server_of none = idle
server_of (some s) = s

abbrev evening_server : Server Session
evening_server = server_of (run plain day idle)

day_ran : run plain day idle ≡ some evening_server
unfolding run step start run_first perform start_handler prepare accept end_accept accept_handler
    admit new_server new then_step find emplace connect connect_stream tell_empty try_receive stop
    stop_handler disconnect_all disconnect_sessions disconnect each
day_ran = refl

day_quiet : evening_server.posted ≡ []
unfolding run step start run_first perform start_handler prepare accept end_accept accept_handler
    admit new_server new then_step find emplace connect connect_stream tell_empty try_receive stop
    stop_handler disconnect_all disconnect_sessions disconnect each
day_quiet = refl

day_stopped : evening_server.started ≡ false
unfolding run step start run_first perform start_handler prepare accept end_accept accept_handler
    admit new_server new then_step find emplace connect connect_stream tell_empty try_receive stop
    stop_handler disconnect_all disconnect_sessions disconnect each
day_stopped = refl

stopped_server_empties_example :
    (t : Server Session) × (run plain (drain evening_server.sessions) evening_server ≡ some t)
    × (t.sessions ≡ [])
    × (t.posted ≡ [])
stopped_server_empties_example =
    stopped_server_empties tcp refl false [] 8080 day evening_server day_ran day_stopped day_quiet

stop-accept_handler_example : accept_handler plain none 4 12 (stop_handler plain busy) ≡ none
stop-accept_handler_example = stop-accept_handler plain 4 12 busy refl

restart_races_example :
    let t = (stop busy).0 in
    (restart ((λ u. stop_handler plain u) ∷ (λ u. u) ∷ []) (λ u. u) busy ≡ none)
    × (restart ((λ u. u) ∷ (λ u. u) ∷ []) (stop_handler plain) busy
        ≡ some (enqueue start_task (stop_handler plain t), true))
    × (restart ((λ u. u) ∷ (λ u. u) ∷ []) (λ u. u) busy ≡ some (t, false))
restart_races_example =
    restart_races plain (λ u. u) (λ u. u) ((λ u. u) ∷ []) busy (λ u. refl) ((λ u h. h), tt) refl

abbrev listening : Server Session
listening = record busy { accepts = executor busy ∷ [] }

reopen_accepts_twice_example :
    (t : Server Session) × (step plain
        (accept_done (some operation_aborted) 4 12)
        (start_handler plain 11 (stop_handler plain listening))
      ≡ some t)
    × (t.accepts ≡ executor listening ∷ executor listening ∷ [])
reopen_accepts_twice_example = reopen_accepts_twice plain 4 11 12 listening refl refl
