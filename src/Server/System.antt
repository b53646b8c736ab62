-- ===== src/Server/System.antt =====
-- A server among what calls it: its users, the executor that runs posted handlers, asio, which completes
-- the accepts, and its sessions. An event that cannot occur changes nothing, as in Session/System.antt. A
-- run ends with `none` where the source dereferences an empty pointer.
use cxx_server.Common.{
  ℕ, Bool, true, List, [], ◌∷◌, ◌++◌, ◌≡◌, refl, Option, none, some, ◌&&◌, if◌then◌else◌, ltb,
}
use cxx_server.Asio.{ErrorCode, Executor, Buffer}
use cxx_server.Server.Kinds.{Kind}
use cxx_server.Server.Table.{find, replace}
use cxx_server.Server.{
  Server, Task, enqueue, start, stop, start_handler, stop_handler, disconnect_sessions,
  disconnect_all, multicast, accept_handler, unregister_session,
}

pub data Event (E : Type 0) : Type 0 where
  call_start call_stop : Event E
  call_disconnect_all : Bool → Event E
  call_multicast : (ℕ → Bool) → Buffer → Event E
  -- the id is that of a session that the handler makes
  run_posted : ℕ → Event E
  accept_done : Option ErrorCode → ℕ → ℕ → Event E
  -- an event of the session under an id; the flag says whether its handler runs inside the server's executor
  session_event : Bool → ℕ → E → Event E

module _ {S : Type 0} where
  unfoldable pub then_step : (Server S → Option (Server S)) → Option (Server S) → Option (Server S)
  then_step f none = none
  then_step f (some s) = f s

module _ {S E : Type 0} (k : Kind S E) where
  unfoldable pub room : Buffer → List (ℕ × S) → Bool
  room buffer [] = true
  room buffer ((j, u) ∷ rest) = k.fits buffer u && room buffer rest

  unfoldable pub perform : ℕ → Task → Server S → Server S
  perform id Task.start_task s = start_handler k id s
  perform id Task.stop_task s = stop_handler k s
  perform id Task.disconnect_all_task s = disconnect_sessions k s
  perform id (Task.unregister_task j) s = unregister_session j s

  unfoldable pub run_first : ℕ → List (Executor × Task) → Server S → Server S
  run_first id [] s = s
  run_first id ((x, task) ∷ rest) s = perform id task (record s { posted = rest })

  unfoldable pub end_accept :
      Option ErrorCode → ℕ → ℕ → List Executor → Server S → Option (Server S)
  end_accept e space id [] s = some s
  end_accept e space id (x ∷ rest) s = accept_handler k e space id (record s { accepts = rest })

  -- The session that has run a handler stays under its id, its bytes are counted, and if it has
  -- disconnected, its dispatch of `unregisterSession` runs at once inside the server's executor, and is
  -- posted otherwise.
  unfoldable pub settle : Bool → ℕ → S → S → Server S → Server S
  settle inside j u w s =
      let t = record s {
        sessions = replace j w s.sessions;
        bytes_sent = k.bytes_sent w;
        bytes_received = k.bytes_received w;
      } in
      let gone =
        if inside
        then unregister_session (k.id w) t
        else enqueue (Task.unregister_task (k.id w)) t in
      if ltb (k.leaves u) (k.leaves w) then gone else t

  unfoldable pub visit : Bool → ℕ → E → Option S → Server S → Server S
  visit inside j ev none s = s
  visit inside j ev (some u) s =
      settle inside j u (k.step ev (k.share s.bytes_sent s.bytes_received u)) s

  unfoldable pub step : Event E → Server S → Option (Server S)
  step Event.call_start s = some (start s).0
  step Event.call_stop s = some (stop s).0
  step (Event.call_disconnect_all inside) s = some (disconnect_all k inside s).0
  step (Event.call_multicast inside buffer) s =
      some (if room buffer s.sessions then (multicast k inside buffer s).0 else s)
  step (Event.run_posted id) s = some (run_first id s.posted s)
  step (Event.accept_done e space id) s = end_accept e space id s.accepts s
  step (Event.session_event inside j ev) s = some (visit inside j ev (find j s.sessions) s)

  unfoldable pub run : List (Event E) → Server S → Option (Server S)
  run [] s = some s
  run (ev ∷ evs) s = then_step (run evs) (step ev s)

  pub run-append :
      (evs more : List (Event E)) (s : Server S)
      → run (evs ++ more) s ≡ then_step (run more) (run evs s)
  unfolding run then_step
  run-append [] more s = refl
  run-append (ev ∷ evs) more s = after (step ev s) (run-append evs more)
    where
      after :
          (o : Option (Server S))
          → ((t : Server S) → run (evs ++ more) t ≡ then_step (run more) (run evs t))
          → then_step (run (evs ++ more)) o ≡ then_step (run more) (then_step (run evs) o)
      after none h = refl
      after (some t) h = h t
