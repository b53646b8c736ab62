-- ===== src/Server/Sessions.antt =====
-- The sessions that Tcp::Server's operations reach, as `findSession` sees them.
use cxx_server.Common.{
  ℕ, ◌<◌, ◌≡◌, ◌≢◌, ap, ◌∙◌, Bool, true, List, [], ◌∷◌, Option, none, some, arith, length,
  Option-cases, inl, inr,
}
use cxx_server.Asio.{ErrorCode, Executor, Buffer, null, bytes}
use cxx_server.Server.Kinds.{Kind}
use cxx_server.Server.{
  Server, Task, start_task, stop_task, disconnect_all_task, unregister_task, accept, admit,
  accept_handler, start, stop, start_handler, prepare, stop_handler, disconnect_sessions,
  disconnect_all, multicast, find_session, unregister_session, err, call, close,
}
use cxx_server.Server.Table.{
  find, IsTable, changed, find-emplace, find-emplace_other, find-erase, find-erase_other, find-each,
  emplace-IsTable, erase-IsTable, each-IsTable, replace-IsTable, replace,
}
use cxx_server.Server.System.{
  Event, call_start, call_stop, call_disconnect_all, call_multicast, run_posted, accept_done,
  session_event, step, settle, visit, run, then_step, perform, run_first, end_accept,
}

module _ {S : Type 0} where
  -- A session that unregisters is not found any more, and the others are, in a table without double ids.
  pub find_session-unregister_session :
      (id j : ℕ) (s : Server S)
      → IsTable s.sessions
      → j ≢ id
      → (find_session id (unregister_session id s) ≡ none)
        × (find_session j (unregister_session id s) ≡ find_session j s)
  unfolding find_session unregister_session
  find_session-unregister_session id j s h d =
      (find-erase id s.sessions h, find-erase_other id j s.sessions d)

  -- The table of a server, if it has not stopped at an empty pointer.
  pub Tabled : Option (Server S) → Type 0
  Tabled none = Unit
  Tabled (some s) = IsTable s.sessions

  err_sessions : (e : ErrorCode) (s : Server S) → (err e s).sessions ≡ s.sessions
  unfolding err
  err_sessions e s = ground arith

  then_step-Tabled :
      (f : Server S → Option (Server S))
      → ((s : Server S) → IsTable s.sessions → Tabled (f s))
      → (o : Option (Server S)) → Tabled o
      → Tabled (then_step f o)
  unfolding then_step Tabled
  then_step-Tabled f k none h = tt
  then_step-Tabled f k (some s) h = k s h

module _ {S E : Type 0} (k : Kind S E) where
  -- A multicast of some bytes by a started server is one `sendAsync` of them to each session of the table:
  -- what is found under an id afterwards is the session found before, after that call.
  pub find_session-multicast :
      (inside : ℕ → Bool) (data' : List ℕ) (id : ℕ) (s : Server S)
      → s.started ≡ true
      → 0 < length data'
      → find_session id (multicast k inside (bytes data') s).0
        ≡ changed (λ u. k.send_async (inside (k.id u)) (bytes data') u) (find_session id s)
  unfolding find_session multicast
  find_session-multicast inside data' id s h l =
      ground (arith, find-each (λ u. k.send_async (inside (k.id u)) (bytes data') u) id s.sessions)

  accept_sessions : (id : ℕ) (s : Server S) → (accept k id s).sessions ≡ s.sessions
  unfolding accept
  accept_sessions id s = ground arith

  -- What a server finds, under the id of the session accepted and under another, after an accept that ended
  -- well.
  pub Admitted : ℕ → S → ℕ → Server S → Option (Server S) → Type 0
  Admitted space u j s none = ⊥
  Admitted space u j s (some t) =
      (find_session (k.id u) t ≡ some (k.connect s.keep_alive s.no_delay space u))
      × (find_session j t ≡ find_session j s)

  -- When an accept ends without an error, the session that waited for it is found under its id, connected,
  -- if that id is new; what is found under every other id is as before.
  pub accept_handler-Admitted :
      (space id j : ℕ) (u : S) (s : Server S)
      → s.session ≡ some u
      → find_session (k.id u) s ≡ none
      → j ≢ k.id u
      → Admitted space u j s (accept_handler k none space id s)
  unfolding Admitted accept_handler find_session admit
  accept_handler-Admitted space id j u s h q d =
      let on = k.connect s.keep_alive s.no_delay space u in
      let t = admit k space u s in
      rw h (
        ap (find (k.id u)) (accept_sessions id t) ∙ find-emplace (k.id u) on s.sessions q,
        ap (find j) (accept_sessions id t) ∙ find-emplace_other (k.id u) j on s.sessions d,
      )

  disconnect_sessions-IsTable :
      (s : Server S) → IsTable s.sessions → IsTable (disconnect_sessions k s).sessions
  unfolding disconnect_sessions
  disconnect_sessions-IsTable s h = ground (arith, each-IsTable k.disconnect s.sessions h)

  disconnect_all-IsTable :
      (inside : Bool) (s : Server S)
      → IsTable s.sessions
      → IsTable (disconnect_all k inside s).0.sessions
  unfolding disconnect_all
  disconnect_all-IsTable inside s h = ground (arith, disconnect_sessions-IsTable s h)

  perform-IsTable :
      (id : ℕ) (t : Task) (s : Server S) → IsTable s.sessions → IsTable (perform k id t s).sessions
  unfolding perform start_handler prepare accept stop_handler unregister_session
  perform-IsTable id start_task s h = ground arith
  perform-IsTable id stop_task s h =
      ground (arith, disconnect_all-IsTable true (record (call close s) { session = none }) h)
  perform-IsTable id disconnect_all_task s h = disconnect_sessions-IsTable s h
  perform-IsTable id (unregister_task j) s h = erase-IsTable j s.sessions h

  run_first-IsTable :
      (id : ℕ) (ts : List (Executor × Task)) (s : Server S)
      → IsTable s.sessions
      → IsTable (run_first k id ts s).sessions
  unfolding run_first
  run_first-IsTable id [] s h = h
  run_first-IsTable id ((x, t) ∷ rest) s h = perform-IsTable id t (record s { posted = rest }) h

  accept_handler-Tabled :
      (e : Option ErrorCode) (space id : ℕ) (s : Server S)
      → IsTable s.sessions
      → Tabled (accept_handler k e space id s)
  unfolding Tabled accept_handler admit
  accept_handler-Tabled (some e) space id s h =
      rw (accept_sessions id (err e s), err_sessions e s) h
  accept_handler-Tabled none space id s h = elim (Option-cases s.session) [
    | inl e ↦ rw e tt
    | inr (u, e) ↦
        let on = k.connect s.keep_alive s.no_delay space u in
        rw (e, accept_sessions id (admit k space u s)) (emplace-IsTable (k.id u) on s.sessions h)
  ]

  end_accept-Tabled :
      (e : Option ErrorCode) (space id : ℕ) (xs : List Executor) (s : Server S)
      → IsTable s.sessions
      → Tabled (end_accept k e space id xs s)
  unfolding end_accept Tabled
  end_accept-Tabled e space id [] s h = h
  end_accept-Tabled e space id (x ∷ rest) s h =
      accept_handler-Tabled e space id (record s { accepts = rest }) h

  multicast-IsTable :
      (inside : ℕ → Bool) (buffer : Buffer) (s : Server S)
      → IsTable s.sessions
      → IsTable (multicast k inside buffer s).0.sessions
  unfolding multicast
  multicast-IsTable inside (null n) s h = h
  multicast-IsTable inside (bytes data') s h =
      ground
        (arith, each-IsTable (λ u. k.send_async (inside (k.id u)) (bytes data') u) s.sessions h)

  visit-IsTable :
      (inside : Bool) (j : ℕ) (ev : E) (o : Option S) (s : Server S)
      → IsTable s.sessions
      → IsTable (visit k inside j ev o s).sessions
  unfolding visit settle unregister_session
  visit-IsTable inside j ev none s h = h
  visit-IsTable inside j ev (some u) s h =
      let w : S = k.step ev (k.share s.bytes_sent s.bytes_received u) in
      let t : List (ℕ × S) = replace j w s.sessions in
      let kept : IsTable t = replace-IsTable j w s.sessions h in
      ground (arith, kept, erase-IsTable (k.id w) t kept)

  step-Tabled : (ev : Event E) (s : Server S) → IsTable s.sessions → Tabled (step k ev s)
  unfolding step Tabled start stop
  step-Tabled call_start s h = ground arith
  step-Tabled call_stop s h = ground arith
  step-Tabled (call_disconnect_all inside) s h = disconnect_all-IsTable inside s h
  step-Tabled (call_multicast inside buffer) s h =
      ground (arith, multicast-IsTable inside buffer s h)
  step-Tabled (run_posted id) s h = run_first-IsTable id s.posted s h
  step-Tabled (accept_done e space id) s h = end_accept-Tabled e space id s.accepts s h
  step-Tabled (session_event inside j ev) s h = visit-IsTable inside j ev (find j s.sessions) s h

  -- No sequence of events makes an id occur twice in the table of sessions.
  pub run-Tabled : (evs : List (Event E)) (s : Server S) → IsTable s.sessions → Tabled (run k evs s)
  unfolding run Tabled
  run-Tabled [] s h = h
  run-Tabled (ev ∷ evs) s h =
      then_step-Tabled (run k evs) (run-Tabled evs) (step k ev s) (step-Tabled ev s h)
