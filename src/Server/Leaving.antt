-- ===== src/Server/Leaving.antt =====
-- How a session whose disconnect is posted leaves the table of a plain Tcp::Server.
use cxx_server.Common.{
  ℕ, zero, suc, ◌≡◌, ◌≢◌, refl, subst, ap, ◌∙◌, Bool, true, false, List, [], ◌∷◌, ◌++◌, none, some,
  arith, ltb,
}
use cxx_server.Asio.{Executor}
use cxx_server.Session.{
  Session, Virtuals, Task, send_task, disconnect_task, perform, disconnect_handler, clear_buffs,
}
use cxx_server.Session.System as Session
use cxx_server.Session.Closing.{closing, try_send_posted}
use cxx_server.Session.Keeps.{leaves, leavings, try_send-Keeps, try_send_connected}
use cxx_server.Server.{
  Server, new_server, unregister_task, enqueue, executor, find_session, unregister_session,
}
use cxx_server.Session.Invariant.{Inv}
use cxx_server.Server.Sound.{Sound, Holds, new_server-Sound}
use cxx_server.Server.Registered.{run-Holds, found_connected}
use cxx_server.Server.Drained.{stopped_drains}
use cxx_server.Server.Table.{
  find, erase, replace, IsTable, find-erase, find-erase_other, find-replace, find-replace_other,
  replace-IsTable, erase-IsTable,
}
use cxx_server.Server.System.{
  Event, run_posted, session_event, step, settle, visit, run, then_step, perform as perform_task,
  run_first,
}
use cxx_server.Server.Tcp.{tcp_kind, tcp_kind-IsLawful, share}

-- Handlers up to the disconnect.
abbrev pub turns_left : List (Executor × Task) → ℕ
turns_left [] = 0
turns_left ((x, disconnect_task) ∷ rest) = 1
turns_left ((x, send_task) ∷ rest) = suc (turns_left rest)

-- So many handlers of a session run.
abbrev pub turns : ℕ → ℕ → List (Event Session.Event)
turns id zero = []
turns id (suc n) = session_event false id Session.run_posted ∷ turns id n

-- The server has let go of the session, and of no other.
pub record Left (id : ℕ) (s t : Server Session) : Type 0 where
  pub gone : find id t.sessions ≡ none
  pub others : (j : ℕ) → j ≢ id → find j t.sessions ≡ find j s.sessions
  pub quiet : t.posted ≡ []
  pub table : IsTable t.sessions

-- The server with what a session has become.
abbrev put : ℕ → Session → Server Session → Server Session
put id w s = record s {
  sessions = replace id w s.sessions;
  bytes_sent = w.server_sent;
  bytes_received = w.server_received;
}

module _ (v : Virtuals) (shut : v.complete false ≡ false) where
  settle_stays :
      (id : ℕ) (u w : Session) (s : Server Session)
      → leavings w ≡ leavings u
      → w.connected ≡ u.connected
      → settle (tcp_kind v) false id u w s ≡ put id w s
  unfolding settle
  settle_stays id u w s same on =
      let still : ltb (leaves u.calls) (leaves w.calls) ≡ false = ground arith in rw still refl

  settle_leaves :
      (id : ℕ) (u w : Session) (s : Server Session)
      → leavings w ≡ leavings u
      → u.connected ≡ true
      → w.connected ≡ false
      → w.id ≡ id
      → settle (tcp_kind v) false id u w s ≡ enqueue (unregister_task id) (put id w s)
  unfolding settle
  settle_leaves id u w s same on off own =
      let more : ltb (leaves u.calls) (leaves w.calls) ≡ true = ground arith in
      rw more (ap (λ n. enqueue (unregister_task n) (put id w s)) own)

  -- A session runs the handler at the head of its executor.
  turn :
      (id : ℕ) (x : Executor) (t : Task) (rest : List (Executor × Task)) (u : Session)
      (s : Server Session)
      → find id s.sessions ≡ some u
      → u.posted ≡ (x, t) ∷ rest
      → step (tcp_kind v) (session_event false id Session.run_posted) s
        ≡ some (
            settle
              (tcp_kind v)
              false
              id
              u
              (perform v t (record u {
                posted = rest;
                server_sent = s.bytes_sent;
                server_received = s.bytes_received;
              }))
              s)
  unfolding step visit Session.step Session.run_first share
  turn id x t rest u s f q =
      ap (λ o. some (visit (tcp_kind v) false id Session.run_posted o s)) f
      ∙ ap
          (λ ts. some (
            settle (tcp_kind v) false id u
              (Session.run_first v ts (share s.bytes_sent s.bytes_received u)) s))
          q

  closed :
      (u : Session)
      → u.connected ≡ true
      → let w = perform v disconnect_task u in
        (leavings w ≡ leavings u) × (w.connected ≡ false) × (w.id ≡ u.id)
  unfolding perform disconnect_handler clear_buffs
  closed u on = ground arith

  -- The server lets go of the session.
  dismissed :
      (id : ℕ) (w : Session) (s : Server Session)
      → s.posted ≡ []
      → IsTable s.sessions
      → (t : Server Session) × (run
            (tcp_kind v)
            (run_posted 0 ∷ [])
            (enqueue (unregister_task id) (put id w s))
          ≡ some t)
        × Left id s t
  unfolding run then_step step run_first perform_task unregister_session
  dismissed id w s quiet i =
      let t = enqueue (unregister_task id) (put id w s) in
      let alone : t.posted ≡ (executor s, unregister_task id) ∷ [] =
        ap (λ l. l ++ (executor s, unregister_task id) ∷ []) quiet in
      (
        record t { posted = []; sessions = erase id (replace id w s.sessions) },
        ap (λ ts. then_step (λ r. some r) (some (run_first (tcp_kind v) 0 ts t))) alone,
        record {
          gone = find-erase id (replace id w s.sessions) (replace-IsTable id w s.sessions i);
          others = λ j d.
              find-erase_other id j (replace id w s.sessions) d
              ∙ find-replace_other id j w s.sessions d;
          quiet = refl;
          table = erase-IsTable id (replace id w s.sessions) (replace-IsTable id w s.sessions i);
        },
      )

  pub leaves_with :
      (ts : List (Executor × Task)) (id : ℕ) (u : Session) (s : Server Session)
      → find id s.sessions ≡ some u
      → u.posted ≡ ts
      → u.connected ≡ true
      → u.id ≡ id
      → closing ts ≡ true
      → s.posted ≡ []
      → IsTable s.sessions
      → (t : Server Session) × (run (tcp_kind v) (turns id (turns_left ts) ++ run_posted 0 ∷ []) s
          ≡ some t)
        × Left id s t
  unfolding run then_step perform
  leaves_with [] id u s f q on own h quiet i = absurd (ground arith)
  leaves_with ((x, disconnect_task) ∷ rest) id u s f q on own h quiet i =
      let u' = record u {
        posted = rest;
        server_sent = s.bytes_sent;
        server_received = s.bytes_received;
      } in
      let w = perform v disconnect_task u' in
      let (same, off, kept) = closed u' on in
      let (t, ran, l) = dismissed id w s quiet i in
      (
        t,
        ap (then_step (run (tcp_kind v) (run_posted 0 ∷ []))) (
              turn id x disconnect_task rest u s f q
              ∙ ap some (settle_leaves id u w s same on off (kept ∙ own)))
            ∙ ran,
        l,
      )
  leaves_with ((x, send_task) ∷ rest) id u s f q on own h quiet i =
      let u' = record u {
        posted = rest;
        server_sent = s.bytes_sent;
        server_received = s.bytes_received;
      } in
      let w = perform v send_task u' in
      let k = try_send-Keeps v u' in
      let still = try_send_connected v u' in
      let (t, ran, l) =
        leaves_with rest id w (put id w s) (find-replace id u w s.sessions f) (try_send_posted v u')
          (still ∙ on) (k.named ∙ own) h quiet (replace-IsTable id w s.sessions i) in
      (
        t,
        ap (then_step (run (tcp_kind v) (turns id (turns_left rest) ++ run_posted 0 ∷ [])))
              (turn id x send_task rest u s f q ∙ ap some (settle_stays id u w s k.once still))
            ∙ ran,
        record {
          gone = l.gone;
          others = λ j d. l.others j d ∙ find-replace_other id j w s.sessions d;
          quiet = l.quiet;
          table = l.table;
        },
      )

  -- After any run of a new server, if `isConnectionComplete` is false of a session that is not connected, the
  -- server is stopped and no handler waits in its executor, every session that is found in its table leaves it: once
  -- the handlers posted to the session have run up to its disconnect, and then the one that this posts to the
  -- server, the session is not found, the others are found as before, and no handler waits in the server's executor.
  stopped_session_leaves :
      (strand_needed : Bool) (addr : List ℕ) (port : ℕ) (evs : List (Event Session.Event))
      (s : Server Session)
      → run (tcp_kind v) evs (new_server strand_needed addr port) ≡ some s
      → s.started ≡ false
      → s.posted ≡ []
      → (id : ℕ) (u : Session) → find_session id s ≡ some u
      → (t : Server Session) × (run
            (tcp_kind v)
            (turns id (turns_left u.posted) ++ run_posted 0 ∷ [])
            s
          ≡ some t)
        × Left id s t
  unfolding find_session Holds
  stopped_session_leaves strand_needed addr port evs s ran off quiet id u found =
      let law = tcp_kind-IsLawful v shut in
      let made = new_server-Sound (tcp_kind v) (Inv v) strand_needed addr port in
      let (named, on) =
        found_connected (tcp_kind v) (Inv v) law evs (new_server strand_needed addr port) s made ran
          quiet id u found in
      let sound : Sound (tcp_kind v) (Inv v) s =
        subst (Holds (tcp_kind v) (Inv v)) ran
          (run-Holds (tcp_kind v) (Inv v) law evs (new_server strand_needed addr port) made) in
      leaves_with u.posted id u s found refl on named
        (stopped_drains v shut strand_needed addr port evs s ran off quiet id u found) quiet
        sound.table
