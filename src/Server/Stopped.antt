-- ===== src/Server/Stopped.antt =====
-- What a Tcp::Server that has stopped still keeps: each session in its table is about to disconnect.
use cxx_server.Common.{
  ℕ, ◌≡◌, refl, sym, subst, Bool, true, false, not, ◌==◌, List, [], ◌∷◌, Option, none, some, arith,
  inl, inr, Bool-cases, if_rule, ltb,
}
use cxx_server.Asio.{ErrorCode, Executor, Buffer, null, bytes, size}
use cxx_server.Server.Kinds.{Kind, IsLawful}
use cxx_server.Server.{
  Server, Task, start_task, stop_task, disconnect_all_task, unregister_task, accept, admit,
  accept_handler, start, stop, start_handler, stop_handler, disconnect_sessions, disconnect_all,
  multicast, unregister_session, err,
}
use cxx_server.Server.Table.{find, replace}
use cxx_server.Server.Table.Entries.{All, each_every, erase-All, replace-All, find-All}
use cxx_server.Server.System.{
  Event, call_start, call_stop, call_disconnect_all, call_multicast, run_posted, accept_done,
  session_event, room, step, settle, visit, run, then_step, perform, run_first, end_accept,
}
use cxx_server.Server.Sound.{Sound, Holds}
use cxx_server.Server.Preserve.{stop_made, stop_ignored}
use cxx_server.Server.Registered.{step-Holds}

module _ {S E : Type 0} (k : Kind S E) (closing : S → Bool) where
  -- If it is connected, it is about to disconnect.
  abbrev pub Ends : S → Type 0
  Ends u = (k.connected u ≡ true → closing u ≡ true)

  pub record IsClosing : Type 0 where
    pub disconnected : (u : S) → Ends (k.disconnect u)
    pub stepped : (ev : E) (a b : ℕ) (u : S) → Ends u → Ends (k.step ev (k.share a b u))

  -- All sessions of a stopped server are about to disconnect.
  unfoldable pub Stopped : Server S → Type 0
  Stopped s = (s.started ≡ false → All (λ j u. Ends u) s.sessions)

  unfoldable pub Stops : Option (Server S) → Type 0
  Stops none = Unit
  Stops (some s) = Stopped s

  accept-Stopped : (id : ℕ) (s : Server S) → Stopped s → Stopped (accept k id s)
  unfolding accept Stopped
  accept-Stopped id s i = if_rule Stopped s.started _ _ (λ on. i) (λ off. i)

  err-Stopped : (e : ErrorCode) (s : Server S) → Stopped s → Stopped (err e s)
  unfolding err Stopped
  err-Stopped e s i = if_rule Stopped _ _ _ (λ h. i) (λ h. i)

  start_handler-Stopped : (id : ℕ) (s : Server S) → Stopped s → Stopped (start_handler k id s)
  unfolding start_handler Stopped
  start_handler-Stopped id s i =
      if_rule Stopped s.started _ _ (λ on. i)
        (λ off. accept-Stopped id _ (λ e. absurd (ground arith)))

  disconnect_sessions-Stopped : (s : Server S) → Stopped s → Stopped (disconnect_sessions k s)
  unfolding disconnect_sessions Stopped
  disconnect_sessions-Stopped s i =
      if_rule Stopped s.started _ _ (λ on off. absurd (ground arith)) (λ off. i)

  disconnect_all-Stopped :
      (inside : Bool) (s : Server S) → Stopped s → Stopped (disconnect_all k inside s).0
  unfolding disconnect_all Stopped
  disconnect_all-Stopped inside s i =
      if_rule (λ (r : Server S × Bool). Stopped r.0) s.started _ _
        (λ on. if_rule Stopped inside _ _ (λ at. disconnect_sessions-Stopped s i) (λ away. i))
        (λ off. i)

  admit-Stopped :
      (P : S → Type 0) (space : ℕ) (u : S) (s : Server S)
      → Sound k P s
      → s.session ≡ some u
      → Stopped (admit k space u s)
  unfolding admit Stopped
  admit-Stopped P space u s p q off = let gone : s.session ≡ none = p.empty off in cc

  multicast-Stopped :
      (inside : ℕ → Bool) (buffer : Buffer) (s : Server S)
      → Stopped s
      → Stopped (multicast k inside buffer s).0
  unfolding multicast Stopped
  multicast-Stopped inside (null n) s i = i
  multicast-Stopped inside (bytes data') s i = elim (Bool-cases s.started) [
    | inl on ↦
        if_rule (λ (r : Server S × Bool). Stopped r.0) (not s.started) _ _ (λ h. i)
          (λ h.
            if_rule (λ (r : Server S × Bool). Stopped r.0) (size (bytes data') == 0) _ _ (λ g. i)
              (λ g off. absurd (ground arith)))
    | inr off ↦ rw off (λ h. i off)
  ]

  -- A session is accepted while the server is started.
  accept_handler-Stops :
      (P : S → Type 0) (e : Option ErrorCode) (space id : ℕ) (s : Server S)
      → Sound k P s
      → Stopped s
      → Stops (accept_handler k e space id s)
  unfolding accept_handler Stops
  accept_handler-Stops P (some e) space id s p i = accept-Stopped id (err e s) (err-Stopped e s i)
  accept_handler-Stops P none space id s p i = admitted s.session refl
    where
      admitted :
          (o : Option S)
          → s.session ≡ o
          → Stops (elim o [ none ↦ none | some u ↦ some (accept k id (admit k space u s)) ])
      admitted none q = tt
      admitted (some u) q = accept-Stopped id (admit k space u s) (admit-Stopped P space u s p q)

  module _ (c : IsClosing) where
    stop_handler-Stopped : (s : Server S) → Stopped s → Stopped (stop_handler k s)
    unfolding Stopped
    stop_handler-Stopped s i = elim (Bool-cases s.started) [
      | inl on ↦
          let (off, none', same, posted) = stop_made k s on in
          (λ e.
            subst (λ us. All (λ j u. Ends u) us) (sym same)
              (each_every (λ j u. Ends u) k.disconnect (λ j u. c.disconnected u) s.sessions))
      | inr off ↦ subst Stopped (sym (stop_ignored k s off)) i
    ]

    run_first-Stopped :
        (id : ℕ) (ts : List (Executor × Task)) (s : Server S)
        → Stopped s
        → Stopped (run_first k id ts s)
    unfolding run_first perform unregister_session Stopped
    run_first-Stopped id [] s i = i
    run_first-Stopped id ((x, start_task) ∷ rest) s i =
        start_handler-Stopped id (record s { posted = rest }) i
    run_first-Stopped id ((x, stop_task) ∷ rest) s i =
        stop_handler-Stopped (record s { posted = rest }) i
    run_first-Stopped id ((x, disconnect_all_task) ∷ rest) s i =
        disconnect_sessions-Stopped (record s { posted = rest }) i
    run_first-Stopped id ((x, unregister_task j) ∷ rest) s i =
        λ off. erase-All (λ j u. Ends u) j s.sessions (i off)

    settle-Stopped :
        (inside : Bool) (j : ℕ) (u w : S) (s : Server S)
        → (s.started ≡ false → Ends w)
        → Stopped s
        → Stopped (settle k inside j u w s)
    unfolding settle unregister_session Stopped
    settle-Stopped inside j u w s e i =
        let put : s.started ≡ false → All (λ j u. Ends u) (replace j w s.sessions) =
          λ off. replace-All (λ j u. Ends u) j w s.sessions (e off) (i off) in
        if_rule Stopped (ltb (k.leaves u) (k.leaves w)) _ _
          (λ h.
            if_rule Stopped inside _ _
              (λ at off. erase-All (λ j u. Ends u) (k.id w) (replace j w s.sessions) (put off))
              (λ away. put))
          (λ h. put)

    visit-Stopped :
        (inside : Bool) (j : ℕ) (ev : E) (o : Option S) (s : Server S)
        → find j s.sessions ≡ o
        → Stopped s
        → Stopped (visit k inside j ev o s)
    unfolding visit Stopped
    visit-Stopped inside j ev none s q i = i
    visit-Stopped inside j ev (some u) s q i =
        settle-Stopped inside j u (k.step ev (k.share s.bytes_sent s.bytes_received u)) s
          (λ off.
            c.stepped ev s.bytes_sent s.bytes_received u
              (find-All (λ j u. Ends u) j u s.sessions (i off) q))
          i

    end_accept-Stops :
        (P : S → Type 0) (e : Option ErrorCode) (space id : ℕ) (xs : List Executor) (s : Server S)
        → Sound k P s
        → Stopped s
        → Stops (end_accept k e space id xs s)
    unfolding end_accept Stops Stopped
    end_accept-Stops P e space id [] s p i = i
    end_accept-Stops P e space id (x ∷ rest) s p i =
        accept_handler-Stops P e space id (record s { accepts = rest })
          (record { empty = p.empty; waiting = p.waiting; held = p.held; table = p.table }) i

    step-Stops :
        (P : S → Type 0) (ev : Event E) (s : Server S)
        → Sound k P s
        → Stopped s
        → Stops (step k ev s)
    unfolding step Stops start stop Stopped
    step-Stops P call_start s p i =
        if_rule (λ (r : Server S × Bool). Stopped r.0) s.started _ _ (λ on. i) (λ off. i)
    step-Stops P call_stop s p i =
        if_rule (λ (r : Server S × Bool). Stopped r.0) s.started _ _ (λ on. i) (λ off. i)
    step-Stops P (call_disconnect_all inside) s p i = disconnect_all-Stopped inside s i
    step-Stops P (call_multicast inside buffer) s p i =
        if_rule Stopped (room k buffer s.sessions) _ _ (λ r. multicast-Stopped inside buffer s i)
          (λ r. i)
    step-Stops P (run_posted id) s p i = run_first-Stopped id s.posted s i
    step-Stops P (accept_done e space id) s p i = end_accept-Stops P e space id s.accepts s p i
    step-Stops P (session_event inside j ev) s p i =
        visit-Stopped inside j ev (find j s.sessions) s refl i

    then_step-Stops :
        (P : S → Type 0) (f : Server S → Option (Server S)) (o : Option (Server S))
        → ((t : Server S) → Sound k P t → Stopped t → Stops (f t))
        → Holds k P o
        → Stops o
        → Stops (then_step f o)
    unfolding then_step Stops Holds
    then_step-Stops P f none g p h = tt
    then_step-Stops P f (some t) g p h = g t p h

    pub run-Stops :
        (P : S → Type 0)
        → IsLawful k P
        → (evs : List (Event E)) (s : Server S) → Sound k P s
        → Stopped s
        → Stops (run k evs s)
    unfolding run Stops
    run-Stops P law [] s p i = i
    run-Stops P law (ev ∷ evs) s p i =
        then_step-Stops P (run k evs) (step k ev s) (run-Stops P law evs)
          (step-Holds k P law ev s p) (step-Stops P ev s p i)
