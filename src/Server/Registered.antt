-- ===== src/Server/Registered.antt =====
-- A Tcp::Server and its sessions together: over every sequence of their events the table holds sessions that
-- are connected, or about to be unregistered.
use cxx_server.Common.{
  subst, ℕ, ◌≡◌, refl, Bool, true, List, [], ◌∷◌, Option, none, some, arith, inl, inr, Bool-cases,
  if_rule, not, ◌==◌,
}
use cxx_server.Asio.{ErrorCode, Executor, Buffer, null, bytes, size}
use cxx_server.Server.Kinds.{Kind, IsLawful}
use cxx_server.Server.{
  find_session, Server, start_task, stop_task, accept, admit, accept_handler, start, stop,
  multicast, err,
}
use cxx_server.Server.Table.{find, each, emplace-IsTable, each-IsTable}
use cxx_server.Server.Table.Entries.{All, each-All, both-All, emplace-All, find-All}
use cxx_server.Server.System.{
  Event, call_start, call_stop, call_disconnect_all, call_multicast, run_posted, accept_done,
  session_event, room, step, run, then_step, end_accept,
}
use cxx_server.Server.Sound.{waits, Entry, Sound, Holds, enqueue-Sound, sent-Entry, made-Entry}
use cxx_server.Server.Settle.{visit-Sound}
use cxx_server.Server.Preserve.{accept-Sound, disconnect_all-Sound, run_first-Sound}

module _ {S E : Type 0} (k : Kind S E) (P : S → Type 0) (law : IsLawful k P) where
  err-Sound : (e : ErrorCode) (s : Server S) → Sound k P s → Sound k P (err e s)
  unfolding err
  err-Sound e s i =
      if_rule (Sound k P) _ _ _ (λ h. i)
        (λ h. record { empty = i.empty; waiting = i.waiting; held = i.held; table = i.table })

  -- The session that waited is connected, and a new one waits.
  admit-Sound :
      (space id : ℕ) (u : S) (s : Server S)
      → s.session ≡ some u
      → Sound k P s
      → Sound k P (accept k id (admit k space u s))
  unfolding admit
  admit-Sound space id u s q i = elim (Bool-cases s.started) [
    | inl on ↦
        let (j, a, b, w) = i.waiting on in
        let same : u ≡ k.make j s.strand_needed a b = cc (q, w) in
        let (kept, named, once, up, own) =
          law.made j s.strand_needed a b s.keep_alive s.no_delay space in
        let v : S = k.connect s.keep_alive s.no_delay space u in
        let e : Entry k P s.posted (k.id u) v =
          rw (same, own)
            (made-Entry k P law s.posted j s.strand_needed a b s.keep_alive s.no_delay space) in
        accept-Sound k P law id _ (λ off. absurd (ground arith))
          (emplace-All (Entry k P s.posted) (k.id u) v s.sessions e i.held)
          (emplace-IsTable (k.id u) v s.sessions i.table)
    | inr off ↦ let gone : s.session ≡ none = i.empty off in cc
  ]

  accept_handler-Holds :
      (e : Option ErrorCode) (space id : ℕ) (s : Server S)
      → Sound k P s
      → Holds k P (accept_handler k e space id s)
  unfolding accept_handler Holds
  accept_handler-Holds (some e) space id s i =
      let j : Sound k P (err e s) = err-Sound e s i in
      accept-Sound k P law id (err e s) j.empty j.held j.table
  accept_handler-Holds none space id s i = admitted s.session refl
    where
      admitted :
          (o : Option S)
          → s.session ≡ o
          → Holds k P (elim o [ none ↦ none | some u ↦ some (accept k id (admit k space u s)) ])
      admitted none q = tt
      admitted (some u) q = admit-Sound space id u s q i

  end_accept-Holds :
      (e : Option ErrorCode) (space id : ℕ) (xs : List Executor) (s : Server S)
      → Sound k P s
      → Holds k P (end_accept k e space id xs s)
  unfolding end_accept Holds
  end_accept-Holds e space id [] s i = i
  end_accept-Holds e space id (x ∷ rest) s i =
      accept_handler-Holds e space id (record s { accepts = rest })
        (record { empty = i.empty; waiting = i.waiting; held = i.held; table = i.table })

  room-All :
      (buffer : Buffer) (t : List (ℕ × S))
      → room k buffer t ≡ true
      → All (λ j u. k.fits buffer u ≡ true) t
  unfolding room
  room-All buffer [] r = tt
  room-All buffer ((j, u) ∷ rest) r =
      let rs : room k buffer rest ≡ true = ground arith in (ground arith, room-All buffer rest rs)

  multicast-Sound :
      (inside : ℕ → Bool) (buffer : Buffer) (s : Server S)
      → room k buffer s.sessions ≡ true
      → Sound k P s
      → Sound k P (multicast k inside buffer s).0
  unfolding multicast
  multicast-Sound inside (null n) s r i = i
  multicast-Sound inside (bytes data') s r i =
      let send : S → S = λ u. k.send_async (inside (k.id u)) (bytes data') u in
      let sent : Sound k P (record s { sessions = each send s.sessions }) = record {
        empty = i.empty;
        waiting = i.waiting;
        held =
            each-All (λ j u. (k.fits (bytes data') u ≡ true) × Entry k P s.posted j u)
              (Entry k P s.posted) send
              (λ j u p. sent-Entry k P law s.posted inside (bytes data') j u p.0 p.1) s.sessions
              (both-All (λ j u. k.fits (bytes data') u ≡ true) (Entry k P s.posted) s.sessions
                (room-All (bytes data') s.sessions r) i.held);
        table = each-IsTable send s.sessions i.table;
      } in
      elim (Bool-cases (not s.started)) [
        | inl h ↦ rw h i
        | inr h ↦
            rw h
              (elim (Bool-cases (size (bytes data') == 0)) [ inl g ↦ rw g i | inr g ↦ rw g sent ])
      ]

  start-Sound : (s : Server S) → Sound k P s → Sound k P (start s).0
  unfolding start
  start-Sound s i =
      if_rule (λ (r : Server S × Bool). Sound k P r.0) s.started _ _ (λ on. i)
        (λ off. enqueue-Sound k P start_task s i)

  stop-Sound : (s : Server S) → Sound k P s → Sound k P (stop s).0
  unfolding stop
  stop-Sound s i =
      if_rule (λ (r : Server S × Bool). Sound k P r.0) s.started _ _
        (λ on. enqueue-Sound k P stop_task s i) (λ off. i)

  pub step-Holds : (ev : Event E) (s : Server S) → Sound k P s → Holds k P (step k ev s)
  unfolding step Holds
  step-Holds call_start s i = start-Sound s i
  step-Holds call_stop s i = stop-Sound s i
  step-Holds (call_disconnect_all inside) s i = disconnect_all-Sound k P law inside s i
  step-Holds (call_multicast inside buffer) s i =
      if_rule (Sound k P) (room k buffer s.sessions) _ _ (λ r. multicast-Sound inside buffer s r i)
        (λ r. i)
  step-Holds (run_posted id) s i = run_first-Sound k P law id s.posted s refl i
  step-Holds (accept_done e space id) s i = end_accept-Holds e space id s.accepts s i
  step-Holds (session_event inside j ev) s i =
      visit-Sound k P law inside j ev (find j s.sessions) s refl i

  then_step-Holds :
      (f : Server S → Option (Server S)) (o : Option (Server S))
      → ((t : Server S) → Sound k P t → Holds k P (f t))
      → Holds k P o
      → Holds k P (then_step f o)
  unfolding then_step Holds
  then_step-Holds f none g h = tt
  then_step-Holds f (some t) g h = g t h

  -- In every run from a sound server of lawful sessions, unless it ends at an empty `_session`, every session
  -- that the server keeps satisfies the invariant of its kind, is under its own id, and is connected unless the
  -- function that unregisters it waits in the server's executor; no id occurs twice, and a session for the next
  -- connection waits just while the server is started.
  pub run-Holds : (evs : List (Event E)) (s : Server S) → Sound k P s → Holds k P (run k evs s)
  unfolding run Holds
  run-Holds [] s i = i
  run-Holds (ev ∷ evs) s i =
      then_step-Holds (run k evs) (step k ev s) (run-Holds evs) (step-Holds ev s i)

  -- What is found in the table after a run.
  pub run-found :
      (evs : List (Event E)) (s t : Server S)
      → Sound k P s
      → run k evs s ≡ some t
      → (id : ℕ) (u : S) → find_session id t ≡ some u
      → Entry k P t.posted id u
  unfolding find_session Holds
  run-found evs s t i ran id u found =
      let h : Sound k P t = subst (Holds k P) ran (run-Holds evs s i) in
      find-All (Entry k P t.posted) id u t.sessions h.held found

  -- The table agrees with the connections: from a sound server of lawful sessions, when no handler waits in the
  -- server's executor, a session that is found under an id has that id and is connected.
  pub found_connected :
      (evs : List (Event E)) (s t : Server S)
      → Sound k P s
      → run k evs s ≡ some t
      → t.posted ≡ []
      → (id : ℕ) (u : S) → find_session id t ≡ some u
      → (k.id u ≡ id) × (k.connected u ≡ true)
  found_connected evs s t i ran quiet id u found =
      let e = run-found evs s t i ran id u found in
      (
        e.named,
        elim (Bool-cases (k.connected u)) [
          | inl on ↦ on
          | inr off ↦
              absurd (ground (arith, subst (λ ts. waits id ts ≡ true) quiet (e.watched off)))
        ],
      )
