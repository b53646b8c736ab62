-- ===== src/Server/Accepting.antt =====
-- A started Tcp::Server is always accepting, and never without a session to accept into, until it runs a
-- stop; after that it can be.
use cxx_server.Common.{
  ℕ, ◌≡◌, refl, Bool, true, false, List, [], ◌∷◌, Option, none, some, arith, inl, inr, Bool-cases,
  if_rule, ◌∙◌,
}
use cxx_server.Asio.{ErrorCode, Executor, Buffer, null, bytes}
use cxx_server.Server.Kinds.{Kind, IsLawful}
use cxx_server.Server.{
  Server, Task, start_task, stop_task, disconnect_all_task, unregister_task, executor, accept,
  admit, accept_handler, start, stop, start_handler, prepare, disconnect_sessions, disconnect_all,
  multicast, unregister_session, err, stop_handler,
}
use cxx_server.Server.Sound.{Sound, Holds}
use cxx_server.Server.Registered.{step-Holds}
use cxx_server.Server.Table.{find}
use cxx_server.Server.System.{
  Event, call_start, call_stop, call_disconnect_all, call_multicast, run_posted, accept_done,
  session_event, room, step, settle, visit, run, then_step, perform, run_first, end_accept,
}

-- The next handler is not that of a stop.
abbrev Stays : List (Executor × Task) → Type 0
Stays [] = Unit
Stays ((x, stop_task) ∷ rest) = ⊥
Stays ((x, start_task) ∷ rest) = Unit
Stays ((x, disconnect_all_task) ∷ rest) = Unit
Stays ((x, unregister_task j) ∷ rest) = Unit

module _ {S : Type 0} where
  pub record Listening (s : Server S) : Type 0 where
    pub listening : s.started ≡ true → s.accepts ≡ executor s ∷ []
    pub idle : s.started ≡ false → s.accepts ≡ []

  abbrev pub IsStaying : {E : Type 0} → Event E → Server S → Type 0
  IsStaying (run_posted id) s = Stays s.posted
  IsStaying _ s = Unit

  abbrev pub On : (Server S → Type 0) → Option (Server S) → Type 0
  On P none = Unit
  On P (some t) = P t

  -- The server goes on, and has one accept outstanding if it is started.
  unfoldable Listens : Option (Server S) → Type 0
  Listens none = ⊥
  Listens (some s) = Listening s

  err_kept : (e : ErrorCode) (s : Server S) → (err e s).accepts ≡ s.accepts
  unfolding err
  err_kept e s = ground arith

  -- What the handler of a start changes before it accepts.
  prepare_kept : (s : Server S) → (prepare s).accepts ≡ s.accepts
  unfolding prepare
  prepare_kept s = ground arith

-- Along the run no stop is run.
unfoldable pub AllStaying : {S E : Type 0} → Kind S E → List (Event E) → Server S → Type 0
AllStaying k [] s = Unit
AllStaying k (ev ∷ evs) s = IsStaying ev s × On (AllStaying k evs) (step k ev s)

module _ {S E : Type 0} (k : Kind S E) where
  -- `accept` in a server with no accept outstanding.
  accept-Listening : (id : ℕ) (s : Server S) → s.accepts ≡ [] → Listening (accept k id s)
  unfolding accept
  accept-Listening id s h = ground arith

  disconnect_sessions-Listening : (s : Server S) → Listening s → Listening (disconnect_sessions k s)
  unfolding disconnect_sessions
  disconnect_sessions-Listening s i = ground arith

  disconnect_all-Listening :
      (inside : Bool) (s : Server S) → Listening s → Listening (disconnect_all k inside s).0
  unfolding disconnect_all
  disconnect_all-Listening inside s i = ground (arith, disconnect_sessions-Listening s i)

  start_handler-Listening : (id : ℕ) (s : Server S) → Listening s → Listening (start_handler k id s)
  unfolding start_handler
  start_handler-Listening id s i =
      if_rule Listening s.started _ _ (λ on. i)
        (λ off. accept-Listening id _ (prepare_kept s ∙ i.idle off))

  taken-Listening :
      (ts : List (Executor × Task)) (s : Server S)
      → Listening s
      → Listening (record s { posted = ts })
  taken-Listening ts s i = ground arith

  -- A task other than a stop.
  run_first-Listening :
      (id : ℕ) (ts : List (Executor × Task)) (s : Server S)
      → Stays ts
      → Listening s
      → Listening (run_first k id ts s)
  unfolding run_first perform unregister_session
  run_first-Listening id [] s h i = i
  run_first-Listening id ((x, start_task) ∷ rest) s h i =
      start_handler-Listening id (record s { posted = rest }) (taken-Listening rest s i)
  run_first-Listening id ((x, stop_task) ∷ rest) s h i = absurd h
  run_first-Listening id ((x, disconnect_all_task) ∷ rest) s h i =
      disconnect_sessions-Listening (record s { posted = rest }) (taken-Listening rest s i)
  run_first-Listening id ((x, unregister_task j) ∷ rest) s h i = ground arith

  -- The completion of the accept that is outstanding, into the session that waits.
  accept_handler-Listens :
      (e : Option ErrorCode) (space id : ℕ) (u : S) (s : Server S)
      → s.accepts ≡ []
      → s.session ≡ some u
      → Listens (accept_handler k e space id s)
  unfolding accept_handler Listens admit
  accept_handler-Listens (some e) space id u s h q =
      accept-Listening id (err e s) (err_kept e s ∙ h)
  accept_handler-Listens none space id u s h q = rw q (accept-Listening id (admit k space u s) h)

  multicast-Listening :
      (inside : ℕ → Bool) (buffer : Buffer) (s : Server S)
      → Listening s
      → Listening (multicast k inside buffer s).0
  unfolding multicast
  multicast-Listening inside (null n) s i = i
  multicast-Listening inside (bytes data') s i = ground arith

  settle-Listening :
      (inside : Bool) (j : ℕ) (u w : S) (s : Server S)
      → Listening s
      → Listening (settle k inside j u w s)
  unfolding settle unregister_session
  settle-Listening inside j u w s i = ground arith

  visit-Listening :
      (inside : Bool) (j : ℕ) (ev : E) (o : Option S) (s : Server S)
      → Listening s
      → Listening (visit k inside j ev o s)
  unfolding visit
  visit-Listening inside j ev none s i = i
  visit-Listening inside j ev (some u) s i =
      settle-Listening inside j u (k.step ev (k.share s.bytes_sent s.bytes_received u)) s i

  module _ (P : S → Type 0) where
    end_accept-Listens :
        (e : Option ErrorCode) (space id : ℕ) (xs : List Executor) (s : Server S)
        → s.accepts ≡ xs
        → Listening s
        → Sound k P s
        → Listens (end_accept k e space id xs s)
    unfolding end_accept Listens
    end_accept-Listens e space id [] s q i p = i
    end_accept-Listens e space id (x ∷ rest) s q i p = elim (Bool-cases s.started) [
      | inl on ↦
          let alone : rest ≡ [] = ground (arith, i.listening on) in
          let (a, b, c, w) = p.waiting on in
          accept_handler-Listens e space id (k.make a s.strand_needed b c)
            (record s { accepts = rest }) alone w
      | inr off ↦ absurd (ground (arith, i.idle off))
    ]

    step-Listens :
        (ev : Event E) (s : Server S)
        → IsStaying ev s
        → Listening s
        → Sound k P s
        → Listens (step k ev s)
    unfolding step Listens start stop
    step-Listens call_start s h i p = ground arith
    step-Listens call_stop s h i p = ground arith
    step-Listens (call_disconnect_all inside) s h i p = disconnect_all-Listening inside s i
    step-Listens (call_multicast inside buffer) s h i p =
        if_rule Listening (room k buffer s.sessions) _ _
          (λ r. multicast-Listening inside buffer s i) (λ r. i)
    step-Listens (run_posted id) s h i p = run_first-Listening id s.posted s h i
    step-Listens (accept_done e space id) s h i p =
        end_accept-Listens e space id s.accepts s refl i p
    step-Listens (session_event inside j ev) s h i p =
        visit-Listening inside j ev (find j s.sessions) s i

    -- The server goes on, has one accept outstanding if it is started, and is sound.
    unfoldable pub Goes : Option (Server S) → Type 0
    Goes none = ⊥
    Goes (some s) = Listening s × Sound k P s

    both-Goes : (o : Option (Server S)) → Listens o → Holds k P o → Goes o
    unfolding Goes Listens Holds
    both-Goes none h i = h
    both-Goes (some s) h i = (h, i)

    then_step-Goes :
        (Q : Server S → Type 0) (f : Server S → Option (Server S)) (o : Option (Server S))
        → ((t : Server S) → Q t → Listening t → Sound k P t → Goes (f t))
        → On Q o
        → Goes o
        → Goes (then_step f o)
    unfolding then_step Goes
    then_step-Goes Q f none g p h = h
    then_step-Goes Q f (some t) g p h = g t p h.0 h.1

    -- Until it runs a stop, a server of lawful sessions never finds its `_session` empty when an accept ends:
    -- from a listening and sound server, after any events, whenever it is started exactly one accept is
    -- outstanding, into a session just made, and what holds of the sessions in its table still holds.
    pub run-Accepting :
        IsLawful k P
        → (evs : List (Event E)) (s : Server S) → AllStaying k evs s
        → Listening s
        → Sound k P s
        → Goes (run k evs s)
    unfolding run AllStaying Goes
    run-Accepting law [] s h i p = (i, p)
    run-Accepting law (ev ∷ evs) s h i p =
        then_step-Goes (AllStaying k evs) (run k evs) (step k ev s) (run-Accepting law evs) h.1
          (both-Goes (step k ev s) (step-Listens ev s h.0 i p) (step-Holds k P law ev s p))

  -- The handler of an accept without an error that runs after the stop of a started server dereferences the
  -- `_session` that the stop has reset.
  pub stop-accept_handler :
      (space id : ℕ) (s : Server S)
      → s.started ≡ true
      → accept_handler k none space id (stop_handler k s) ≡ none
  unfolding accept_handler stop_handler disconnect_all disconnect_sessions
  stop-accept_handler space id s h = ground arith
