-- ===== src/Server/Emptied.antt =====
-- How a plain Tcp::Server that has stopped lets go of all its sessions.
use cxx_server.Common.{
  ℕ, ◌≡◌, refl, sym, subst, ap, ◌∙◌, Bool, true, false, List, [], ◌∷◌, ◌++◌, some, ℕ_discrete,
}
use cxx_server.Session.{Session, Virtuals}
use cxx_server.Session.System as Session
use cxx_server.Session.Closing.{closing}
use cxx_server.Session.Invariant.{Inv}
use cxx_server.Server.{Server, new_server, find_session}
use cxx_server.Server.Sound.{Sound, Holds, new_server-Sound}
use cxx_server.Server.Registered.{run-Holds, found_connected}
use cxx_server.Server.Drained.{stopped_drains}
use cxx_server.Server.Leaving.{turns, turns_left, leaves_with}
use cxx_server.Server.Table.{find, IsTable, find-cons_other, find-cons_self, empty_of_find}
use cxx_server.Server.Table.Entries.{All, found-All}
use cxx_server.Server.System.{Event, run_posted, run, then_step, run-append}
use cxx_server.Server.Tcp.{tcp_kind, tcp_kind-IsLawful}

-- The handlers that are posted to the sessions run up to their disconnects, session by session, and after each
-- session the handler that it posts to the server.
abbrev pub drain : List (ℕ × Session) → List (Event Session.Event)
drain [] = []
drain ((id, u) ∷ rest) = (turns id (turns_left u.posted) ++ run_posted 0 ∷ []) ++ drain rest

-- The session under an id is connected, and its disconnect is posted.
pub record Leaves (id : ℕ) (u : Session) : Type 0 where
  pub named : u.id ≡ id
  pub connected : u.connected ≡ true
  pub closes : closing u.posted ≡ true

module _ (v : Virtuals) (shut : v.complete false ≡ false) where
  -- `us` are the entries that the server still has.
  drains :
      (us : List (ℕ × Session)) (s : Server Session)
      → ((id : ℕ) → find id s.sessions ≡ find id us)
      → All Leaves us
      → IsTable us
      → s.posted ≡ []
      → IsTable s.sessions
      → (t : Server Session) × (run (tcp_kind v) (drain us) s ≡ some t)
        × (t.sessions ≡ [])
        × (t.posted ≡ [])
  unfolding run find then_step
  drains [] s same each once quiet i = (s, refl, empty_of_find s.sessions same, quiet)
  drains ((id, u) ∷ rest) s same each once quiet i =
      let l = each.0 in
      let (m, ran, left) =
        leaves_with v shut u.posted id u s (same id ∙ find-cons_self id u rest) refl l.connected
          l.named l.closes quiet i in
      let later : (j : ℕ) → find j m.sessions ≡ find j rest = λ j. elim (ℕ_discrete j id) [
        | yes e ↦ subst (λ n. find n m.sessions ≡ find n rest) (sym e) (left.gone ∙ sym once.0)
        | no d ↦ left.others j d ∙ same j ∙ find-cons_other id j u rest d
      ] in
      let (t, ends, empty, calm) = drains rest m later each.1 once.1 left.quiet left.table in
      (
        t,
        run-append (tcp_kind v) (turns id (turns_left u.posted) ++ run_posted 0 ∷ []) (drain rest) s
            ∙ ap (then_step (run (tcp_kind v) (drain rest))) ran
            ∙ ends,
        empty,
        calm,
      )

  -- After any run of a new server, if `isConnectionComplete` is false of a session that is not connected, the
  -- server is stopped and no handler waits in its executor, its table empties: once the handlers posted to each
  -- session in it have run up to its disconnect, each followed by the one that this posts to the server, the server
  -- has no session left, and no handler waits in its executor.
  pub stopped_server_empties :
      (strand_needed : Bool) (addr : List ℕ) (port : ℕ) (evs : List (Event Session.Event))
      (s : Server Session)
      → run (tcp_kind v) evs (new_server strand_needed addr port) ≡ some s
      → s.started ≡ false
      → s.posted ≡ []
      → (t : Server Session) × (run (tcp_kind v) (drain s.sessions) s ≡ some t)
        × (t.sessions ≡ [])
        × (t.posted ≡ [])
  unfolding find_session Holds
  stopped_server_empties strand_needed addr port evs s ran off quiet =
      let law = tcp_kind-IsLawful v shut in
      let first = new_server strand_needed addr port in
      let made = new_server-Sound (tcp_kind v) (Inv v) strand_needed addr port in
      let sound : Sound (tcp_kind v) (Inv v) s =
        subst (Holds (tcp_kind v) (Inv v)) ran
          (run-Holds (tcp_kind v) (Inv v) law evs first made) in
      let each : All Leaves s.sessions = found-All Leaves s.sessions sound.table (λ id u found.
        let (named, on) =
          found_connected (tcp_kind v) (Inv v) law evs first s made ran quiet id u found in
        record {
          named = named;
          connected = on;
          closes = stopped_drains v shut strand_needed addr port evs s ran off quiet id u found;
        }) in
      drains s.sessions s (λ id. refl) each sound.table quiet sound.table
