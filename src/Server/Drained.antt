-- ===== src/Server/Drained.antt =====
-- What a plain Tcp::Server keeps after it has stopped.
use cxx_server.Common.{
  ℕ, ◌≡◌, sym, subst, ◌∙◌, Bool, true, false, List, [], some, arith, inl, inr, Bool-cases,
}
use cxx_server.Session.{Session, Virtuals}
use cxx_server.Session.System.{step}
use cxx_server.Session.System as Session
use cxx_server.Session.Invariant.{Inv}
use cxx_server.Session.Lifetime.{step-Settled}
use cxx_server.Session.Closing.{closing, disconnect-closing, step-closing}
use cxx_server.Server.{Server, new_server, find_session}
use cxx_server.Server.Table.Entries.{find-All}
use cxx_server.Server.System.{Event, run}
use cxx_server.Server.Sound.{Sound, new_server-Sound}
use cxx_server.Server.Registered.{found_connected}
use cxx_server.Server.Stopped.{IsClosing, Ends, Stopped, Stops, run-Stops}
use cxx_server.Server.Tcp.{tcp_kind, tcp_kind-IsLawful, share, disconnect_connected}

abbrev pub ends : Session → Bool
ends u = closing u.posted

module _ (v : Virtuals) (shut : v.complete false ≡ false) where
  tcp_kind-IsClosing : IsClosing (tcp_kind v) ends
  unfolding share
  tcp_kind-IsClosing = record {
    disconnected = λ u on. disconnect-closing u (sym (disconnect_connected v shut u) ∙ on);
    stepped = λ ev a b u e on. elim (Bool-cases u.connected) [
      | inl was ↦ step-closing v ev (share a b u) (e was) on
      | inr off ↦
          let gone = (step-Settled v shut ev (share a b u) off).closed in
          absurd (ground (arith, gone, on))
    ];
  }

  -- After any run of a new server, if `isConnectionComplete` is false of a session that is not connected, the
  -- server is stopped and no handler waits in its executor, every session that is found in its table waits to
  -- disconnect: its own disconnect is posted.
  pub stopped_drains :
      (strand_needed : Bool) (addr : List ℕ) (port : ℕ) (evs : List (Event Session.Event))
      (t : Server Session)
      → run (tcp_kind v) evs (new_server strand_needed addr port) ≡ some t
      → t.started ≡ false
      → t.posted ≡ []
      → (id : ℕ) (u : Session) → find_session id t ≡ some u
      → closing u.posted ≡ true
  unfolding Stops Stopped new_server find_session
  stopped_drains strand_needed addr port evs t ran off quiet id u found =
      let s : Server Session = new_server strand_needed addr port in
      let law = tcp_kind-IsLawful v shut in
      let first : Sound (tcp_kind v) (Inv v) s =
        new_server-Sound (tcp_kind v) (Inv v) strand_needed addr port in
      let stops : Stops (tcp_kind v) ends (some t) =
        subst (Stops (tcp_kind v) ends) ran
          (run-Stops (tcp_kind v) ends tcp_kind-IsClosing (Inv v) law evs s first (λ e. tt)) in
      let (named, on) =
        found_connected (tcp_kind v) (Inv v) law evs s t first ran quiet id u found in
      find-All (λ j u. Ends (tcp_kind v) ends u) id u t.sessions (stops off) found on
