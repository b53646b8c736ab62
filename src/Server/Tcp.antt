-- ===== src/Server/Tcp.antt =====
-- The sessions of a plain Tcp::Server: `newSession` of include/core/tcp/tcp_server.hxx makes a Tcp::Session.
use cxx_server.Common.{ℕ, ◌≡◌, ◌∙◌, subst, if◌then◌else◌, Bool, true, false, arith}
use cxx_server.Asio.{Buffer}
use cxx_server.Session.{Session, Virtuals, new, try_receive, send_async, disconnect}
use cxx_server.Session.Handlers.{connect, connect_stream, tell_empty}
use cxx_server.Session.System.{Event, fits, step}
use cxx_server.Session.Invariant.{Inv, disconnect-Inv}
use cxx_server.Session.Preserve.{step-Inv, connect-Inv, send_async-Inv}
use cxx_server.Session.Keeps.{
  Keeps, leaves, leavings, step-Keeps, disconnect-Keeps, send_async-Keeps, send_async_connected,
}
use cxx_server.Server.Kinds.{Kind, IsLawful}

-- The server's counters, which the session adds to.
unfoldable pub share : ℕ → ℕ → Session → Session
share a b s = record s { server_sent = a; server_received = b }

abbrev pub tcp_kind : Virtuals → Kind Session Event
tcp_kind v = record {
  id = λ s. s.id;
  connected = λ s. s.connected;
  make = new;
  connect = connect v;
  disconnect = λ s. (disconnect false false s).0;
  send_async = λ inside buffer s. (send_async v inside buffer s).0;
  fits = fits;
  step = step v;
  bytes_sent = λ s. s.server_sent;
  bytes_received = λ s. s.server_received;
  share = share;
  leaves = λ s. leaves s.calls;
}

module _ (v : Virtuals) (shut : v.complete false ≡ false) where
  connect_made :
      (id : ℕ) (needed : Bool) (a b : ℕ) (alive delay : Bool) (space : ℕ)
      → let t = connect v alive delay space (new id needed a b) in
        (t.id ≡ id) × (leavings t ≡ 1) × (t.connected ≡ true) × ((new id needed a b).id ≡ id)
  unfolding connect connect_stream tell_empty new try_receive
  connect_made id needed a b alive delay space = ground arith

  pub share-Inv : (a b : ℕ) (s : Session) → Inv v s → Inv v (share a b s)
  unfolding share
  share-Inv a b s i = ground arith

  pub share-Keeps : (a b : ℕ) (s : Session) → Keeps s (share a b s)
  unfolding share
  share-Keeps a b s = ground arith

  pub disconnect_connected : (s : Session) → (disconnect false false s).0.connected ≡ s.connected
  unfolding disconnect
  disconnect_connected s = ground arith

  pub fitting-Inv :
      (inside : Bool) (buffer : Buffer) (s : Session)
      → fits buffer s ≡ true
      → Inv v s
      → Inv v (send_async v inside buffer s).0
  unfolding step
  fitting-Inv inside buffer s f i =
      subst (λ b. Inv v (if b then (send_async v inside buffer s).0 else s)) f
        (send_async-Inv v shut inside buffer s i)

  pub tcp_kind-IsLawful : IsLawful (tcp_kind v) (Inv v)
  tcp_kind-IsLawful = record {
    made = λ id needed a b alive delay space.
        let (same, once, on, own) = connect_made id needed a b alive delay space in
        (connect-Inv v shut id needed a b alive delay space, same, once, on, own);
    disconnected = λ u i.
        let k = disconnect-Keeps v false false u in
        (disconnect-Inv v shut false false u i, k.named, k.once, disconnect_connected u);
    sent = λ inside buffer u f i.
        let k = send_async-Keeps v inside buffer u in
        (fitting-Inv inside buffer u f i, k.named, k.once, send_async_connected v inside buffer u);
    stepped = λ ev a b u i.
        let w = share a b u in
        let k = step-Keeps v ev w in
        let m = share-Keeps a b u in
        (step-Inv v shut ev w (share-Inv a b u i), k.named ∙ m.named, k.once ∙ m.once);
  }
