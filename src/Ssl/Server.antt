-- ===== src/Ssl/Server.antt =====
-- SSL::Server of include/core/tcp/ssl_server.hxx and source/core/tcp/ssl_server.cxx: a Tcp::Server whose sessions
-- are SSL sessions. The context is asio's, and stands as a number.
use cxx_server.Common.{
  ℕ, ◌≡◌, refl, ◌∙◌, subst, Bool, true, false, List, [], ◌∷◌, Option, none, some, arith,
}
use cxx_server.Asio.{ErrorCode, Executor}
use cxx_server.Session.{Session, Virtuals, err, disconnect, send_async, new, try_receive}
use cxx_server.Session.Handlers.{connect_stream, tell_empty}
use cxx_server.Session.System.{fits}
use cxx_server.Session.Invariant.{disconnect-Inv}
use cxx_server.Session.Keeps.{
  Keeps, leaves, leavings, step-Keeps, disconnect-Keeps, send_async-Keeps, send_async_connected,
}
use cxx_server.Server.Kinds.{Kind, IsLawful}
use cxx_server.Server.{Server, new_server, find_session}
use cxx_server.Server.System.{Event, run}
use cxx_server.Server.Sound.{Sound, new_server-Sound}
use cxx_server.Server.Registered.{run-found}
use cxx_server.Server.Tcp.{share, share-Inv, share-Keeps, disconnect_connected, fitting-Inv}
use cxx_server.Ssl.Session.{
  SslSession, virtuals, new_session, connect, begin_receive, handshake_handler, handshake_done,
  tcp_event, end_handshake, ssl_step,
}
use cxx_server.Ssl.Session as Ssl
use cxx_server.Ssl.Handshake.{SslInv, connect-SslInv, ssl_step-SslInv, gated}
use cxx_server.Session.Stream.{unsent}

pub record SslServer : Type 0 where
  pub server : Server SslSession
  pub context : ℕ

-- The constructors; the one from a protocol leaves the address empty. A null context throws.
unfoldable pub new_ssl_server : Option ℕ → Bool → List ℕ → ℕ → Option SslServer
new_ssl_server none strand_needed addr port = none
new_ssl_server (some context) strand_needed addr port =
    some (record { server = new_server strand_needed addr port; context = context })

-- The sessions of the server: `newSession` makes an SSL session.
abbrev pub ssl_kind : Kind SslSession Ssl.Event
ssl_kind = record {
  id = λ s. s.session.id;
  connected = λ s. s.session.connected;
  make = new_session;
  connect = connect;
  disconnect = λ s. record s { session = (disconnect false false s.session).0 };
  send_async = λ inside buffer s. record s {
    session = (send_async (virtuals s.handshaked) inside buffer s.session).0;
  };
  fits = λ buffer s. fits buffer s.session;
  step = ssl_step;
  bytes_sent = λ s. s.session.server_sent;
  bytes_received = λ s. s.session.server_received;
  share = λ a b s. record s { session = share a b s.session };
  leaves = λ s. leaves s.session.calls;
}

begin_receive-Keeps : (s : Session) → Keeps s (begin_receive s)
unfolding begin_receive tell_empty try_receive
begin_receive-Keeps s = ground arith

refused-Keeps :
    (v : Virtuals) (c : ErrorCode) (s : Session) → Keeps s (disconnect false true (err v c s)).0
unfolding err
refused-Keeps v c s = ground (arith, disconnect-Keeps v false true (err v c s))

handshake_handler-Keeps :
    (e : Option ErrorCode) (s : SslSession) → Keeps s.session (handshake_handler e s).session
unfolding handshake_handler
handshake_handler-Keeps none s = ground (arith, begin_receive-Keeps s.session)
handshake_handler-Keeps (some c) s =
    ground (arith, refused-Keeps (virtuals s.handshaked) c s.session)

end_handshake-Keeps :
    (e : Option ErrorCode) (xs : List Executor) (s : SslSession)
    → Keeps s.session (end_handshake e xs s).session
unfolding end_handshake
end_handshake-Keeps e [] s = ground arith
end_handshake-Keeps e (x ∷ rest) s = handshake_handler-Keeps e (record s { handshakes = rest })

pub ssl_step-Keeps : (ev : Ssl.Event) (s : SslSession) → Keeps s.session (ssl_step ev s).session
unfolding ssl_step
ssl_step-Keeps (handshake_done e) s = end_handshake-Keeps e s.handshakes s
ssl_step-Keeps (tcp_event ev) s = step-Keeps (virtuals s.handshaked) ev s.session

connect_made :
    (id : ℕ) (needed : Bool) (a b : ℕ) (alive delay : Bool) (space : ℕ)
    → let t = (connect alive delay space (new_session id needed a b)).session in
      (t.id ≡ id)
      × (leavings t ≡ 1)
      × (t.connected ≡ true)
      × ((new_session id needed a b).session.id ≡ id)
unfolding connect connect_stream new_session new try_receive
connect_made id needed a b alive delay space = ground arith

pub ssl_kind-IsLawful : IsLawful ssl_kind SslInv
ssl_kind-IsLawful = record {
  made = λ id needed a b alive delay space.
      let (same, once, on, own) = connect_made id needed a b alive delay space in
      (connect-SslInv id needed a b alive delay space, same, once, on, own);
  disconnected = λ u i.
      let v = virtuals u.handshaked in
      let k = disconnect-Keeps v false false u.session in
      (
        disconnect-Inv v refl false false u.session i,
        k.named,
        k.once,
        disconnect_connected v refl u.session,
      );
  sent = λ inside buffer u f i.
      let v = virtuals u.handshaked in
      let k = send_async-Keeps v inside buffer u.session in
      (
        fitting-Inv v refl inside buffer u.session f i,
        k.named,
        k.once,
        send_async_connected v inside buffer u.session,
      );
  stepped = λ ev a b u i.
      let w : SslSession = record u { session = share a b u.session } in
      let k = ssl_step-Keeps ev w in
      let m = share-Keeps (virtuals u.handshaked) refl a b u.session in
      (
        ssl_step-SslInv ev w (share-Inv (virtuals u.handshaked) refl a b u.session i),
        k.named ∙ m.named,
        k.once ∙ m.once,
      );
}

-- A server that has just been made is sound.
new_ssl_server-Sound :
    (context : ℕ) (strand_needed : Bool) (addr : List ℕ) (port : ℕ) (s : SslServer)
    → new_ssl_server (some context) strand_needed addr port ≡ some s
    → Sound ssl_kind SslInv s.server
unfolding new_ssl_server
new_ssl_server-Sound context strand_needed addr port s q =
    let same : new_server strand_needed addr port ≡ s.server = cc in
    subst (Sound ssl_kind SslInv) same (new_server-Sound ssl_kind SslInv strand_needed addr port)

-- Whatever events a new SSL server and its sessions see, a session that is found in its table, connected and not
-- handshaked, holds no byte to be sent, and no read or write of its stream is outstanding.
pub found_before_handshake :
    (context : ℕ) (strand_needed : Bool) (addr : List ℕ) (port : ℕ) (s : SslServer)
    → new_ssl_server (some context) strand_needed addr port ≡ some s
    → (evs : List (Event Ssl.Event)) (t : Server SslSession) → run ssl_kind evs s.server ≡ some t
    → (id : ℕ) (u : SslSession) → find_session id t ≡ some u
    → u.handshaked ≡ false
    → u.session.connected ≡ true
    → (unsent u.session ≡ []) × (u.session.reads ≡ []) × (u.session.writes ≡ [])
found_before_handshake context strand_needed addr port s made evs t ran id u found off on =
    let first : Sound ssl_kind SslInv s.server =
      new_ssl_server-Sound context strand_needed addr port s made in
    let e = run-found ssl_kind SslInv ssl_kind-IsLawful evs s.server t first ran id u found in
    gated u e.kept off on
