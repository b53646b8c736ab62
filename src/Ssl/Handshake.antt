-- ===== src/Ssl/Handshake.antt =====
-- The handshake of SSL::Session: what it gates, and what holds before and after it.
use cxx_server.Common.{
  ℕ, ◌≡◌, refl, Bool, true, false, if_rule, List, [], ◌∷◌, Option, none, some, arith, drop-nil,
  subst,
}
use cxx_server.Asio.{ErrorCode, Executor}
use cxx_server.Session.{Session, new, try_receive, call, on_handshaked, server_handshaked}
use cxx_server.Session.Handlers.{connect_stream, tell_empty}
use cxx_server.Session.Invariant.{Inv, disconnect-Inv, err-Inv, try_receive-Inv}
use cxx_server.Session.Preserve.{step-Inv}
use cxx_server.Session.Stream.{unsent}
use cxx_server.Ssl.Session.{
  SslSession, virtuals, connect, new_session, begin_receive, handshake_handler, Event,
  handshake_done, tcp_event, end_handshake, ssl_step, ssl_run,
}

shut : (h : Bool) → (virtuals h).complete false ≡ false
shut h = refl

-- The invariant of Tcp::Session, with the flag as it is.
abbrev pub SslInv : SslSession → Type 0
SslInv s = Inv (virtuals s.handshaked) s.session

-- What holds before the handshake holds after it.
handshaked-Inv : (s : Session) → Inv (virtuals false) s → Inv (virtuals true) s
handshaked-Inv s i = ground arith

told-Inv :
    (s : Session)
    → Inv (virtuals true) s
    → Inv (virtuals true) (tell_empty (call server_handshaked (call on_handshaked s)))
unfolding tell_empty
told-Inv s i = ground arith

begin_receive-Inv : (s : Session) → Inv (virtuals true) s → Inv (virtuals true) (begin_receive s)
unfolding begin_receive
begin_receive-Inv s i =
    told-Inv (try_receive (virtuals true) s) (try_receive-Inv (virtuals true) refl s i)

handshake_handler-SslInv :
    (e : Option ErrorCode) (s : SslSession) → SslInv s → SslInv (handshake_handler e s)
unfolding handshake_handler
handshake_handler-SslInv none s i =
    if_rule SslInv s.handshaked _ _ (λ done. i)
      (λ yet.
        begin_receive-Inv s.session
          (handshaked-Inv s.session (subst (λ h. Inv (virtuals h) s.session) yet i)))
handshake_handler-SslInv (some c) s i =
    if_rule SslInv s.handshaked _ _ (λ done. i)
      (λ yet.
        disconnect-Inv (virtuals s.handshaked) refl false true _
          (err-Inv (virtuals s.handshaked) refl c s.session i))

end_handshake-SslInv :
    (e : Option ErrorCode) (xs : List Executor) (s : SslSession)
    → SslInv s
    → SslInv (end_handshake e xs s)
unfolding end_handshake
end_handshake-SslInv e [] s i = i
end_handshake-SslInv e (x ∷ rest) s i =
    handshake_handler-SslInv e (record s { handshakes = rest }) i

pub ssl_step-SslInv : (ev : Event) (s : SslSession) → SslInv s → SslInv (ssl_step ev s)
unfolding ssl_step
ssl_step-SslInv (handshake_done e) s i = end_handshake-SslInv e s.handshakes s i
ssl_step-SslInv (tcp_event ev) s i = step-Inv (virtuals s.handshaked) refl ev s.session i

-- Every sequence of events of an SSL session, the end of the handshake among them, keeps the invariant of
-- Tcp::Session, which says that the buffers are empty while the session is not connected and handshaked.
pub ssl_run-SslInv : (evs : List Event) (s : SslSession) → SslInv s → SslInv (ssl_run evs s)
unfolding ssl_run
ssl_run-SslInv [] s i = i
ssl_run-SslInv (ev ∷ evs) s i = ssl_run-SslInv evs (ssl_step ev s) (ssl_step-SslInv ev s i)

pub connect-SslInv :
    (id : ℕ) (needed : Bool) (a b : ℕ) (alive delay : Bool) (space : ℕ)
    → SslInv (connect alive delay space (new_session id needed a b))
unfolding connect new_session connect_stream new try_receive
connect-SslInv id needed a b alive delay space = ground arith

pub gated :
    (s : SslSession)
    → SslInv s
    → s.handshaked ≡ false
    → s.session.connected ≡ true
    → (unsent s.session ≡ []) × (s.session.reads ≡ []) × (s.session.writes ≡ [])
gated s i h c = ground (arith, drop-nil {A = ℕ} s.session.send_flush_offset)

-- Until its handshake has ended well, a connected SSL session that the server has accepted holds no byte to
-- be sent and has no read or write of the stream outstanding, whatever events come.
no_data_before_handshake :
    (id : ℕ) (needed : Bool) (a b : ℕ) (alive delay : Bool) (space : ℕ) (evs : List Event)
    → (ssl_run evs (connect alive delay space (new_session id needed a b))).handshaked ≡ false
    → (ssl_run evs (connect alive delay space (new_session id needed a b))).session.connected ≡ true
    → let t = ssl_run evs (connect alive delay space (new_session id needed a b)) in
      (unsent t.session ≡ []) × (t.session.reads ≡ []) × (t.session.writes ≡ [])
no_data_before_handshake id needed a b alive delay space evs h c =
    let start : SslSession = connect alive delay space (new_session id needed a b) in
    gated (ssl_run evs start)
      (ssl_run-SslInv evs start (connect-SslInv id needed a b alive delay space)) h c
