-- ===== src/Echo/Server.antt =====
-- EchoServer of performance/echo_tcp_server.cxx and performance/echo_ssl_server.cxx: its `newSession` makes an
-- EchoSession, and an SSL::Server's one an EchoSession over SSL.
use cxx_server.Common.{◌≡◌, refl, ◌∙◌, false}
use cxx_server.Session.{Session, Virtuals}
use cxx_server.Session.System.{Event}
use cxx_server.Session.Invariant.{Inv}
use cxx_server.Session.Keeps.{Keeps}
use cxx_server.Server.Kinds.{Kind, IsLawful}
use cxx_server.Server.Tcp.{tcp_kind, tcp_kind-IsLawful, share, share-Inv, share-Keeps}
use cxx_server.Ssl.Session.{SslSession, virtuals, ssl_step, handshake_done, tcp_event}
use cxx_server.Ssl.Session as Ssl
use cxx_server.Ssl.Handshake.{SslInv, ssl_step-SslInv}
use cxx_server.Ssl.Server.{ssl_kind, ssl_kind-IsLawful, ssl_step-Keeps}
use cxx_server.Echo.Session.{echo_step}
use cxx_server.Echo.Stream.{echo_step-Inv, echo_step-Keeps}

abbrev pub echo_kind : Virtuals → Kind Session Event
echo_kind v = record (tcp_kind v) { step = echo_step v }

pub echo_kind-IsLawful : (v : Virtuals) → v.complete false ≡ false → IsLawful (echo_kind v) (Inv v)
echo_kind-IsLawful v shut =
    let law : IsLawful (tcp_kind v) (Inv v) = tcp_kind-IsLawful v shut in
    record {
      made = law.made;
      disconnected = law.disconnected;
      sent = law.sent;
      stepped = λ ev a b u i.
          let w = share a b u in
          let k = echo_step-Keeps v shut ev w in
          let m = share-Keeps v shut a b u in
          (
            echo_step-Inv v shut ev w (share-Inv v shut a b u i),
            k.named ∙ m.named,
            k.once ∙ m.once,
          );
    }

-- The echo session over SSL: its reads differ from those of SSL::Session as those of the plain ones do.
unfoldable pub ssl_echo_step : Ssl.Event → SslSession → SslSession
ssl_echo_step (handshake_done e) s = ssl_step (handshake_done e) s
ssl_echo_step (tcp_event ev) s = record s {
  session = echo_step (virtuals s.handshaked) ev s.session;
}

ssl_echo_step-SslInv : (ev : Ssl.Event) (s : SslSession) → SslInv s → SslInv (ssl_echo_step ev s)
unfolding ssl_echo_step
ssl_echo_step-SslInv (handshake_done e) s i = ssl_step-SslInv (handshake_done e) s i
ssl_echo_step-SslInv (tcp_event ev) s i = echo_step-Inv (virtuals s.handshaked) refl ev s.session i

ssl_echo_step-Keeps :
    (ev : Ssl.Event) (s : SslSession) → Keeps s.session (ssl_echo_step ev s).session
unfolding ssl_echo_step
ssl_echo_step-Keeps (handshake_done e) s = ssl_step-Keeps (handshake_done e) s
ssl_echo_step-Keeps (tcp_event ev) s = echo_step-Keeps (virtuals s.handshaked) refl ev s.session

abbrev pub ssl_echo_kind : Kind SslSession Ssl.Event
ssl_echo_kind = record ssl_kind { step = ssl_echo_step }

pub ssl_echo_kind-IsLawful : IsLawful ssl_echo_kind SslInv
ssl_echo_kind-IsLawful = record {
  made = ssl_kind-IsLawful.made;
  disconnected = ssl_kind-IsLawful.disconnected;
  sent = ssl_kind-IsLawful.sent;
  stepped = λ ev a b u i.
      let w : SslSession = record u { session = share a b u.session } in
      let k = ssl_echo_step-Keeps ev w in
      let m = share-Keeps (virtuals u.handshaked) refl a b u.session in
      (
        ssl_echo_step-SslInv ev w (share-Inv (virtuals u.handshaked) refl a b u.session i),
        k.named ∙ m.named,
        k.once ∙ m.once,
      );
}
