-- ===== src/Ssl/Session.antt =====
-- SSL::Session of include/core/tcp/ssl_session.hxx and source/core/tcp/ssl_session.cxx: a Tcp::Session with
-- the flag of the handshake. Its reads and writes go through the stream instead of the socket. The session
-- is that which SSL::Server's `newSession` makes.
use cxx_server.Common.{
  ℕ, Bool, true, false, ◌&&◌, List, [], ◌∷◌, ◌++◌, Option, none, some, if◌then◌else◌,
}
use cxx_server.Asio.{ErrorCode, Executor, is_ssl_disconnect}
use cxx_server.Session.{Session, Virtuals, Call, new, executor, call, err, disconnect, try_receive}
use cxx_server.Session.Handlers.{connect_stream, tell_empty}
use cxx_server.Session.System.{step}
use cxx_server.Session.System as Tcp

-- `handshakes` are the `async_handshake`s not yet completed.
pub record SslSession : Type 0 where
  pub session : Session
  pub handshaked : Bool
  pub handshakes : List Executor

-- `isConnectionComplete` and `err`.
abbrev pub virtuals : Bool → Virtuals
virtuals handshaked = record {
  complete = λ connected. connected && handshaked;
  ignored = is_ssl_disconnect;
}

unfoldable pub new_session : ℕ → Bool → ℕ → ℕ → SslSession
new_session id strand_needed server_sent server_received = record {
  session = new id strand_needed server_sent server_received;
  handshaked = false;
  handshakes = [];
}

-- `connect`: the session is connected, and the handshake begins.
unfoldable pub connect : Bool → Bool → ℕ → SslSession → SslSession
connect alive delay buff_size s = record s {
  session = connect_stream (virtuals s.handshaked) alive delay buff_size s.session;
  handshakes = s.handshakes ++ executor s.session ∷ [];
}

-- What the handler does after a handshake without an error.
unfoldable pub begin_receive : Session → Session
begin_receive s =
    tell_empty
      (call Call.server_handshaked (call Call.on_handshaked (try_receive (virtuals true) s)))

-- The completion handler of `async_handshake`; it runs in the session's executor.
unfoldable pub handshake_handler : Option ErrorCode → SslSession → SslSession
handshake_handler e s =
    let ended : SslSession = elim e [
      | none ↦ record s { handshaked = true; session = begin_receive s.session }
      | some c ↦ record s {
        session = (disconnect false true (err (virtuals s.handshaked) c s.session)).0;
      }
    ] in
    if s.handshaked then s else ended

pub data Event : Type 0 where
  handshake_done : Option ErrorCode → Event
  -- those of Tcp::Session
  tcp_event : Tcp.Event → Event

unfoldable pub end_handshake : Option ErrorCode → List Executor → SslSession → SslSession
end_handshake e [] s = s
end_handshake e (x ∷ rest) s = handshake_handler e (record s { handshakes = rest })

unfoldable pub ssl_step : Event → SslSession → SslSession
ssl_step (Event.handshake_done e) s = end_handshake e s.handshakes s
ssl_step (Event.tcp_event ev) s = record s { session = step (virtuals s.handshaked) ev s.session }

unfoldable pub ssl_run : List Event → SslSession → SslSession
ssl_run [] s = s
ssl_run (ev ∷ evs) s = ssl_run evs (ssl_step ev s)
