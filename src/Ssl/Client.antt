-- ===== src/Ssl/Client.antt =====
-- SSL::Client of include/core/tcp/ssl_client.hxx and source/core/tcp/ssl_client.cxx: a Tcp::Client with the
-- flags of the handshake, its own connecting and its own disconnecting. The `async_shutdown`s of the stream
-- that have not completed are the parent's field `shutdowns`.
use cxx_server.Common.{
  ℕ, Bool, true, false, not, ◌&&◌, ◌||◌, List, [], ◌∷◌, ◌++◌, Option, none, some, if◌then◌else◌,
}
use cxx_server.Asio.{ErrorCode, Executor, Buffer, is_ssl_disconnect}
use cxx_server.Client.{
  Client, Virtuals, Task, Call, new, new_scheme, new_endpoint, call, enqueue, executor, err,
  disconnect, try_receive, try_send, send_async,
}
use cxx_server.Client.Handlers.{set_up, tell_empty, refuse}
use cxx_server.Client.System.{fits, end_read, end_write}

-- `handshakes` are the `async_handshake`s not yet completed.
pub record SslClient : Type 0 where
  pub client : Client
  pub handshaking : Bool
  pub handshaked : Bool
  pub handshakes : List Executor

abbrev from_client : Client → SslClient
from_client c = record { client = c; handshaking = false; handshaked = false; handshakes = [] }

-- The constructors; C++20 initialises the two atomic flags to false.
unfoldable pub new_ssl : ℕ → Bool → List ℕ → ℕ → SslClient
new_ssl id strand_needed addr port = from_client (new id strand_needed addr port)

unfoldable pub new_ssl_scheme : ℕ → Bool → List ℕ → List ℕ → SslClient
new_ssl_scheme id strand_needed addr scheme = from_client (new_scheme id strand_needed addr scheme)

unfoldable pub new_ssl_endpoint : ℕ → Bool → List ℕ × ℕ → SslClient
new_ssl_endpoint id strand_needed endpoint = from_client (new_endpoint id strand_needed endpoint)

-- The handler that `disconnectAsync` posts or dispatches: it begins the shutdown of the stream.
unfoldable pub shut_down : Bool → Client → Client
shut_down handshaking c =
    if not c.connected || c.connecting || handshaking
    then c
    else record (call Call.cancel c) { shutdowns = c.shutdowns ++ executor c ∷ [] }

-- `isReady`, `err` and `disconnectAsync(true)`, as the handlers of Tcp::Client call them.
abbrev pub virtuals : SslClient → Virtuals
virtuals s = record {
  ready = λ connected. connected && s.handshaked;
  ignored = is_ssl_disconnect;
  hang_up = shut_down s.handshaking;
}

unfoldable pub ssl_disconnect : SslClient → SslClient × Bool
ssl_disconnect s =
    if not s.client.connected || s.client.connecting || s.handshaking then (s, false) else (
      record s { handshaked = false; handshaking = false; client = (disconnect s.client).0 },
      true,
    )

-- The flags are `dispatch` and whether the caller is inside the executor.
unfoldable pub ssl_disconnect_async : Bool → Bool → SslClient → SslClient × Bool
ssl_disconnect_async dispatch inside s =
    if not s.client.connected || s.client.connecting || s.handshaking then (s, false) else (
      record s {
        client =
            if dispatch && inside
            then shut_down s.handshaking s.client
            else enqueue Task.disconnect_task s.client;
      },
      true,
    )

-- `isConnected() || hasHandshaked() || _handshaking || _connecting`
abbrev pub is_engaged : SslClient → Bool
is_engaged s = s.client.connected || s.handshaked || s.handshaking || s.client.connecting

-- What `connect` does when the socket is connected; the error is that of the handshake.
unfoldable pub finish_connect : Option ErrorCode → SslClient → SslClient × Bool
finish_connect none s =
    (record s { handshaked = true; client = tell_empty (call Call.on_handshaked s.client) }, true)
finish_connect (some e) s = (record s { client = refuse (virtuals s) e s.client }, false)

-- `connect`: the errors are those of the socket's `connect`, to the endpoint as it is, and of the
-- handshake; the size is SO_RCVBUF of the socket.
unfoldable pub ssl_connect : Option ErrorCode → ℕ → Option ErrorCode → SslClient → SslClient × Bool
ssl_connect e space shaken s =
    let made : SslClient × Bool = elim e [
      | none ↦
          finish_connect shaken (record s { client = call Call.on_connect (set_up space s.client) })
      | some c ↦ (record s { client = refuse (virtuals s) c s.client }, false)
    ] in
    if is_engaged s then (s, false) else made

unfoldable pub ssl_connect_async : SslClient → SslClient × Bool
ssl_connect_async s =
    if is_engaged s
    then (s, false)
    else (record s { client = enqueue Task.connect_task s.client }, true)

-- The handler that `connectAsync` posts.
unfoldable pub ssl_connect_handler : SslClient → SslClient
ssl_connect_handler s = if is_engaged s then s else record s {
  client = record s.client {
    connecting = true;
    endpoint = some (s.client.addr, s.client.port);
    connects = s.client.connects ++ executor s.client ∷ [];
  };
}

-- `connectEndpoint`, the completion handler of `async_connect`; it is given the client's own endpoint.
unfoldable pub connect_endpoint : Option ErrorCode → ℕ → SslClient → SslClient
connect_endpoint e space s =
    let t : SslClient = record s { client = record s.client { connecting = false } } in
    let made : SslClient = elim e [
      | none ↦ record t {
        client = call Call.on_connect (set_up space t.client);
        handshaking = true;
        handshakes = t.handshakes ++ executor t.client ∷ [];
      }
      | some c ↦ record t { client = refuse (virtuals t) c t.client }
    ] in
    if is_engaged t then t else made

-- The completion handler of `async_handshake`; it runs in the client's executor.
unfoldable pub handshake_handler : Option ErrorCode → SslClient → SslClient
handshake_handler e s =
    let t : SslClient = record s { handshaking = false } in
    let ready : SslClient = record t { handshaked = true } in
    let ended : SslClient = elim e [
      | none ↦ record ready {
        client = tell_empty (try_receive (virtuals ready) (call Call.on_handshaked t.client));
      }
      | some c ↦
          (ssl_disconnect_async true true (record t { client = err (virtuals t) c t.client })).0
    ] in
    if t.handshaked then t else ended

unfoldable pub perform : Task → SslClient → SslClient
perform Task.send_task s = record s { client = try_send (virtuals s) s.client }
perform Task.connect_task s = ssl_connect_handler s
perform Task.disconnect_task s = record s { client = shut_down s.handshaking s.client }

pub data Event : Type 0 where
  call_connect : Option ErrorCode → ℕ → Option ErrorCode → Event
  call_connect_async call_disconnect call_receive run_posted : Event
  call_disconnect_async : Bool → Event
  call_send : Bool → Buffer → Event
  connect_done : Option ErrorCode → ℕ → Event
  handshake_done : Option ErrorCode → Event
  shutdown_done : Event
  read_done : Option ErrorCode → List ℕ → Event
  write_done : Option ErrorCode → ℕ → Event

unfoldable pub run_first : List (Executor × Task) → SslClient → SslClient
run_first [] s = s
run_first ((x, t) ∷ rest) s = perform t (record s { client = record s.client { posted = rest } })

unfoldable pub end_connect : Option ErrorCode → ℕ → List Executor → SslClient → SslClient
end_connect e space [] s = s
end_connect e space (x ∷ rest) s =
    connect_endpoint e space (record s { client = record s.client { connects = rest } })

unfoldable pub end_handshake : Option ErrorCode → List Executor → SslClient → SslClient
end_handshake e [] s = s
end_handshake e (x ∷ rest) s = handshake_handler e (record s { handshakes = rest })

-- The completion handler of `async_shutdown` disconnects, whatever the error.
unfoldable pub end_shutdown : List Executor → SslClient → SslClient
end_shutdown [] s = s
end_shutdown (x ∷ rest) s =
    (ssl_disconnect (record s { client = record s.client { shutdowns = rest } })).0

unfoldable pub ssl_step : Event → SslClient → SslClient
ssl_step (Event.call_connect e space shaken) s = (ssl_connect e space shaken s).0
ssl_step Event.call_connect_async s = (ssl_connect_async s).0
ssl_step Event.call_disconnect s = (ssl_disconnect s).0
ssl_step (Event.call_disconnect_async inside) s = (ssl_disconnect_async false inside s).0
ssl_step (Event.call_send inside buffer) s =
    if fits buffer s.client
    then record s { client = (send_async (virtuals s) inside buffer s.client).0 }
    else s
ssl_step Event.call_receive s = record s { client = try_receive (virtuals s) s.client }
ssl_step Event.run_posted s = run_first s.client.posted s
ssl_step (Event.connect_done e space) s = end_connect e space s.client.connects s
ssl_step (Event.handshake_done e) s = end_handshake e s.handshakes s
ssl_step Event.shutdown_done s = end_shutdown s.client.shutdowns s
ssl_step (Event.read_done e bytes) s = record s {
  client = end_read (virtuals s) e bytes s.client.reads s.client;
}
ssl_step (Event.write_done e n) s = record s {
  client = end_write (virtuals s) e n s.client.writes s.client;
}

unfoldable pub ssl_run : List Event → SslClient → SslClient
ssl_run [] s = s
ssl_run (ev ∷ evs) s = ssl_run evs (ssl_step ev s)
