-- ===== src/Ssl/Shaken.antt =====
-- The handshake of SSL::Client: the flags hold through every event.
use cxx_server.Common.{
  ℕ, ◌≡◌, refl, Bool, true, false, if_rule, List, [], ◌∷◌, Option, none, some, arith,
}
use cxx_server.Asio.{ErrorCode, Executor}
use cxx_server.Client.{Client, err, try_receive, call, on_handshaked, new}
use cxx_server.Client.Handlers.{tell_empty}
use cxx_server.Client.System.{fits}
use cxx_server.Ssl.Client.{
  SslClient, new_ssl, virtuals, handshake_handler, Event, call_connect, call_connect_async,
  call_disconnect, call_receive, run_posted, call_disconnect_async, call_send, connect_done,
  handshake_done, shutdown_done, read_done, write_done, end_handshake, end_shutdown, ssl_step,
  ssl_run,
}
use cxx_server.Ssl.Keeps.{
  Keeps, Keeps-trans, tell_empty-Keeps, err-Keeps, try_receive-Keeps, shut_down-Keeps,
  send_async-Keeps, end_read-Keeps, end_write-Keeps,
}
use cxx_server.Ssl.Flags.{
  Flags, client-Flags, ssl_disconnect-Flags, ssl_disconnect_async-Flags, ssl_connect-Flags,
  ssl_connect_async-Flags, run_first-Flags, end_connect-Flags, shaken-Flags,
}

-- The handshake that was outstanding is no longer.
answered-Flags :
    (x : Executor) (rest : List Executor) (s : SslClient)
    → s.handshakes ≡ x ∷ rest
    → Flags s
    → Flags (record s { handshaking = false; handshakes = rest })
answered-Flags x rest s q i = ground arith

answered_connected :
    (x : Executor) (rest : List Executor) (s : SslClient)
    → s.handshakes ≡ x ∷ rest
    → Flags s
    → (s.client.connected ≡ true) × (s.handshaked ≡ false)
answered_connected x rest s q i = ground arith

called-Keeps : (c : Client) → Keeps c (call on_handshaked c)
called-Keeps c = ground arith

begun-Keeps :
    (s : SslClient) (c : Client)
    → Keeps c (tell_empty (try_receive (virtuals s) (call on_handshaked c)))
begun-Keeps s c =
    let d : Client = call on_handshaked c in
    let f : Client = try_receive (virtuals s) d in
    Keeps-trans c d (tell_empty f) (called-Keeps c)
      (Keeps-trans d f (tell_empty f) (try_receive-Keeps (virtuals s) d) (tell_empty-Keeps f))

handshake_handler-Flags :
    (e : Option ErrorCode) (s : SslClient)
    → s.client.connected ≡ true
    → Flags (record s { handshaking = false })
    → Flags (handshake_handler e s)
unfolding handshake_handler
handshake_handler-Flags none s c i =
    let t : SslClient = record s { handshaking = false } in
    let ready : SslClient = record t { handshaked = true } in
    if_rule Flags t.handshaked _ _ (λ done. i)
      (λ yet. client-Flags ready _ (begun-Keeps ready t.client) (shaken-Flags t c refl i))
handshake_handler-Flags (some e) s c i =
    let t : SslClient = record s { handshaking = false } in
    if_rule Flags t.handshaked _ _ (λ done. i)
      (λ yet.
        ssl_disconnect_async-Flags true true (record t { client = err (virtuals t) e t.client })
          (client-Flags t _ (err-Keeps (virtuals t) e t.client) i))

end_handshake-Flags :
    (e : Option ErrorCode) (xs : List Executor) (s : SslClient)
    → s.handshakes ≡ xs
    → Flags s
    → Flags (end_handshake e xs s)
unfolding end_handshake
end_handshake-Flags e [] s q i = i
end_handshake-Flags e (x ∷ rest) s q i =
    handshake_handler-Flags e (record s { handshakes = rest }) (answered_connected x rest s q i).0
      (answered-Flags x rest s q i)

stopped-Flags :
    (xs : List Executor) (s : SslClient)
    → Flags s
    → Flags (record s { client = record s.client { shutdowns = xs } })
stopped-Flags xs s i = ground arith

end_shutdown-Flags : (xs : List Executor) (s : SslClient) → Flags s → Flags (end_shutdown xs s)
unfolding end_shutdown
end_shutdown-Flags [] s i = i
end_shutdown-Flags (x ∷ rest) s i = ssl_disconnect-Flags _ (stopped-Flags rest s i)

ssl_step-Flags : (ev : Event) (s : SslClient) → Flags s → Flags (ssl_step ev s)
unfolding ssl_step
ssl_step-Flags (call_connect e space shaken) s i = ssl_connect-Flags e space shaken s i
ssl_step-Flags call_connect_async s i = ssl_connect_async-Flags s i
ssl_step-Flags call_disconnect s i = ssl_disconnect-Flags s i
ssl_step-Flags (call_disconnect_async inside) s i = ssl_disconnect_async-Flags false inside s i
ssl_step-Flags (call_send inside buffer) s i =
    if_rule Flags (fits buffer s.client) _ _
      (λ room. client-Flags s _ (send_async-Keeps (virtuals s) inside buffer s.client) i)
      (λ full. i)
ssl_step-Flags call_receive s i = client-Flags s _ (try_receive-Keeps (virtuals s) s.client) i
ssl_step-Flags run_posted s i = run_first-Flags s.client.posted s i
ssl_step-Flags (connect_done e space) s i = end_connect-Flags e space s.client.connects s refl i
ssl_step-Flags (handshake_done e) s i = end_handshake-Flags e s.handshakes s refl i
ssl_step-Flags shutdown_done s i = end_shutdown-Flags s.client.shutdowns s i
ssl_step-Flags (read_done e bytes) s i =
    client-Flags s _
      (end_read-Keeps (virtuals s) (shut_down-Keeps s.handshaking) e bytes s.client.reads s.client)
      i
ssl_step-Flags (write_done e n) s i =
    client-Flags s _
      (end_write-Keeps (virtuals s) (shut_down-Keeps s.handshaking) e n s.client.writes s.client) i

-- Through every sequence of events of an SSL client: it is connected whenever it is handshaking or
-- handshaked, never both of these, and never while it is connecting; one `async_connect` is outstanding exactly
-- while it is connecting, and one `async_handshake` exactly while it is handshaking.
pub ssl_run-Flags : (evs : List Event) (s : SslClient) → Flags s → Flags (ssl_run evs s)
unfolding ssl_run
ssl_run-Flags [] s i = i
ssl_run-Flags (ev ∷ evs) s i = ssl_run-Flags evs (ssl_step ev s) (ssl_step-Flags ev s i)

pub new_ssl-Flags :
    (id : ℕ) (needed : Bool) (addr : List ℕ) (port : ℕ) → Flags (new_ssl id needed addr port)
unfolding new_ssl new
new_ssl-Flags id needed addr port = ground arith
