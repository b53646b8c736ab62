-- ===== src/Ssl/Flags.antt =====
-- The flags of SSL::Client: which of connecting, connected, handshaking and handshaked go together, and
-- which operations are outstanding with them.
use cxx_server.Common.{
  ℕ, ◌≡◌, refl, Bool, true, false, if_rule, List, [], ◌∷◌, ◌++◌, Option, none, some, arith,
}
use cxx_server.Asio.{ErrorCode, Executor}
use cxx_server.Client.{
  Client, Task, send_task, connect_task, disconnect_task, executor, call, on_connect, on_handshaked,
  enqueue, disconnect, clear_buffs,
}
use cxx_server.Client.Handlers.{set_up, tell_empty}
use cxx_server.Ssl.Client.{
  SslClient, shut_down, virtuals, ssl_disconnect, ssl_disconnect_async, is_engaged, finish_connect,
  ssl_connect, ssl_connect_async, ssl_connect_handler, connect_endpoint, perform, run_first,
  end_connect,
}
use cxx_server.Ssl.Keeps.{Keeps, shut_down-Keeps, refuse-Keeps, try_send-Keeps}

-- An outstanding operation, if the flag says so.
abbrev pub one_if : Bool → Executor → List Executor
one_if true x = x ∷ []
one_if false x = []

pub record Flags (s : SslClient) : Type 0 where
  pub shaken : s.handshaked ≡ true → s.client.connected ≡ true
  pub settled : s.handshaked ≡ true → s.handshaking ≡ false
  pub shaking : s.handshaking ≡ true → s.client.connected ≡ true
  pub fresh : s.client.connecting ≡ true → s.client.connected ≡ false
  pub connect_out : s.client.connects ≡ one_if s.client.connecting (executor s.client)
  pub handshake_out : s.handshakes ≡ one_if s.handshaking (executor s.client)

pub client-Flags :
    (s : SslClient) (d : Client) → Keeps s.client d → Flags s → Flags (record s { client = d })
client-Flags s d k i = ground arith

pub ssl_disconnect-Flags : (s : SslClient) → Flags s → Flags (ssl_disconnect s).0
unfolding ssl_disconnect disconnect clear_buffs
ssl_disconnect-Flags s i = ground arith

enqueue-Keeps : (t : Task) (c : Client) → Keeps c (enqueue t c)
enqueue-Keeps t c = ground arith

pub ssl_disconnect_async-Flags :
    (d inside : Bool) (s : SslClient) → Flags s → Flags (ssl_disconnect_async d inside s).0
unfolding ssl_disconnect_async
ssl_disconnect_async-Flags d inside s i = ground (
  arith,
  client-Flags s (shut_down s.handshaking s.client) (shut_down-Keeps s.handshaking s.client) i,
  client-Flags s (enqueue disconnect_task s.client) (enqueue-Keeps disconnect_task s.client) i,
)

-- A client that is not engaged becomes connected.
set_up-Flags :
    (space : ℕ) (s : SslClient)
    → is_engaged s ≡ false
    → Flags s
    → Flags (record s { client = call on_connect (set_up space s.client) })
unfolding set_up
set_up-Flags space s e i = ground arith

pub shaken-Flags :
    (s : SslClient)
    → s.client.connected ≡ true
    → s.handshaking ≡ false
    → Flags s
    → Flags (record s { handshaked = true })
shaken-Flags s c h i = ground arith

greeted-Keeps : (c : Client) → Keeps c (tell_empty (call on_handshaked c))
unfolding tell_empty
greeted-Keeps c = ground arith

finish_connect-Flags :
    (e : Option ErrorCode) (s : SslClient)
    → s.client.connected ≡ true
    → s.handshaking ≡ false
    → Flags s
    → Flags (finish_connect e s).0
unfolding finish_connect
finish_connect-Flags none s c h i =
    client-Flags (record s { handshaked = true }) (tell_empty (call on_handshaked s.client))
      (greeted-Keeps s.client) (shaken-Flags s c h i)
finish_connect-Flags (some e) s c h i = client-Flags s _ (refuse-Keeps (virtuals s) e s.client) i

set_up_connected : (space : ℕ) (c : Client) → (set_up space c).connected ≡ true
unfolding set_up
set_up_connected space c = refl

pub ssl_connect-Flags :
    (e : Option ErrorCode) (space : ℕ) (shaken : Option ErrorCode) (s : SslClient)
    → Flags s
    → Flags (ssl_connect e space shaken s).0
unfolding ssl_connect
ssl_connect-Flags none space shaken s i =
    if_rule (λ (r : SslClient × Bool). Flags r.0) (is_engaged s) _ _ (λ busy. i)
      (λ free.
        finish_connect-Flags shaken (record s { client = call on_connect (set_up space s.client) })
          (set_up_connected space s.client) (ground arith) (set_up-Flags space s free i))
ssl_connect-Flags (some c) space shaken s i =
    if_rule (λ (r : SslClient × Bool). Flags r.0) (is_engaged s) _ _ (λ busy. i)
      (λ free. client-Flags s _ (refuse-Keeps (virtuals s) c s.client) i)

pub ssl_connect_async-Flags : (s : SslClient) → Flags s → Flags (ssl_connect_async s).0
unfolding ssl_connect_async
ssl_connect_async-Flags s i =
    ground (
      arith,
      client-Flags s (enqueue connect_task s.client) (enqueue-Keeps connect_task s.client) i,
    )

ssl_connect_handler-Flags : (s : SslClient) → Flags s → Flags (ssl_connect_handler s)
unfolding ssl_connect_handler
ssl_connect_handler-Flags s i = ground arith

posted-Flags :
    (ts : List (Executor × Task)) (s : SslClient)
    → Flags s
    → Flags (record s { client = record s.client { posted = ts } })
posted-Flags ts s i = ground arith

perform-Flags : (t : Task) (s : SslClient) → Flags s → Flags (perform t s)
unfolding perform
perform-Flags send_task s i = client-Flags s _ (try_send-Keeps (virtuals s) s.client) i
perform-Flags connect_task s i = ssl_connect_handler-Flags s i
perform-Flags disconnect_task s i = client-Flags s _ (shut_down-Keeps s.handshaking s.client) i

pub run_first-Flags :
    (ts : List (Executor × Task)) (s : SslClient) → Flags s → Flags (run_first ts s)
unfolding run_first
run_first-Flags [] s i = i
run_first-Flags ((x, t) ∷ rest) s i = perform-Flags t _ (posted-Flags rest s i)

-- The connect that was outstanding is no longer, and the client is not connecting.
arrived-Flags :
    (x : Executor) (rest : List Executor) (s : SslClient)
    → s.client.connects ≡ x ∷ rest
    → Flags s
    → Flags (record s { client = record s.client { connects = rest; connecting = false } })
arrived-Flags x rest s q i = ground arith

shake-Flags :
    (space : ℕ) (s : SslClient)
    → is_engaged s ≡ false
    → Flags s
    → Flags (record s {
      client = call on_connect (set_up space s.client);
      handshaking = true;
      handshakes = s.handshakes ++ executor s.client ∷ [];
    })
unfolding set_up
shake-Flags space s e i = ground arith

connect_endpoint-Flags :
    (e : Option ErrorCode) (space : ℕ) (s : SslClient)
    → Flags (record s { client = record s.client { connecting = false } })
    → Flags (connect_endpoint e space s)
unfolding connect_endpoint
connect_endpoint-Flags none space s i =
    let t : SslClient = record s { client = record s.client { connecting = false } } in
    if_rule Flags (is_engaged t) _ _ (λ busy. i) (λ free. shake-Flags space t free i)
connect_endpoint-Flags (some c) space s i =
    let t : SslClient = record s { client = record s.client { connecting = false } } in
    if_rule Flags (is_engaged t) _ _ (λ busy. i)
      (λ free. client-Flags t _ (refuse-Keeps (virtuals t) c t.client) i)

pub end_connect-Flags :
    (e : Option ErrorCode) (space : ℕ) (xs : List Executor) (s : SslClient)
    → s.client.connects ≡ xs
    → Flags s
    → Flags (end_connect e space xs s)
unfolding end_connect
end_connect-Flags e space [] s q i = i
end_connect-Flags e space (x ∷ rest) s q i =
    connect_endpoint-Flags e space (record s { client = record s.client { connects = rest } })
      (arrived-Flags x rest s q i)
