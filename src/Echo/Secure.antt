-- ===== src/Echo/Secure.antt =====
-- EchoClient of performance/echo_ssl_client.cxx within the handlers of SSL::Client
-- (source/core/tcp/ssl_client.cxx), which call its `onHandshaked`.
use cxx_server.Common.{
  ℕ, ◌≡◌, refl, ◌∙◌, Bool, true, false, List, ◌∷◌, ◌++◌, Option, none, some, if◌then◌else◌, arith,
}
use cxx_server.Common.{◌+◌, ◌<◌, ap, length, word}
use mathlib.Core.Option as Option
use cxx_server.Asio.{ErrorCode}
use cxx_server.Client.{Client, Call, call, try_receive}
use cxx_server.Client.Handlers.{tell_empty, refuse}
use cxx_server.Client.Stream.{unsent}
use cxx_server.Ssl.Client.{SslClient, virtuals, new_ssl, handshake_handler}
use cxx_server.Echo.Doubled.{unsent-tell_empty, unsent-try_receive}
use cxx_server.Echo.Client.{
  EchoClient, on_receive, on_receive_ends, on_connect, copies, on_connect-HasSent,
}

-- The fields of EchoClient, with an SSL::Client for the Tcp::Client.
pub record SecureClient : Type 0 where
  pub ssl : SslClient
  pub sent : ℕ
  pub received : ℕ
  pub messages : ℕ
  pub bytes_sent : ℕ

-- The constructor.
unfoldable pub new_secure : ℕ → Bool → List ℕ → ℕ → ℕ → SecureClient
new_secure id strand_needed addr port messages = record {
  ssl = new_ssl id strand_needed addr port;
  sent = 0;
  received = 0;
  messages = messages;
  bytes_sent = 0;
}

-- Its callbacks are those of the plain client, with the SSL client's overrides.
abbrev pub as_echo : SecureClient → EchoClient
as_echo s = record {
  client = s.ssl.client;
  sent = s.sent;
  received = s.received;
  messages = s.messages;
  bytes_sent = s.bytes_sent;
}

-- `onHandshaked`.
unfoldable pub on_handshaked : List ℕ → SecureClient → SecureClient
on_handshaked message s = record s {
  ssl = record s.ssl { client = (on_connect (virtuals s.ssl) message (as_echo s)).client };
}

abbrev pub within : (Client → Client) → SecureClient → SecureClient
within f s = record s { ssl = record s.ssl { client = f s.ssl.client } }

-- What `connect` does when the socket is connected; the error is that of the handshake.
unfoldable pub secure_finish : Option ErrorCode → List ℕ → SecureClient → SecureClient × Bool
secure_finish none message s =
    let ready : SecureClient = record s { ssl = record s.ssl { handshaked = true } } in
    (within tell_empty (on_handshaked message (within (call Call.on_handshaked) ready)), true)
secure_finish (some e) message s = (within (refuse (virtuals s.ssl) e) s, false)

-- The completion handler of `async_handshake`.
unfoldable pub secure_handshaked : Option ErrorCode → List ℕ → SecureClient → SecureClient
secure_handshaked e message s =
    let t : SecureClient = record s { ssl = record s.ssl { handshaking = false } } in
    let ready : SecureClient = record t { ssl = record t.ssl { handshaked = true } } in
    let told = on_handshaked message (within (call Call.on_handshaked) ready) in
    let ended : SecureClient = elim e [
      | none ↦ within tell_empty (within (try_receive (virtuals ready.ssl)) told)
      | some c ↦ record t { ssl = (handshake_handler (some c) s.ssl) }
    ] in
    if t.ssl.handshaked then t else ended

told-HasSent :
    (b : ℕ) (bs : List ℕ) (s : SecureClient)
    → s.ssl.client.connected ≡ true
    → s.ssl.client.send_buff_limit ≡ 0
    → s.ssl.handshaked ≡ true
    → let t = on_handshaked (b ∷ bs) (within (call Call.on_handshaked) s) in
      unsent t.ssl.client ≡ unsent s.ssl.client ++ copies s.messages (b ∷ bs)
unfolding on_handshaked
told-HasSent b bs s on free done =
    let told = within (call Call.on_handshaked) s in
    (on_connect-HasSent (virtuals s.ssl) b bs (as_echo told)
      (record { on = ground arith; unlimited = free })).handed

-- A client that is connected, not handshaked and without a send limit, whose handshake succeeds, for a message that
-- is not empty, hands over its number of messages, in `connect` and in the handler of `async_handshake` alike.
pub handshake_sends_once :
    (b : ℕ) (bs : List ℕ) (s : SecureClient)
    → s.ssl.client.connected ≡ true
    → s.ssl.client.send_buff_limit ≡ 0
    → s.ssl.handshaked ≡ false
    → (unsent (secure_finish none (b ∷ bs) s).0.ssl.client
        ≡ unsent s.ssl.client ++ copies s.messages (b ∷ bs))
      × (unsent (secure_handshaked none (b ∷ bs) s).ssl.client
          ≡ unsent s.ssl.client ++ copies s.messages (b ∷ bs))
unfolding secure_finish secure_handshaked
handshake_sends_once b bs s on free shaking =
    let first : SecureClient = record s { ssl = record s.ssl { handshaked = true } } in
    let second : SecureClient = record s {
      ssl = record s.ssl { handshaking = false; handshaked = true };
    } in
    let told = on_handshaked (b ∷ bs) (within (call Call.on_handshaked) second) in
    (
      unsent-tell_empty _ ∙ told-HasSent b bs first on free refl,
      rw shaking (
          unsent-tell_empty _
          ∙ unsent-try_receive (virtuals second.ssl) told.ssl.client
          ∙ told-HasSent b bs second on free refl),
    )

-- The client after a callback.
abbrev pub with_echo : SecureClient → EchoClient → SecureClient
with_echo s t = record {
  ssl = record s.ssl { client = t.client };
  sent = t.sent;
  received = t.received;
  messages = t.messages;
  bytes_sent = t.bytes_sent;
}

-- `onReceive`, with the number of rounds of its loop as fuel.
unfoldable pub secure_on_receive : ℕ → List ℕ → ℕ → SecureClient → Option SecureClient
secure_on_receive fuel message size s =
    Option.map (with_echo s) (on_receive (virtuals s.ssl) fuel message size (as_echo s))

-- The `onReceive` of a client that is handshaked, for a message that is not empty and without a send limit, ends, and
-- has handed over whole messages, as long together as what was not answered but for a rest shorter than one.
pub secure_on_receive_ends :
    (fuel b : ℕ) (bs : List ℕ) (size : ℕ) (s : SecureClient)
    → s.ssl.client.connected ≡ true
    → s.ssl.handshaked ≡ true
    → s.ssl.client.send_buff_limit ≡ 0
    → s.received + size < fuel
    → s.received + size < word
    → (n : ℕ) × (t : SecureClient) × (secure_on_receive fuel (b ∷ bs) size s ≡ some t)
      × (unsent t.ssl.client ≡ unsent s.ssl.client ++ copies n (b ∷ bs))
      × (t.received < length (b ∷ bs))
      × (length (copies n (b ∷ bs)) + t.received ≡ s.received + size)
unfolding secure_on_receive
secure_on_receive_ends fuel b bs size s on done free f w =
    let (n, t, ran, handed, short, all) =
      on_receive_ends (virtuals s.ssl) fuel b bs size (as_echo s)
        (record { on = ground arith; unlimited = free }) f w in
    (n, with_echo s t, ap (Option.map (with_echo s)) ran, handed, short, all)
