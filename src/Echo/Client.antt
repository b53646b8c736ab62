-- ===== src/Echo/Client.antt =====
-- EchoClient of performance/echo_tcp_client.cxx and performance/echo_ssl_client.cxx: it sends a number of
-- messages when it connects (or when its handshake ends), and one more for each message's length of bytes
-- that it receives. The message is the global `to_send`; the global clock `end` is left out.
use cxx_server.Common.{
  ℕ, zero, suc, ◌+◌, ◌<◌, ◌≡◌, refl, Bool, ap, ◌∙◌, true, List, [], ◌∷◌, ◌++◌, Option, none, some,
  if◌then◌else◌, leb, add64, sub64, word, arith, length, length-append, append-nil, append_assoc,
  Bool-cases, inl, inr,
}
use cxx_server.Asio.{bytes}
use cxx_server.Client.{Client, Virtuals, new, send_async}
use cxx_server.Client.Stream.{unsent}
use cxx_server.Client.Unlimited.{IsOpen, send_async-IsOpen, unsent-send_async}

pub record EchoClient : Type 0 where
  pub client : Client
  pub sent : ℕ
  pub received : ℕ
  pub messages : ℕ
  pub bytes_sent : ℕ

-- The constructor.
unfoldable pub new_echo_client : ℕ → Bool → List ℕ → ℕ → ℕ → EchoClient
new_echo_client id strand_needed addr port messages = record {
  client = new id strand_needed addr port;
  sent = 0;
  received = 0;
  messages = messages;
  bytes_sent = 0;
}

-- `sendMessage`, called by the callbacks, in the client's executor.
unfoldable pub send_message : Virtuals → List ℕ → EchoClient → EchoClient
send_message v message s = record s { client = (send_async v true (bytes message) s.client).0 }

unfoldable pub send_messages : Virtuals → ℕ → List ℕ → EchoClient → EchoClient
send_messages v zero message s = s
send_messages v (suc n) message s = send_messages v n message (send_message v message s)

-- `onConnect`, or `onHandshaked` over SSL.
unfoldable pub on_connect : Virtuals → List ℕ → EchoClient → EchoClient
on_connect v message s = send_messages v s.messages message s

unfoldable pub on_send : ℕ → EchoClient → EchoClient
on_send size s = record s { sent = add64 s.sent size }

-- The loop of `onReceive`, with its number of rounds as fuel; `none` is a loop that goes on.
unfoldable pub answer : Virtuals → ℕ → List ℕ → EchoClient → Option EchoClient
answer v zero message s = none
answer v (suc fuel) message s =
    let sent = send_message v message s in
    let rest =
      answer v fuel message (record sent { received = sub64 s.received (length message) }) in
    if leb (length message) s.received then rest else some s

-- `bytes_sent` is the global count of all clients.
abbrev pub counted : ℕ → Option EchoClient → Option EchoClient
counted size none = none
counted size (some t) = some (record t { bytes_sent = add64 t.bytes_sent size })

unfoldable pub on_receive : Virtuals → ℕ → List ℕ → ℕ → EchoClient → Option EchoClient
on_receive v fuel message size s =
    counted size (answer v fuel message (record s { received = add64 s.received size }))

-- The message, some times.
unfoldable pub copies : ℕ → List ℕ → List ℕ
copies zero message = []
copies (suc n) message = message ++ copies n message

-- `t` has sent `n` messages that `s` had not.
pub record HasSent (v : Virtuals) (n : ℕ) (message : List ℕ) (s t : EchoClient) : Type 0 where
  pub handed : unsent t.client ≡ unsent s.client ++ copies n message
  pub still_open : IsOpen v t.client

module _ (v : Virtuals) where
  sent_none : (message : List ℕ) (s : EchoClient) → IsOpen v s.client → HasSent v 0 message s s
  unfolding copies
  sent_none message s o = ground (arith, append-nil (unsent s.client))

  sent_more :
      (n b : ℕ) (bs : List ℕ) (s t : EchoClient)
      → IsOpen v s.client
      → HasSent v n (b ∷ bs) (send_message v (b ∷ bs) s) t
      → HasSent v (suc n) (b ∷ bs) s t
  unfolding copies send_message
  sent_more n b bs s t o h = record {
    handed =
        h.handed
        ∙ ap (λ l. l ++ copies n (b ∷ bs)) (unsent-send_async v true b bs s.client o)
        ∙ append_assoc (unsent s.client) (b ∷ bs) (copies n (b ∷ bs));
    still_open = h.still_open;
  }

  pub send_message-IsOpen :
      (b : ℕ) (bs : List ℕ) (s : EchoClient)
      → IsOpen v s.client
      → IsOpen v (send_message v (b ∷ bs) s).client
  unfolding send_message
  send_message-IsOpen b bs s o = send_async-IsOpen v true b bs s.client o

  send_messages-HasSent :
      (n b : ℕ) (bs : List ℕ) (s : EchoClient)
      → IsOpen v s.client
      → HasSent v n (b ∷ bs) s (send_messages v n (b ∷ bs) s)
  unfolding send_messages
  send_messages-HasSent zero b bs s o = sent_none (b ∷ bs) s o
  send_messages-HasSent (suc n) b bs s o =
      sent_more n b bs s _ o
        (send_messages-HasSent n b bs (send_message v (b ∷ bs) s) (send_message-IsOpen b bs s o))

  -- A ready client without a limit hands over its number of messages when it connects.
  pub on_connect-HasSent :
      (b : ℕ) (bs : List ℕ) (s : EchoClient)
      → IsOpen v s.client
      → HasSent v s.messages (b ∷ bs) s (on_connect v (b ∷ bs) s)
  unfolding on_connect
  on_connect-HasSent b bs s o = send_messages-HasSent s.messages b bs s o

  answer_ends :
      (fuel b : ℕ) (bs : List ℕ) (s : EchoClient)
      → IsOpen v s.client
      → s.received < fuel
      → s.received < word
      → (n : ℕ) × (t : EchoClient) × (answer v fuel (b ∷ bs) s ≡ some t)
        × HasSent v n (b ∷ bs) s t
        × (t.received < length (b ∷ bs))
        × (length (copies n (b ∷ bs)) + t.received ≡ s.received)
  unfolding answer copies
  answer_ends zero b bs s o f w = absurd (omega arith)
  answer_ends (suc fuel) b bs s o f w = elim (Bool-cases (leb (length (b ∷ bs)) s.received)) [
    | inl go ↦
        let next : EchoClient = record (send_message v (b ∷ bs) s) {
          received = sub64 s.received (length (b ∷ bs));
        } in
        let less : next.received + length (b ∷ bs) ≡ s.received = ground arith in
        let (n, t, e, h, short, all) =
          answer_ends fuel b bs next (send_message-IsOpen b bs s o) (omega arith) (omega arith) in
        let more = length-append (b ∷ bs) (copies n (b ∷ bs)) in
        (
          suc n,
          t,
          rw go e,
          sent_more n b bs s t o (record { handed = h.handed; still_open = h.still_open }),
          short,
          omega arith,
        )
    | inr stop ↦ (0, s, rw stop refl, sent_none (b ∷ bs) s o, ground arith, omega arith)
  ]

  -- The `onReceive` of a ready client without a send limit, for a message that is not empty and if the bytes
  -- received and not yet answered are less than a word, ends in at most one round more than these bytes. It
  -- has handed over a number of messages, as long together as these bytes but for a rest that is shorter
  -- than one message and is kept.
  pub on_receive_ends :
      (fuel b : ℕ) (bs : List ℕ) (size : ℕ) (s : EchoClient)
      → IsOpen v s.client
      → s.received + size < fuel
      → s.received + size < word
      → (n : ℕ) × (t : EchoClient) × (on_receive v fuel (b ∷ bs) size s ≡ some t)
        × (unsent t.client ≡ unsent s.client ++ copies n (b ∷ bs))
        × (t.received < length (b ∷ bs))
        × (length (copies n (b ∷ bs)) + t.received ≡ s.received + size)
  unfolding on_receive
  on_receive_ends fuel b bs size s o f w =
      let all : add64 s.received size ≡ s.received + size = omega arith in
      let (n, t, e, h, short, same) =
        answer_ends fuel b bs (record s { received = add64 s.received size }) o (omega arith)
          (omega arith) in
      (
        n,
        record t { bytes_sent = add64 t.bytes_sent size },
        ap (counted size) e,
        h.handed,
        short,
        same ∙ all,
      )

  -- An empty message is answered without an end.
  pub answer_spins : (fuel : ℕ) (s : EchoClient) → answer v fuel [] s ≡ none
  unfolding answer
  answer_spins zero s = refl
  answer_spins (suc fuel) s =
      ground
        (arith, answer_spins fuel (record (send_message v [] s) { received = sub64 s.received 0 }))
