-- ===== src/Echo/Doubled.antt =====
-- How many messages an echo client sends when it connects.
use cxx_server.Common.{
  ℕ, zero, suc, ◌+◌, ◌≡◌, refl, sym, ap, ◌∙◌, false, List, ◌∷◌, ◌++◌, none, arith, append_assoc,
}
use cxx_server.Client.{Client, Virtuals, tcp, Call, call, try_receive}
use cxx_server.Client.Handlers.{set_up, tell_empty, with_endpoint}
use cxx_server.Client.Stream.{unsent}
use cxx_server.Client.Unlimited.{IsOpen}
use cxx_server.Echo.Client.{
  EchoClient, send_message, send_messages, on_connect, copies, HasSent, on_connect-HasSent,
}
use cxx_server.Echo.Traffic.{within, told_connected, echo_connect, echo_connected}

copies_add :
    (m n : ℕ) (message : List ℕ) → copies (m + n) message ≡ copies m message ++ copies n message
unfolding copies
copies_add zero n message = let e : zero + n ≡ n = omega arith in ap (λ k. copies k message) e
copies_add (suc m) n message =
    let e : suc m + n ≡ suc (m + n) = omega arith in
    ap (λ k. copies k message) e
    ∙ ap (λ c. message ++ c) (copies_add m n message)
    ∙ sym (append_assoc message (copies m message) (copies n message))

messages-send_messages :
    (v : Virtuals) (n : ℕ) (message : List ℕ) (s : EchoClient)
    → (send_messages v n message s).messages ≡ s.messages
unfolding send_messages send_message
messages-send_messages v zero message s = refl
messages-send_messages v (suc n) message s =
    messages-send_messages v n message (send_message v message s)

pub unsent-tell_empty : (s : Client) → unsent (tell_empty s) ≡ unsent s
unfolding tell_empty
unsent-tell_empty s = ground arith

pub try_receive-IsOpen : (s : Client) → IsOpen tcp s → IsOpen tcp (try_receive tcp s)
unfolding try_receive
try_receive-IsOpen s o = ground arith

pub unsent-try_receive : (v : Virtuals) (s : Client) → unsent (try_receive v s) ≡ unsent s
unfolding try_receive
unsent-try_receive v s = ground arith

told_connected-HasSent :
    (b : ℕ) (bs : List ℕ) (s : EchoClient)
    → IsOpen tcp s.client
    → HasSent tcp s.messages (b ∷ bs) s (told_connected tcp (b ∷ bs) s)
unfolding told_connected
told_connected-HasSent b bs s o =
    let h = on_connect-HasSent tcp b bs (within (call Call.on_connect) s) (ground arith) in
    record { handed = h.handed; still_open = h.still_open }

told_messages :
    (message : List ℕ) (s : EchoClient) → (told_connected tcp message s).messages ≡ s.messages
unfolding told_connected on_connect
told_messages message s =
    messages-send_messages tcp s.messages message (within (call Call.on_connect) s)

told_once :
    (b : ℕ) (bs : List ℕ) (s : EchoClient)
    → IsOpen tcp s.client
    → unsent (tell_empty (told_connected tcp (b ∷ bs) s).client)
      ≡ unsent s.client ++ copies s.messages (b ∷ bs)
told_once b bs s o =
    unsent-tell_empty (told_connected tcp (b ∷ bs) s).client
    ∙ (told_connected-HasSent b bs s o).handed

told_twice :
    (b : ℕ) (bs : List ℕ) (s : EchoClient)
    → IsOpen tcp s.client
    → let t = within (try_receive tcp) (told_connected tcp (b ∷ bs) s) in
      unsent (tell_empty (told_connected tcp (b ∷ bs) t).client)
      ≡ unsent s.client ++ copies (s.messages + s.messages) (b ∷ bs)
told_twice b bs s o =
    let first = told_connected-HasSent b bs s o in
    let told = told_connected tcp (b ∷ bs) s in
    let m = copies s.messages (b ∷ bs) in
    told_once b bs (within (try_receive tcp) told) (try_receive-IsOpen told.client first.still_open)
    ∙ ap (λ k. unsent (try_receive tcp told.client) ++ copies k (b ∷ bs)) (told_messages (b ∷ bs) s)
    ∙ ap (λ l. l ++ m) (unsent-try_receive tcp told.client ∙ first.handed)
    ∙ append_assoc (unsent s.client) m m
    ∙ ap (λ l. unsent s.client ++ l) (sym (copies_add s.messages s.messages (b ∷ bs)))

-- A client that is not connected and has no send limit, whose socket connects, for a message that is not empty:
-- `connect` hands over its number of messages, and the handler of `connectAsync` twice as many.
pub connect_async_sends_twice :
    (b : ℕ) (bs : List ℕ) (space : ℕ) (s : EchoClient)
    → s.client.connected ≡ false
    → s.client.send_buff_limit ≡ 0
    → (unsent (echo_connect tcp (b ∷ bs) none space s).client
        ≡ unsent s.client ++ copies s.messages (b ∷ bs))
      × (unsent (echo_connected tcp (b ∷ bs) none space s).client
          ≡ unsent s.client ++ copies (s.messages + s.messages) (b ∷ bs))
unfolding echo_connect echo_connected set_up
connect_async_sends_twice b bs space s off free =
    let up : EchoClient = within (set_up space) (within with_endpoint s) in
    let joined : EchoClient =
      within (set_up space) (within (λ c. record c { connecting = false }) s) in
    (
      rw off (told_once b bs up (record { on = refl; unlimited = free })),
      rw off (told_twice b bs joined (record { on = refl; unlimited = free })),
    )
