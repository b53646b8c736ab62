-- ===== src/Echo/Answers.antt =====
-- How an echo client answers what it receives: what it holds to be sent, and what it has not answered.
use cxx_server.Common.{
  ℕ, zero, suc, ◌+◌, ◌<◌, ◌≡◌, refl, ap, ◌∙◌, true, List, ◌∷◌, some, arith, length, length-append,
  word, leb, if◌then◌else◌, Bool-cases, inl, inr, subst, sub64, add64,
}
use cxx_server.Asio.{bytes}
use cxx_server.Client.{tcp, send_async}
use cxx_server.Client.System.{call_send, step, fits}
use cxx_server.Client.Invariant.{Inv}
use cxx_server.Client.Whole.{step-Inv}
use cxx_server.Client.Stream.{unsent}
use cxx_server.Client.Unlimited.{IsOpen, unsent-send_async}
use cxx_server.Echo.Client.{
  EchoClient, send_message, send_message-IsOpen, answer, on_receive, counted,
}

-- The bytes that the client holds to be sent, and those that it has received and not answered.
abbrev pub held : EchoClient → ℕ
held s = length (unsent s.client) + s.received

pub send_message-Inv :
    (b : ℕ) (bs : List ℕ) (s : EchoClient)
    → length (unsent s.client) + length (b ∷ bs) < word
    → Inv s.client
    → Inv (send_message tcp (b ∷ bs) s).client
unfolding send_message step
send_message-Inv b bs s w i =
    let size = length-append s.client.send_buff_flush s.client.send_buff_main in
    let f : fits (bytes (b ∷ bs)) s.client ≡ true = ground arith in
    subst (λ c. Inv (if c then (send_async tcp true (bytes (b ∷ bs)) s.client).0 else s.client)) f
      (step-Inv (call_send true (bytes (b ∷ bs))) s.client tt i)

pub send_message_held :
    (b : ℕ) (bs : List ℕ) (s : EchoClient)
    → IsOpen tcp s.client
    → length (unsent (send_message tcp (b ∷ bs) s).client)
      ≡ length (unsent s.client) + length (b ∷ bs)
unfolding send_message
send_message_held b bs s o =
    ap length (unsent-send_async tcp true b bs s.client o)
    ∙ length-append (unsent s.client) (b ∷ bs)

-- `t` is as sound as `s`, still open, and has as much.
record Answers (s t : EchoClient) : Type 0 where
  still_open : IsOpen tcp t.client
  still_kept : Inv t.client
  same : held t ≡ held s

answer_balances :
    (fuel b : ℕ) (bs : List ℕ) (s : EchoClient)
    → IsOpen tcp s.client
    → Inv s.client
    → s.received < fuel
    → held s < word
    → (t : EchoClient) × (answer tcp fuel (b ∷ bs) s ≡ some t) × Answers s t
unfolding answer
answer_balances zero b bs s o i f w = absurd (omega arith)
answer_balances (suc fuel) b bs s o i f w = elim (Bool-cases (leb (length (b ∷ bs)) s.received)) [
  | inl go ↦
      let next : EchoClient = record (send_message tcp (b ∷ bs) s) {
        received = sub64 s.received (length (b ∷ bs));
      } in
      let less : next.received + length (b ∷ bs) ≡ s.received = ground arith in
      let more = send_message_held b bs s o in
      let (t, e, h) =
        answer_balances fuel b bs next (send_message-IsOpen tcp b bs s o)
          (send_message-Inv b bs s (omega arith) i) (omega arith) (omega arith) in
      (
        t,
        rw go e,
        record {
          still_open = h.still_open;
          still_kept = h.still_kept;
          same = h.same ∙ omega arith;
        },
      )
  | inr stop ↦ (s, rw stop refl, record { still_open = o; still_kept = i; same = refl })
]

pub on_receive_balances :
    (b : ℕ) (bs : List ℕ) (size : ℕ) (s : EchoClient)
    → IsOpen tcp s.client
    → Inv s.client
    → held s + size < word
    → (t : EchoClient) × (on_receive tcp (suc (s.received + size)) (b ∷ bs) size s ≡ some t)
      × IsOpen tcp t.client
      × Inv t.client
      × (held t ≡ held s + size)
unfolding on_receive
on_receive_balances b bs size s o i w =
    let all : add64 s.received size ≡ s.received + size = omega arith in
    let got : EchoClient = record s { received = add64 s.received size } in
    let (t, e, h) =
      answer_balances (suc (s.received + size)) b bs got o i (omega arith) (omega arith) in
    (
      record t { bytes_sent = add64 t.bytes_sent size },
      ap (counted size) e,
      h.still_open,
      h.still_kept,
      h.same ∙ omega arith,
    )
