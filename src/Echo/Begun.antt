-- ===== src/Echo/Begun.antt =====
-- An echo client that has just connected.
use cxx_server.Common.{
  ℕ, zero, suc, ◌+◌, ◌*◌, ◌<◌, ◌≡◌, refl, ap, ◌∙◌, Bool, false, List, [], ◌∷◌, none, some, arith,
  length, word,
}
use cxx_server.Client.{Client, tcp, new, enqueue, Call, call, try_receive}
use cxx_server.Client as TcpClient
use cxx_server.Client.Handlers.{set_up, tell_empty, connect_async, perform, connect_handler}
use cxx_server.Client.System.{call_connect_async, run_posted, connect_done, step, run_first}
use cxx_server.Client.Invariant.{Inv, try_receive-Inv}
use cxx_server.Client.Stream.{unsent}
use cxx_server.Client.Unlimited.{IsOpen}
use cxx_server.Echo.Client.{
  EchoClient, new_echo_client, send_message, send_messages, send_message-IsOpen, on_connect,
}
use cxx_server.Echo.Traffic.{
  within, told_connected, echo_connected, echo_end_connect, echo_client_step, echo_client_run,
}
use cxx_server.Echo.Answers.{held, send_message-Inv, send_message_held}
use cxx_server.Echo.Balance.{Sound}
use cxx_server.Echo.Doubled.{try_receive-IsOpen, unsent-try_receive}

-- `t` is `s` with `n` bytes more to be sent.
record Filled (n : ℕ) (s t : EchoClient) : Type 0 where
  kept : Inv t.client
  still_open : IsOpen tcp t.client
  sends : length (unsent t.client) ≡ length (unsent s.client) + n
  received : t.received ≡ s.received
  messages : t.messages ≡ s.messages

-- A ready client that is sound.
record Ready (s : EchoClient) : Type 0 where
  kept : Inv s.client
  still_open : IsOpen tcp s.client

send_messages-Filled :
    (n b : ℕ) (bs : List ℕ) (s : EchoClient)
    → Ready s
    → length (unsent s.client) + n * length (b ∷ bs) < word
    → Filled (n * length (b ∷ bs)) s (send_messages tcp n (b ∷ bs) s)
unfolding send_messages send_message
send_messages-Filled zero b bs s i w = record {
  kept = i.kept;
  still_open = i.still_open;
  sends = omega arith;
  received = refl;
  messages = refl;
}
send_messages-Filled (suc n) b bs s i w =
    let t = send_message tcp (b ∷ bs) s in
    let more = send_message_held b bs s i.still_open in
    let rest =
      send_messages-Filled n b bs t
        (record {
          kept = send_message-Inv b bs s (omega arith) i.kept;
          still_open = send_message-IsOpen tcp b bs s i.still_open;
        })
        (omega arith) in
    record {
      kept = rest.kept;
      still_open = rest.still_open;
      sends = rest.sends ∙ omega arith;
      received = rest.received;
      messages = rest.messages;
    }

told_connected-Filled :
    (b : ℕ) (bs : List ℕ) (s : EchoClient)
    → Ready s
    → length (unsent s.client) + s.messages * length (b ∷ bs) < word
    → Filled (s.messages * length (b ∷ bs)) s (told_connected tcp (b ∷ bs) s)
unfolding told_connected on_connect
told_connected-Filled b bs s i w =
    let told : EchoClient = within (call Call.on_connect) s in
    let h =
      send_messages-Filled s.messages b bs told
        (record { kept = ground arith; still_open = ground arith }) w in
    record {
      kept = h.kept;
      still_open = h.still_open;
      sends = h.sends;
      received = h.received;
      messages = h.messages;
    }

-- A new client, up to the callbacks of its connection.
abbrev begun : ℕ → Bool → List ℕ → ℕ → ℕ → ℕ → EchoClient
begun id strand_needed addr port messages space =
    within
      (λ c. set_up space (record (run_first tcp c.posted c) { connects = []; connecting = false }))
      (within (enqueue TcpClient.Task.connect_task)
        (new_echo_client id strand_needed addr port messages))

tell_empty-Filled : (n : ℕ) (s t : EchoClient) → Filled n s t → Filled n s (within tell_empty t)
unfolding tell_empty
tell_empty-Filled n s t h = ground arith

told_twice-Filled :
    (b : ℕ) (bs : List ℕ) (s : EchoClient)
    → Ready s
    → length (unsent s.client) + 2 * (s.messages * length (b ∷ bs)) < word
    → Filled
        (2 * (s.messages * length (b ∷ bs)))
        s
        (told_connected tcp (b ∷ bs) (within (try_receive tcp) (told_connected tcp (b ∷ bs) s)))
told_twice-Filled b bs s i w =
    let h = told_connected-Filled b bs s i (omega arith) in
    let told = told_connected tcp (b ∷ bs) s in
    let reading : EchoClient = within (try_receive tcp) told in
    let still = ap length (unsent-try_receive tcp told.client) in
    let first : length (unsent reading.client)
        ≡ length (unsent s.client) + s.messages * length (b ∷ bs) =
      still ∙ h.sends in
    let sizes : reading.messages * length (b ∷ bs) ≡ s.messages * length (b ∷ bs) =
      ap (λ k. k * length (b ∷ bs)) h.messages in
    let ready : Ready reading = record {
      kept = try_receive-Inv told.client h.kept;
      still_open = try_receive-IsOpen told.client h.still_open;
    } in
    let k = told_connected-Filled b bs reading ready (omega arith) in
    record {
      kept = k.kept;
      still_open = k.still_open;
      sends = k.sends ∙ omega arith;
      received = k.received ∙ h.received;
      messages = k.messages ∙ h.messages;
    }

-- After `connectAsync`, a client that has just been made and whose socket connects
pub connected_client :
    (id : ℕ) (strand_needed : Bool) (addr : List ℕ) (port messages b : ℕ) (bs : List ℕ) (space : ℕ)
    → 2 * (messages * length (b ∷ bs)) < word
    → (t : EchoClient) × (echo_client_run tcp
          (b ∷ bs)
          (call_connect_async ∷ run_posted ∷ connect_done none space ∷ [])
          (some (new_echo_client id strand_needed addr port messages))
        ≡ some t)
      × Sound t
      × (held t ≡ 2 * (messages * length (b ∷ bs)))
unfolding new_echo_client new set_up run_first perform connect_handler connect_async step
    echo_client_run echo_client_step echo_end_connect echo_connected
connected_client id strand_needed addr port messages b bs space w =
    let first = begun id strand_needed addr port messages space in
    let told = told_connected tcp (b ∷ bs) first in
    let again = told_connected tcp (b ∷ bs) (within (try_receive tcp) told) in
    let t = within tell_empty again in
    let ready : Ready first = record {
      kept = ground arith;
      still_open = record { on = refl; unlimited = refl };
    } in
    let h = tell_empty-Filled _ first again (told_twice-Filled b bs first ready (omega arith)) in
    (
      t,
      refl,
      record { kept = h.kept; unlimited = h.still_open.unlimited },
      ap (λ r. length (unsent t.client) + r) h.received ∙ omega arith,
    )
