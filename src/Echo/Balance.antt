-- ===== src/Echo/Balance.antt =====
-- What an echo client holds and has not answered, through the events of its connection.
use cxx_server.Common.{
  ℕ, ◌+◌, ◌≡◌, refl, sym, ap, ◌∙◌, true, List, [], ◌∷◌, ◌++◌, Option, some, arith, append-nil,
  length, length-append, subst,
}
use cxx_server.Asio.{ErrorCode, Executor}
use cxx_server.Client.{Client, tcp}
use cxx_server.Client.Handlers.{send_handler}
use cxx_server.Client.System as Clients
use cxx_server.Client.System.{
  Event, call_connect, call_connect_async, connect_done, call_disconnect, call_disconnect_async,
  call_send, call_receive, run_posted, read_done, write_done, step, fits,
}
use cxx_server.Client.Invariant.{Inv}
use cxx_server.Client.Whole.{IsWhole, step-Inv}
use cxx_server.Client.Stream.{unsent, transmit, accept, step_trade}
use cxx_server.Echo.Client.{EchoClient, on_send}
use cxx_server.Client.Limit.{step_limit}
use cxx_server.Echo.Answers.{held}
use cxx_server.Echo.Traffic.{within, echo_send, echo_end_write, echo_client_step}

pub record Sound (s : EchoClient) : Type 0 where
  pub kept : Inv s.client
  pub unlimited : s.client.send_buff_limit ≡ 0

-- After an event that brings `n` bytes: the client is sound, and if it is still connected, it was before, and has
-- these bytes more but for those that asio has taken.
pub record Balances (s : EchoClient) (n gone : ℕ) (t : EchoClient) : Type 0 where
  pub sound : Sound t
  pub on : t.client.connected ≡ true → s.client.connected ≡ true
  pub total : t.client.connected ≡ true → gone + held t ≡ held s + n

-- A handler's part that the callbacks have no part in.
pub within-Balances :
    (f : Client → Client) (n gone : ℕ) (s : EchoClient)
    → Inv (f s.client)
    → ((f s.client).send_buff_limit ≡ s.client.send_buff_limit)
    → s.client.send_buff_limit ≡ 0
    → ((f s.client).connected ≡ true
        → (s.client.connected ≡ true)
          × (gone + length (unsent (f s.client)) ≡ length (unsent s.client) + n))
    → Balances s n gone (within f s)
within-Balances f n gone s i k l h = record {
  sound = record { kept = i; unlimited = k ∙ l };
  on = λ c. (h c).0;
  total = λ c. let e = (h c).1 in omega arith;
}

-- The write handler moves the client as that of Tcp::Client does, and answers nothing.
echo_end_write_client :
    (e : Option ErrorCode) (n : ℕ) (ws : List (Executor × List ℕ)) (s : EchoClient)
    → let t = echo_end_write tcp e n ws s in
      (t.client ≡ Clients.end_write tcp e n ws s.client) × (t.received ≡ s.received)
unfolding echo_end_write echo_send Clients.end_write send_handler on_send
echo_end_write_client e n [] s = (refl, refl)
echo_end_write_client e n ((x, w) ∷ rest) s = (ground arith, ground arith)

-- An event in which no callback sends.
quiet-Balances :
    (ev : Event) (s t : EchoClient)
    → IsWhole ev s.client
    → accept ev s.client ≡ []
    → t.client ≡ step tcp ev s.client
    → t.received ≡ s.received
    → Sound s
    → Balances s 0 (length (transmit ev s.client)) t
quiet-Balances ev s t w none' moved same i = record {
  sound = record {
    kept = subst Inv (sym moved) (step-Inv ev s.client w i.kept);
    unlimited = ap (λ c. c.send_buff_limit) moved ∙ step_limit ev s.client ∙ i.unlimited;
  };
  on = λ c. (step_trade ev s.client w i.kept (ap (λ k. k.connected) (sym moved) ∙ c)).0;
  total = λ c.
      let trade = (step_trade ev s.client w i.kept (ap (λ k. k.connected) (sym moved) ∙ c)).1 in
      let held_then : length (unsent s.client) ≡ length (unsent s.client ++ accept ev s.client) =
        ap length
          (sym (append-nil (unsent s.client)) ∙ ap (λ l. unsent s.client ++ l) (sym none')) in
      let held_now = length-append (transmit ev s.client) (unsent (step tcp ev s.client)) in
      let sizes = ap length trade in
      let size : length (unsent t.client) ≡ length (unsent (step tcp ev s.client)) =
        ap (λ k. length (unsent k)) moved in
      omega arith;
}

-- The writes that end well are complete, no connection is begun, and only `onReceive` sends.
abbrev pub IsQuiet : Event → EchoClient → Type 0
IsQuiet (call_send inside buffer) s = ⊥
IsQuiet (read_done e data') s = ⊥
IsQuiet ev s = IsWhole ev s.client

pub echo_client_step-Balances :
    (message : List ℕ) (ev : Event) (s : EchoClient)
    → IsQuiet ev s
    → Sound s
    → (t : EchoClient) × (echo_client_step tcp message ev s ≡ some t)
      × Balances s 0 (length (transmit ev s.client)) t
unfolding echo_client_step accept step
echo_client_step-Balances message (call_connect e space) s w i = absurd w
echo_client_step-Balances message call_connect_async s w i = absurd w
echo_client_step-Balances message (connect_done e space) s w i = absurd w
echo_client_step-Balances message call_disconnect s w i =
    (_, refl, quiet-Balances call_disconnect s _ w refl refl refl i)
echo_client_step-Balances message (call_disconnect_async inside) s w i =
    (_, refl, quiet-Balances (call_disconnect_async inside) s _ w refl refl refl i)
echo_client_step-Balances message (call_send inside buffer) s w i = absurd w
echo_client_step-Balances message call_receive s w i =
    (_, refl, quiet-Balances call_receive s _ w refl refl refl i)
echo_client_step-Balances message run_posted s w i =
    (_, refl, quiet-Balances run_posted s _ w refl refl refl i)
echo_client_step-Balances message (read_done e data') s w i = absurd w
echo_client_step-Balances message (write_done e n) s w i =
    let (moved, same) = echo_end_write_client e n s.client.writes s in
    (_, refl, quiet-Balances (write_done e n) s _ w refl moved same i)
