-- ===== src/Client/Connect.antt =====
-- What Tcp::Client tells its user of a new connection.
use cxx_server.Common.{
  ℕ, refl, ◌+◌, ◌≡◌, ◌∙◌, ap, Bool, false, List, [], ◌∷◌, none, some, arith, if_rule,
}
use cxx_server.Client.{Client, Call, call, on_connect, tcp, try_receive}
use cxx_server.Client.Handlers.{set_up, tell_empty, connect, connected_handler}

abbrev told : Call → ℕ
told on_connect = 1
told _ = 0

-- How many calls of `onConnect` there are.
pub connects_told : List Call → ℕ
connects_told [] = 0
connects_told (c ∷ cs) = told c + connects_told cs

set_up_told :
    (space : ℕ) (s : Client) → connects_told (set_up space s).calls ≡ connects_told s.calls
unfolding connects_told set_up
set_up_told space s = ground arith

tell_empty_told : (s : Client) → connects_told (tell_empty s).calls ≡ connects_told s.calls
unfolding connects_told tell_empty
tell_empty_told s = ground arith

greet : (s : Client) → connects_told (call on_connect s).calls ≡ 1 + connects_told s.calls
unfolding connects_told
greet s = refl

try_receive_calls : (s : Client) → (try_receive tcp s).calls ≡ s.calls
unfolding try_receive
try_receive_calls s = ground arith

-- A client that is not connected calls `onConnect` once when a synchronous connect succeeds, and twice when
-- an asynchronous one does.
connect_told :
    (space : ℕ) (s : Client)
    → s.connected ≡ false
    → (connects_told (connect tcp none space s).0.calls ≡ 1 + connects_told s.calls)
      × (connects_told (connected_handler tcp none space s).calls ≡ 2 + connects_told s.calls)
unfolding connect connected_handler
connect_told space s h =
    let now : Client = set_up space (record s { endpoint = some (s.addr, s.port) }) in
    let later : Client = set_up space (record s { connecting = false }) in
    let first : Client = call on_connect later in
    let read : Client = try_receive tcp first in
    let once : connects_told read.calls ≡ 1 + connects_told s.calls =
      ap connects_told (try_receive_calls first)
      ∙ greet later
      ∙ ap (λ n. 1 + n) (set_up_told space (record s { connecting = false })) in
    let twice : 1 + (1 + connects_told s.calls) ≡ 2 + connects_told s.calls = omega arith in
    (
      if_rule (λ (r : Client × Bool). connects_told r.0.calls ≡ 1 + connects_told s.calls)
          s.connected _ _ (λ on. absurd (ground arith))
          (λ off.
            tell_empty_told (call on_connect now)
            ∙ greet now
            ∙ ap (λ n. 1 + n) (set_up_told space (record s { endpoint = some (s.addr, s.port) }))),
      if_rule (λ (r : Client). connects_told r.calls ≡ 2 + connects_told s.calls) s.connected _ _
          (λ on. absurd (ground arith))
          (λ off.
            tell_empty_told (call on_connect read) ∙ greet read ∙ ap (λ n. 1 + n) once ∙ twice),
    )
