-- ===== src/Echo/Circuit.antt =====
-- An echo client and an echo session at the two ends of a connection: the bytes go round.
use cxx_server.Common.{
  ℕ, ◌+◌, ◌≡◌, true, List, [], ◌∷◌, ◌++◌, Option, none, some, length, take, drop,
}
use mathlib.Core.Option as Option
use cxx_server.Client as TcpClient
use cxx_server.Client.System as Clients
use cxx_server.Client.Stream as ClientStream
use cxx_server.Session.{Session, tcp}
use cxx_server.Session.System.{call_send, read_done}
use cxx_server.Session.Invariant.{Inv}
use cxx_server.Session.Stream.{unsent, transmit}
use cxx_server.Echo.Session.{echo_step, read_by}
use cxx_server.Echo.Client.{EchoClient}
use cxx_server.Echo.Link.{
  LinkEvent, client_event, session_event, client_reads, session_reads, taken_in,
}
use cxx_server.Echo.Traffic.{echo_client_step}
use cxx_server.Echo.Balance as Balance
use cxx_server.Echo.Answers.{held}
use cxx_server.Echo.Balance.{IsQuiet, echo_client_step-Balances}

-- `up` are the bytes in flight to the session, and `down` those to the client.
pub record Circuit : Type 0 where
  pub client : EchoClient
  pub session : Session
  pub up : List ℕ
  pub down : List ℕ

-- `none` is an `onReceive` of the client that does not end. Reads are events of the link.
unfoldable pub circuit_step : List ℕ → LinkEvent → Circuit → Option Circuit
circuit_step message (client_event ev) l =
    let up = l.up ++ ClientStream.transmit ev l.client.client in
    Option.map (λ c. record l { client = c; up = up })
      (echo_client_step TcpClient.tcp message ev l.client)
circuit_step message (session_event ev) l =
    some (record l { session = echo_step tcp ev l.session; down = l.down ++ transmit ev l.session })
circuit_step message (client_reads e n) l =
    let data' = take n l.down in
    let down = drop (length (taken_in data' l.client.client.reads l.client.client)) l.down in
    Option.map (λ c. record l { client = c; down = down })
      (echo_client_step TcpClient.tcp message (Clients.read_done e data') l.client)
circuit_step message (session_reads e n) l =
    let data' = take n l.up in
    some (record l {
      session = echo_step tcp (read_done e data') l.session;
      up = drop (length (read_by tcp data' l.session.reads l.session)) l.up;
    })

unfoldable pub circuit_run : List ℕ → List LinkEvent → Option Circuit → Option Circuit
circuit_run message evs none = none
circuit_run message [] (some l) = some l
circuit_run message (ev ∷ evs) (some l) = circuit_run message evs (circuit_step message ev l)

-- Both ends are connected.
pub record IsUp (l : Circuit) : Type 0 where
  pub client_on : l.client.client.connected ≡ true
  pub session_on : l.session.connected ≡ true

-- The client's writes that end well are complete, it begins no new connection, and only the two `onReceive`s send.
abbrev pub IsPlain : LinkEvent → Circuit → Type 0
IsPlain (client_event ev) l = IsQuiet ev l.client
IsPlain (session_event (call_send inside buffer)) l = ⊥
IsPlain (session_event (read_done e data')) l = ⊥
IsPlain _ l = Unit

-- Such events, during which both ends stay connected.
abbrev pub AllPlain : List ℕ → List LinkEvent → Option Circuit → Type 0
AllPlain message evs none = Unit
AllPlain message [] (some l) = IsUp l
AllPlain message (ev ∷ evs) (some l) =
    IsUp l × IsPlain ev l × AllPlain message evs (circuit_step message ev l)

-- The bytes in the circuit: in flight, held by either end to be sent, and received by the client and not yet
-- answered.
abbrev pub in_circuit : Circuit → ℕ
in_circuit l = length l.down + (length (unsent l.session) + (length l.up + held l.client))

pub record Sound (l : Circuit) : Type 0 where
  pub client_sound : Balance.Sound l.client
  pub session_kept : Inv tcp l.session
  pub unlimited : l.session.send_limit ≡ 0
