-- ===== src/Echo/Link.antt =====
-- A Tcp::Client and an echo session at the two ends of a connection: the bytes that asio takes from one end are
-- in flight until it reads them at the other.
use cxx_server.Common.{ℕ, ◌&&◌, List, [], ◌∷◌, ◌++◌, Option, leb, if◌then◌else◌, take, drop, length}
use cxx_server.Asio.{ErrorCode, Executor}
use cxx_server.Client.{Client}
use cxx_server.Client as TcpClient
use cxx_server.Client.System as Clients
use cxx_server.Client.Whole as ClientWhole
use cxx_server.Client.Stream as ClientStream
use cxx_server.Session.{Session, tcp}
use cxx_server.Session.System.{Event, call_send, read_done}
use cxx_server.Session.Stream.{unsent, transmit}
use cxx_server.Echo.Session.{echo_step, read_by}

-- `sent` are the bytes that the client has accepted, `got` those that it has received; `up` are in flight to the
-- session, and `down` to the client.
pub record Link : Type 0 where
  pub client : Client
  pub session : Session
  pub sent : List ℕ
  pub up : List ℕ
  pub down : List ℕ
  pub got : List ℕ

-- An event at one end; a read is of at most so many of the bytes in flight to that end.
pub data LinkEvent : Type 0 where
  client_event : Clients.Event → LinkEvent
  session_event : Event → LinkEvent
  client_reads session_reads : Option ErrorCode → ℕ → LinkEvent

-- The bytes with which a completed read calls the client's `onReceive`.
unfoldable pub taken_in : List ℕ → List (Executor × ℕ) → Client → List ℕ
taken_in data' [] s = []
taken_in data' ((x, space) ∷ rest) s = if leb (length data') space && s.connected then data' else []

-- Reads are events of the link.
unfoldable pub client_step : Clients.Event → Link → Link
client_step (Clients.read_done e data') l = l
client_step ev l = record l {
  client = Clients.step TcpClient.tcp ev l.client;
  sent = l.sent ++ ClientStream.accept ev l.client;
  up = l.up ++ ClientStream.transmit ev l.client;
}

unfoldable pub session_step : Event → Link → Link
session_step (read_done e data') l = l
session_step ev l = record l {
  session = echo_step tcp ev l.session;
  down = l.down ++ transmit ev l.session;
}

unfoldable pub link_step : LinkEvent → Link → Link
link_step (client_event ev) l = client_step ev l
link_step (session_event ev) l = session_step ev l
link_step (client_reads e n) l =
    let data' = taken_in (take n l.down) l.client.reads l.client in
    record l {
      client = Clients.step TcpClient.tcp (Clients.read_done e (take n l.down)) l.client;
      down = drop (length data') l.down;
      got = l.got ++ data';
    }
link_step (session_reads e n) l =
    let data' = read_by tcp (take n l.up) l.session.reads l.session in
    record l {
      session = echo_step tcp (read_done e (take n l.up)) l.session;
      up = drop (length data') l.up;
    }

unfoldable pub link_run : List LinkEvent → Link → Link
link_run [] l = l
link_run (ev ∷ evs) l = link_run evs (link_step ev l)

-- The client's writes that end well are complete, it begins no new connection, and only the session itself sends
-- through it.
abbrev pub IsPlain : LinkEvent → Link → Type 0
IsPlain (client_event ev) l = ClientWhole.IsWhole ev l.client
IsPlain (session_event (call_send inside buffer)) l = ⊥
IsPlain _ l = Unit

abbrev pub AllPlain : List LinkEvent → Link → Type 0
AllPlain [] l = Unit
AllPlain (ev ∷ evs) l = IsPlain ev l × AllPlain evs (link_step ev l)

-- What is on its way: from the client's buffers to the session, through it, and back.
abbrev pub under_way : Link → List ℕ
under_way l = l.down ++ (unsent l.session ++ (l.up ++ ClientStream.unsent l.client))
