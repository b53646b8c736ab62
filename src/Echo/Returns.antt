-- ===== src/Echo/Returns.antt =====
-- What a client sends to an echo session comes back to it.
use cxx_server.Common.{
  ◌≡◌, refl, sym, ap, ◌∙◌, true, List, [], ◌∷◌, ◌++◌, append-nil, subst, take, drop, length,
}
use cxx_server.Client.{Client}
use cxx_server.Client as TcpClient
use cxx_server.Client.System as Clients
use cxx_server.Client.Invariant as ClientInvariant
use cxx_server.Client.Whole as ClientWhole
use cxx_server.Client.Stream as ClientStream
use cxx_server.Session.{tcp}
use cxx_server.Session.System.{
  Event, call_send, call_disconnect, call_receive, run_posted, read_done, write_done,
}
use cxx_server.Session.Invariant.{Inv}
use cxx_server.Session.Stream.{unsent, accept, transmit}
use cxx_server.Echo.Session.{echo_step, echo_run, arrive, read_by}
use cxx_server.Echo.Stream.{echo_step-Inv, echo_step-Keeps, unsent-echo_step, echo_run_connected}
use cxx_server.Echo.Carried.{
  handed_in, written_back, read_there, read_here, taken_in_front, read_by_front,
}
use cxx_server.Echo.Link.{
  Link, LinkEvent, client_event, session_event, client_reads, session_reads, taken_in, client_step,
  session_step, link_step, link_run, IsPlain, AllPlain, under_way,
}

pub record Sound (l : Link) : Type 0 where
  pub client_kept : ClientInvariant.Inv l.client
  pub session_kept : Inv tcp l.session
  pub unlimited : l.session.send_limit ≡ 0

-- Both ends are connected.
pub record IsUp (l : Link) : Type 0 where
  pub client_on : l.client.connected ≡ true
  pub session_on : l.session.connected ≡ true

-- If both ends are connected after it, they were before, and no byte is lost.
abbrev Kept : Link → Link → Type 0
Kept l m = IsUp m → IsUp l × (l.sent ≡ l.got ++ under_way l → m.sent ≡ m.got ++ under_way m)

Kept-refl : (l : Link) → Kept l l
Kept-refl l on = (on, λ e. e)

-- The session's next state is sound, the client's unchanged.
session_moved-Sound :
    (ev : Event) (l m : Link)
    → m.client ≡ l.client
    → m.session ≡ echo_step tcp ev l.session
    → Sound l
    → Sound m
session_moved-Sound ev l m same moved i = record {
  client_kept = subst ClientInvariant.Inv (sym same) i.client_kept;
  session_kept = subst (Inv tcp) (sym moved) (echo_step-Inv tcp refl ev l.session i.session_kept);
  unlimited =
      ap (λ s. s.send_limit) moved ∙ (echo_step-Keeps tcp refl ev l.session).limited ∙ i.unlimited;
}

-- The link after an event of the client other than a read.
abbrev client_moved : Clients.Event → Link → Link
client_moved ev l = record l {
  client = Clients.step TcpClient.tcp ev l.client;
  sent = l.sent ++ ClientStream.accept ev l.client;
  up = l.up ++ ClientStream.transmit ev l.client;
}

client_step_rule :
    (P : Link → Type 0) (ev : Clients.Event) (l : Link)
    → P l
    → P (client_moved ev l)
    → P (client_step ev l)
unfolding client_step
client_step_rule P (Clients.read_done e data') l p q = p
client_step_rule P (Clients.call_connect e space) l p q = q
client_step_rule P Clients.call_connect_async l p q = q
client_step_rule P (Clients.connect_done e space) l p q = q
client_step_rule P Clients.call_disconnect l p q = q
client_step_rule P (Clients.call_disconnect_async inside) l p q = q
client_step_rule P (Clients.call_send inside buffer) l p q = q
client_step_rule P Clients.call_receive l p q = q
client_step_rule P Clients.run_posted l p q = q
client_step_rule P (Clients.write_done e n) l p q = q

-- The link after an event of the session that brings no bytes.
abbrev session_moved : Event → Link → Link
session_moved ev l = record l {
  session = echo_step tcp ev l.session;
  down = l.down ++ transmit ev l.session;
}

session_step_rule :
    (P : Link → Type 0) (ev : Event) (l : Link)
    → IsPlain (session_event ev) l
    → P l
    → (arrive tcp ev l.session ≡ [] → P (session_moved ev l))
    → P (session_step ev l)
unfolding session_step arrive accept
session_step_rule P (call_send inside buffer) l w p q = absurd w
session_step_rule P (call_disconnect inside) l w p q = q refl
session_step_rule P call_receive l w p q = q refl
session_step_rule P run_posted l w p q = q refl
session_step_rule P (read_done e data') l w p q = p
session_step_rule P (write_done e n) l w p q = q refl

link_step-Sound : (ev : LinkEvent) (l : Link) → IsPlain ev l → Sound l → Sound (link_step ev l)
unfolding link_step
link_step-Sound (client_event ev) l w i = client_step_rule Sound ev l i (record {
  client_kept = ClientWhole.step-Inv ev l.client w i.client_kept;
  session_kept = i.session_kept;
  unlimited = i.unlimited;
})
link_step-Sound (session_event ev) l w i =
    session_step_rule Sound ev l w i
      (λ q. session_moved-Sound ev l (session_moved ev l) refl refl i)
link_step-Sound (client_reads e n) l w i = record {
  client_kept =
      ClientWhole.step-Inv (Clients.read_done e (take n l.down)) l.client tt i.client_kept;
  session_kept = i.session_kept;
  unlimited = i.unlimited;
}
link_step-Sound (session_reads e n) l w i =
    session_moved-Sound (read_done e (take n l.up)) l (link_step (session_reads e n) l) refl refl i

client_moved-Kept :
    (ev : Clients.Event) (l : Link)
    → ClientWhole.IsWhole ev l.client
    → Sound l
    → Kept l (client_moved ev l)
client_moved-Kept ev l w i on =
    let (was, trade) = ClientStream.step_trade ev l.client w i.client_kept on.client_on in
    (
      record { client_on = was; session_on = on.session_on },
      λ e.
          ap (λ b. b ++ ClientStream.accept ev l.client) e
          ∙ handed_in l.got l.down (unsent l.session) l.up (ClientStream.unsent l.client)
              (ClientStream.accept ev l.client) (ClientStream.transmit ev l.client)
              (ClientStream.unsent (Clients.step TcpClient.tcp ev l.client)) trade,
    )

session_moved-Kept :
    (ev : Event) (l : Link) → arrive tcp ev l.session ≡ [] → Sound l → Kept l (session_moved ev l)
unfolding echo_run
session_moved-Kept ev l q i on =
    let was = echo_run_connected tcp refl (ev ∷ []) l.session on.session_on in
    let trade = unsent-echo_step tcp refl ev l.session i.session_kept i.unlimited on.session_on in
    let kept : unsent l.session ≡ transmit ev l.session ++ unsent (echo_step tcp ev l.session) =
      sym (append-nil (unsent l.session)) ∙ ap (λ b. unsent l.session ++ b) (sym q) ∙ trade in
    (
      record { client_on = on.client_on; session_on = was },
      λ e.
          e
          ∙ written_back l.got l.down (unsent l.session) (l.up ++ ClientStream.unsent l.client)
              (transmit ev l.session) (unsent (echo_step tcp ev l.session)) kept,
    )

link_step-Kept : (ev : LinkEvent) (l : Link) → IsPlain ev l → Sound l → Kept l (link_step ev l)
unfolding link_step arrive transmit echo_run ClientStream.accept ClientStream.transmit
link_step-Kept (client_event ev) l w i on =
    client_step_rule (Kept l) ev l (Kept-refl l) (client_moved-Kept ev l w i) on
link_step-Kept (session_event ev) l w i on =
    session_step_rule (Kept l) ev l w (Kept-refl l) (λ q. session_moved-Kept ev l q i) on
link_step-Kept (client_reads e n) l w i on =
    let ev = Clients.read_done e (take n l.down) in
    let (was, trade) = ClientStream.step_trade ev l.client tt i.client_kept on.client_on in
    let p = taken_in (take n l.down) l.client.reads l.client in
    let same : ClientStream.unsent l.client
        ≡ ClientStream.unsent (Clients.step TcpClient.tcp ev l.client) =
      sym (append-nil (ClientStream.unsent l.client)) ∙ trade in
    (
      record { client_on = was; session_on = on.session_on },
      λ e.
          e
          ∙ read_here l.got l.down (unsent l.session ++ (l.up ++ ClientStream.unsent l.client)) p
              (drop (length p) l.down) (taken_in_front n l.down l.client.reads l.client)
          ∙ ap (λ b. (l.got ++ p) ++ (drop (length p) l.down ++ (unsent l.session ++ (l.up ++ b))))
              same,
    )
link_step-Kept (session_reads e n) l w i on =
    let ev = read_done e (take n l.up) in
    let p = read_by tcp (take n l.up) l.session.reads l.session in
    let trade = unsent-echo_step tcp refl ev l.session i.session_kept i.unlimited on.session_on in
    (
      record {
        client_on = on.client_on;
        session_on = echo_run_connected tcp refl (ev ∷ []) l.session on.session_on;
      },
      λ e.
          e
          ∙ read_there l.got l.down (unsent l.session) l.up (ClientStream.unsent l.client) p
              (drop (length p) l.up) (unsent (echo_step tcp ev l.session))
              (read_by_front n l.up l.session.reads l.session) trade,
    )

Kept-trans : (l m n : Link) → Kept l m → Kept m n → Kept l n
Kept-trans l m n f g on =
    let (up, later) = g on in let (first, sooner) = f up in (first, λ e. later (sooner e))

link_run-Kept :
    (evs : List LinkEvent) (l : Link) → AllPlain evs l → Sound l → Kept l (link_run evs l)
unfolding link_run
link_run-Kept [] l w i = Kept-refl l
link_run-Kept (ev ∷ evs) l w i =
    Kept-trans l (link_step ev l) (link_run evs (link_step ev l)) (link_step-Kept ev l w.0 i)
      (link_run-Kept evs (link_step ev l) w.1 (link_step-Sound ev l w.0 i))

-- Over every sequence of events at both ends of a connection between a client and an echo session without a send
-- limit, from states that satisfy the invariants and with all accounted for, as long as both are connected, the
-- client's writes that end well are complete, it begins no new connection and no other sends through the session:
-- the bytes that the client has sent are, in order, those that have come back to it, those in flight to it, those
-- that the session holds, those in flight to the session and those that the client holds.
pub sent_returns :
    (evs : List LinkEvent) (l : Link)
    → AllPlain evs l
    → Sound l
    → l.sent ≡ l.got ++ under_way l
    → IsUp (link_run evs l)
    → let m = link_run evs l in m.sent ≡ m.got ++ under_way m
sent_returns evs l w i e on = (link_run-Kept evs l w i on).1 e
