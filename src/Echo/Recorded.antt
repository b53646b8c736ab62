-- ===== src/Echo/Recorded.antt =====
-- The echo server with a record of the bytes of each of its sessions: those that the session is to return, and
-- those that it has returned.
use cxx_server.Common.{
  ℕ, ◌≡◌, refl, sym, ap, ◌∙◌, Bool, true, false, List, [], ◌∷◌, ◌++◌, some, arith, append_assoc,
}
use cxx_server.Asio.{Buffer}
use cxx_server.Session.{Session, Virtuals, new, send_async, disconnect, try_receive}
use cxx_server.Session.Handlers.{connect, connect_stream, tell_empty}
use cxx_server.Session.System.{Event, call_send, fits, step}
use cxx_server.Session.Invariant.{Inv, disconnect-Inv}
use cxx_server.Session.Keeps.{send_async-Keeps, send_async_connected, disconnect-Keeps}
use cxx_server.Session.Stream.{unsent, transmit}
use cxx_server.Server.{Server, new_server, find_session}
use cxx_server.Server.Kinds.{Kind, IsLawful}
use cxx_server.Server.System.{run}
use cxx_server.Server.System as Servers
use cxx_server.Server.Sound.{new_server-Sound}
use cxx_server.Server.Registered.{run-found}
use cxx_server.Server.Tcp.{share, share-Inv, disconnect_connected, fitting-Inv}
use cxx_server.Echo.Session.{echo_step, echo_run, arrive}
use cxx_server.Echo.Stream.{echo_step-Inv, echo_step-Keeps, unsent-echo_step, echo_run_connected}
use cxx_server.Echo.Server.{echo_kind, echo_kind-IsLawful}

-- `came` are the bytes that the session has read and those that others have sent through it, and `back` those
-- that it has written.
pub record Recorded : Type 0 where
  pub session : Session
  pub came : List ℕ
  pub back : List ℕ

module _ (v : Virtuals) where
  unfoldable pub recorded_step : Event → Recorded → Recorded
  recorded_step ev r = record {
    session = echo_step v ev r.session;
    came = r.came ++ arrive v ev r.session;
    back = r.back ++ transmit ev r.session;
  }

  unfoldable pub recorded_send : Bool → Buffer → Recorded → Recorded
  recorded_send inside buffer r = record {
    session = (send_async v inside buffer r.session).0;
    came = r.came ++ arrive v (call_send inside buffer) r.session;
    back = r.back;
  }

  abbrev pub recorded_kind : Kind Recorded Event
  recorded_kind =
      let k : Kind Session Event = echo_kind v in
      record {
        id = λ r. k.id r.session;
        connected = λ r. k.connected r.session;
        make = λ id needed a b. record { session = k.make id needed a b; came = []; back = [] };
        connect =
            λ alive delay space r. record r { session = k.connect alive delay space r.session };
        disconnect = λ r. record r { session = k.disconnect r.session };
        send_async = recorded_send;
        fits = λ buffer r. k.fits buffer r.session;
        step = recorded_step;
        bytes_sent = λ r. k.bytes_sent r.session;
        bytes_received = λ r. k.bytes_received r.session;
        share = λ a b r. record r { session = k.share a b r.session };
        leaves = λ r. k.leaves r.session;
      }

  pub record Echoes (r : Recorded) : Type 0 where
    pub kept : Inv v r.session
    pub unlimited : r.session.send_limit ≡ 0
    pub echoed : r.session.connected ≡ true → r.came ≡ r.back ++ unsent r.session

  connect_empty :
      (id : ℕ) (needed : Bool) (a b : ℕ) (alive delay : Bool) (space : ℕ)
      → let t = connect v alive delay space (new id needed a b) in
        (t.send_limit ≡ 0) × (unsent t ≡ [])
  unfolding connect connect_stream tell_empty new try_receive
  connect_empty id needed a b alive delay space = ground arith

  disconnect_unsent : (s : Session) → unsent (disconnect false false s).0 ≡ unsent s
  unfolding disconnect
  disconnect_unsent s = ground arith

  module _ (shut : v.complete false ≡ false) where
    step-Echoes : (ev : Event) (r : Recorded) → Echoes r → Echoes (recorded_step ev r)
    unfolding recorded_step echo_run
    step-Echoes ev r i = record {
      kept = echo_step-Inv v shut ev r.session i.kept;
      unlimited = (echo_step-Keeps v shut ev r.session).limited ∙ i.unlimited;
      echoed = λ on.
          let was : r.session.connected ≡ true = echo_run_connected v shut (ev ∷ []) r.session on in
          ap (λ l. l ++ arrive v ev r.session) (i.echoed was)
          ∙ append_assoc r.back (unsent r.session) (arrive v ev r.session)
          ∙ ap (λ l. r.back ++ l) (unsent-echo_step v shut ev r.session i.kept i.unlimited on)
          ∙ sym (append_assoc r.back (transmit ev r.session) (unsent (echo_step v ev r.session)));
    }

    send_fitting :
        (inside : Bool) (buffer : Buffer) (s : Session)
        → fits buffer s ≡ true
        → step v (call_send inside buffer) s ≡ (send_async v inside buffer s).0
    unfolding step
    send_fitting inside buffer s f = rw f refl

    unsent-send :
        (inside : Bool) (buffer : Buffer) (s : Session)
        → fits buffer s ≡ true
        → Inv v s
        → s.send_limit ≡ 0
        → (send_async v inside buffer s).0.connected ≡ true
        → unsent s ++ arrive v (call_send inside buffer) s ≡ unsent (send_async v inside buffer s).0
    unfolding echo_step transmit
    unsent-send inside buffer s f i l on =
        let same = send_fitting inside buffer s f in
        unsent-echo_step v shut (call_send inside buffer) s i l
          (ap (λ (t : Session). t.connected) same ∙ on)
        ∙ ap unsent same

    send-Echoes :
        (inside : Bool) (buffer : Buffer) (r : Recorded)
        → fits buffer r.session ≡ true
        → Echoes r
        → Echoes (recorded_send inside buffer r)
    unfolding recorded_send
    send-Echoes inside buffer r f i = record {
      kept = fitting-Inv v shut inside buffer r.session f i.kept;
      unlimited = (send_async-Keeps v inside buffer r.session).limited ∙ i.unlimited;
      echoed = λ on.
          let was : r.session.connected ≡ true =
            sym (send_async_connected v inside buffer r.session) ∙ on in
          ap (λ l. l ++ arrive v (call_send inside buffer) r.session) (i.echoed was)
          ∙ append_assoc r.back (unsent r.session) (arrive v (call_send inside buffer) r.session)
          ∙ ap (λ l. r.back ++ l) (unsent-send inside buffer r.session f i.kept i.unlimited on);
    }

    disconnect-Echoes :
        (r : Recorded)
        → Echoes r
        → Echoes (record r { session = (disconnect false false r.session).0 })
    disconnect-Echoes r i = record {
      kept = disconnect-Inv v shut false false r.session i.kept;
      unlimited = (disconnect-Keeps v false false r.session).limited ∙ i.unlimited;
      echoed = λ on.
          i.echoed (sym (disconnect_connected v shut r.session) ∙ on)
          ∙ ap (λ l. r.back ++ l) (sym (disconnect_unsent r.session));
    }

    share-Echoes :
        (a b : ℕ) (r : Recorded) → Echoes r → Echoes (record r { session = share a b r.session })
    unfolding share
    share-Echoes a b r i = record {
      kept = share-Inv v shut a b r.session i.kept;
      unlimited = i.unlimited;
      echoed = i.echoed;
    }

    recorded_kind-IsLawful : IsLawful recorded_kind Echoes
    unfolding recorded_step recorded_send
    recorded_kind-IsLawful =
        let law : IsLawful (echo_kind v) (Inv v) = echo_kind-IsLawful v shut in
        record {
          made = λ id needed a b alive delay space.
              let (kept, same, once, on, own) = law.made id needed a b alive delay space in
              let (unlimited, none') = connect_empty id needed a b alive delay space in
              (
                record { kept = kept; unlimited = unlimited; echoed = λ e. sym none' },
                same,
                once,
                on,
                own,
              );
          disconnected = λ r i.
              let (kept, same, once, on) = law.disconnected r.session i.kept in
              (disconnect-Echoes r i, same, once, on);
          sent = λ inside buffer r f i.
              let (kept, same, once, on) = law.sent inside buffer r.session f i.kept in
              (send-Echoes inside buffer r f i, same, once, on);
          stepped = λ ev a b r i.
              let (kept, same, once) = law.stepped ev a b r.session i.kept in
              (
                step-Echoes ev (record r { session = share a b r.session }) (share-Echoes a b r i),
                same,
                once,
              );
        }

    -- After any run of a new echo server, if `isConnectionComplete` needs a connection: of each session that is
    -- found in its table and connected, the bytes that it has read and those of each `sendAsync` of another that
    -- returned true are, in order, those that it has written followed by those that it still holds.
    pub found_echoes :
        (strand_needed : Bool) (addr : List ℕ) (port : ℕ) (evs : List (Servers.Event Event))
        (t : Server Recorded)
        → run recorded_kind evs (new_server strand_needed addr port) ≡ some t
        → (id : ℕ) (r : Recorded) → find_session id t ≡ some r
        → r.session.connected ≡ true
        → r.came ≡ r.back ++ unsent r.session
    found_echoes strand_needed addr port evs t ran id r found on =
        let e =
          run-found recorded_kind Echoes recorded_kind-IsLawful evs
            (new_server strand_needed addr port) t
            (new_server-Sound recorded_kind Echoes strand_needed addr port) ran id r found in
        e.kept.echoed on
