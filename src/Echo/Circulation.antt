-- ===== src/Echo/Circulation.antt =====
-- Through the circuit of an echo client and an echo session, bytes are neither lost nor made.
use cxx_server.Common.{
  ℕ, ◌+◌, ◌<◌, ◌≡◌, refl, sym, subst, ap, ◌∙◌, true, List, [], ◌∷◌, ◌++◌, Option, some, arith, word,
  length, length-append, take, drop,
}
use mathlib.Core.Option as Option
use cxx_server.Client.System as Clients
use cxx_server.Client.Stream as ClientStream
use cxx_server.Session.{tcp}
use cxx_server.Session.System.{
  Event, call_send, call_disconnect, call_receive, run_posted, read_done, write_done,
}
use cxx_server.Session.Invariant.{Inv}
use cxx_server.Session.Stream.{unsent, transmit, accept}
use cxx_server.Echo.Session.{echo_step, arrive, read_by}
use cxx_server.Echo.Stream.{echo_step-Inv, echo_step-Keeps, unsent-echo_step}
use cxx_server.Echo.Link.{
  LinkEvent, client_event, session_event, client_reads, session_reads, taken_in,
}
use cxx_server.Echo.Carried.{front, taken_in_front, read_by_front}
use cxx_server.Echo.Traffic.{echo_client_step}
use cxx_server.Echo.Balance as Balance
use cxx_server.Echo.Reading.{echo_end_read-Balances}
use cxx_server.Echo.Balance.{IsQuiet, echo_client_step-Balances}
use cxx_server.Asio.{ErrorCode}
use cxx_server.Echo.Circuit.{
  Circuit, circuit_step, circuit_run, IsUp, IsPlain, AllPlain, in_circuit, Sound,
}

record Step (l m : Circuit) : Type 0 where
  sound : Sound m
  same : IsUp m → in_circuit m ≡ in_circuit l

session_moved-Sound :
    (ev : Event) (l m : Circuit)
    → m.client ≡ l.client
    → m.session ≡ echo_step tcp ev l.session
    → Sound l
    → Sound m
session_moved-Sound ev l m same moved i = record {
  client_sound = subst Balance.Sound (sym same) i.client_sound;
  session_kept = subst (Inv tcp) (sym moved) (echo_step-Inv tcp refl ev l.session i.session_kept);
  unlimited =
      ap (λ s. s.send_limit) moved ∙ (echo_step-Keeps tcp refl ev l.session).limited ∙ i.unlimited;
}

-- What the session has been brought by an event, against what it has then.
session_sizes :
    (ev : Event) (l : Circuit)
    → Sound l
    → (echo_step tcp ev l.session).connected ≡ true
    → length (unsent l.session) + length (arrive tcp ev l.session)
      ≡ length (transmit ev l.session) + length (unsent (echo_step tcp ev l.session))
session_sizes ev l i on =
    sym (length-append (unsent l.session) (arrive tcp ev l.session))
    ∙ ap length (unsent-echo_step tcp refl ev l.session i.session_kept i.unlimited on)
    ∙ length-append (transmit ev l.session) (unsent (echo_step tcp ev l.session))

client_event_keeps :
    (message : List ℕ) (ev : Clients.Event) (l : Circuit)
    → IsQuiet ev l.client
    → Sound l
    → (m : Circuit) × (circuit_step message (client_event ev) l ≡ some m) × Step l m
unfolding circuit_step
client_event_keeps message ev l w i =
    let (t, same, h) = echo_client_step-Balances message ev l.client w i.client_sound in
    let gone = ClientStream.transmit ev l.client.client in
    let grown = length-append l.up gone in
    (
      record l { client = t; up = l.up ++ gone },
      ap (Option.map (λ c. record l { client = c; up = l.up ++ gone })) same,
      record {
        sound = record {
          client_sound = h.sound;
          session_kept = i.session_kept;
          unlimited = i.unlimited;
        };
        same = λ on. let e = h.total on.client_on in omega arith;
      },
    )

session_event_keeps :
    (message : List ℕ) (ev : Event) (l : Circuit)
    → arrive tcp ev l.session ≡ []
    → Sound l
    → (m : Circuit) × (circuit_step message (session_event ev) l ≡ some m) × Step l m
unfolding circuit_step
session_event_keeps message ev l q i =
    let m : Circuit = record l {
      session = echo_step tcp ev l.session;
      down = l.down ++ transmit ev l.session;
    } in
    let grown = length-append l.down (transmit ev l.session) in
    let nothing : length (arrive tcp ev l.session) ≡ 0 = ap length q in
    (
      m,
      refl,
      record {
        sound = session_moved-Sound ev l m refl refl i;
        same = λ on. let e = session_sizes ev l i on.session_on in omega arith;
      },
    )

client_reads_keeps :
    (e : Option ErrorCode) (n b : ℕ) (bs : List ℕ) (l : Circuit)
    → Sound l
    → in_circuit l < word
    → (m : Circuit) × (circuit_step (b ∷ bs) (client_reads e n) l ≡ some m) × Step l m
unfolding circuit_step echo_client_step
client_reads_keeps e n b bs l i w =
    let data' = take n l.down in
    let c = l.client.client in
    let p = taken_in data' c.reads c in
    let whole = ap length (front n l.down) ∙ length-append data' (drop (length data') l.down) in
    let parts =
      ap length (taken_in_front n l.down c.reads c) ∙ length-append p (drop (length p) l.down) in
    let (t, same, h) =
      echo_end_read-Balances e b bs data' c.reads l.client i.client_sound (omega arith) in
    (
      record l { client = t; down = drop (length p) l.down },
      ap (Option.map (λ k. record l { client = k; down = drop (length p) l.down })) same,
      record {
        sound = record {
          client_sound = h.sound;
          session_kept = i.session_kept;
          unlimited = i.unlimited;
        };
        same = λ on. let k = h.total on.client_on in omega arith;
      },
    )

session_reads_keeps :
    (message : List ℕ) (e : Option ErrorCode) (n : ℕ) (l : Circuit)
    → Sound l
    → (m : Circuit) × (circuit_step message (session_reads e n) l ≡ some m) × Step l m
unfolding circuit_step arrive transmit
session_reads_keeps message e n l i =
    let ev = read_done e (take n l.up) in
    let p = read_by tcp (take n l.up) l.session.reads l.session in
    let parts =
      ap length (read_by_front n l.up l.session.reads l.session)
      ∙ length-append p (drop (length p) l.up) in
    let m : Circuit = record l {
      session = echo_step tcp ev l.session;
      up = drop (length p) l.up;
    } in
    (
      m,
      refl,
      record {
        sound = session_moved-Sound ev l m refl refl i;
        same = λ on. let k = session_sizes ev l i on.session_on in omega arith;
      },
    )

circuit_step_keeps :
    (b : ℕ) (bs : List ℕ) (ev : LinkEvent) (l : Circuit)
    → IsPlain ev l
    → Sound l
    → in_circuit l < word
    → (m : Circuit) × (circuit_step (b ∷ bs) ev l ≡ some m) × Step l m
unfolding arrive accept
circuit_step_keeps b bs (client_event ev) l w i f = client_event_keeps (b ∷ bs) ev l w i
circuit_step_keeps b bs (session_event (call_send inside buffer)) l w i f = absurd w
circuit_step_keeps b bs (session_event (call_disconnect inside)) l w i f =
    session_event_keeps (b ∷ bs) (call_disconnect inside) l refl i
circuit_step_keeps b bs (session_event call_receive) l w i f =
    session_event_keeps (b ∷ bs) call_receive l refl i
circuit_step_keeps b bs (session_event run_posted) l w i f =
    session_event_keeps (b ∷ bs) run_posted l refl i
circuit_step_keeps b bs (session_event (read_done e data')) l w i f = absurd w
circuit_step_keeps b bs (session_event (write_done e n)) l w i f =
    session_event_keeps (b ∷ bs) (write_done e n) l refl i
circuit_step_keeps b bs (client_reads e n) l w i f = client_reads_keeps e n b bs l i f
circuit_step_keeps b bs (session_reads e n) l w i f = session_reads_keeps (b ∷ bs) e n l i

IsUp-now :
    (message : List ℕ) (evs : List LinkEvent) (l : Circuit) → AllPlain message evs (some l) → IsUp l
IsUp-now message [] l w = w
IsUp-now message (ev ∷ evs) l w = w.0

-- Over every sequence of events at both ends of a connection between an echo client and an echo session, both without
-- a send limit and in states that satisfy the invariants, for a message that is not empty and if the bytes in the
-- circuit are less than a word, as long as both stay connected, the client's writes that end well are complete, it
-- begins no new connection and only the two `onReceive`s send: each `onReceive` ends, and the number of bytes in the
-- circuit stays the same.
pub bytes_circulate :
    (b : ℕ) (bs : List ℕ) (evs : List LinkEvent) (l : Circuit)
    → AllPlain (b ∷ bs) evs (some l)
    → Sound l
    → in_circuit l < word
    → (m : Circuit) × (circuit_run (b ∷ bs) evs (some l) ≡ some m) × (in_circuit m ≡ in_circuit l)
unfolding circuit_run
bytes_circulate b bs [] l w i f = (l, refl, refl)
bytes_circulate b bs (ev ∷ evs) l w i f =
    let (m, same, kept) = circuit_step_keeps b bs ev l w.1 i f in
    let later : AllPlain (b ∷ bs) evs (some m) = subst (AllPlain (b ∷ bs) evs) same w.2 in
    let still = kept.same (IsUp-now (b ∷ bs) evs m later) in
    let (t, ran, all) = bytes_circulate b bs evs m later kept.sound (omega arith) in
    (t, ap (circuit_run (b ∷ bs) evs) same ∙ ran, all ∙ still)
