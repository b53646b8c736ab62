-- ===== src/Echo/Benchmark.antt =====
-- The benchmark from its start: an echo client connects to a session that an echo server has just accepted.
use cxx_server.Common.{
  ℕ, ◌*◌, ◌<◌, ◌≡◌, refl, sym, ap, ◌∙◌, subst, Bool, List, [], ◌∷◌, none, some, arith, length, word,
}
use mathlib.Core.Option as Option
use cxx_server.Client as TcpClient
use cxx_server.Client.System.{Event, call_connect_async, run_posted, connect_done}
use cxx_server.Session.{Session, tcp, new, try_receive}
use cxx_server.Session.Handlers.{connect, connect_stream, tell_empty}
use cxx_server.Session.Preserve.{connect-Inv}
use cxx_server.Session.Stream.{unsent}
use cxx_server.Echo.Client.{EchoClient, new_echo_client}
use cxx_server.Echo.Traffic.{echo_client_run}
use cxx_server.Echo.Link.{LinkEvent}
use cxx_server.Echo.Answers.{held}
use cxx_server.Echo.Balance as Balance
use cxx_server.Echo.Begun.{connected_client}
use cxx_server.Echo.Circuit.{Circuit, circuit_run, AllPlain, in_circuit, Sound}
use cxx_server.Echo.Circulation.{bytes_circulate}

-- `connectAsync`, to a socket that connects.
abbrev pub connecting : ℕ → List Event
connecting space = call_connect_async ∷ run_posted ∷ connect_done none space ∷ []

-- Nothing is in flight yet.
abbrev pub meet : EchoClient → Session → Circuit
meet c s = record { client = c; session = s; up = []; down = [] }

-- A session that has just connected has no limit and holds nothing to be sent.
new_session_empty :
    (id : ℕ) (needed alive delay : Bool) (sent received space : ℕ)
    → let s = connect tcp alive delay space (new id needed sent received) in
      (s.send_limit ≡ 0) × (length (unsent s) ≡ 0)
unfolding connect connect_stream tell_empty new try_receive
new_session_empty id needed alive delay sent received space = (refl, refl)

-- For a message that is not empty, and if twice the messages are less than a word of bytes: when a new echo client
-- without a send limit has connected asynchronously, to a new echo session that has connected, then over every
-- sequence of events at both ends during which both stay connected, the client's writes that end well are complete,
-- it begins no new connection and only the two `onReceive`s send, each `onReceive` ends, and at the end twice as many
-- bytes as the client's number of messages has are in the circuit.
pub benchmark_circulates :
    (messages b : ℕ) (bs : List ℕ) (id port space : ℕ) (addr : List ℕ)
    (needed far_needed alive delay : Bool) (far_id sent received far_space : ℕ)
    (evs : List LinkEvent) (c : EchoClient)
    → let far = connect tcp alive delay far_space (new far_id far_needed sent received) in
      2 * (messages * length (b ∷ bs)) < word
      → echo_client_run TcpClient.tcp
          (b ∷ bs)
          (connecting space)
          (some (new_echo_client id needed addr port messages))
        ≡ some c
      → AllPlain (b ∷ bs) evs (some (meet c far))
      → (l : Circuit) × (circuit_run (b ∷ bs) evs (some (meet c far)) ≡ some l)
        × (in_circuit l ≡ 2 * (messages * length (b ∷ bs)))
benchmark_circulates messages b bs id port space addr needed far_needed alive delay far_id sent
      received far_space evs c w ran plain =
    let (t, same, sound, full) = connected_client id needed addr port messages b bs space w in
    let it : t ≡ c = Option.some-injective t c (sym same ∙ ran) in
    let far = connect tcp alive delay far_space (new far_id far_needed sent received) in
    let ready : Sound (meet c far) = record {
      client_sound = subst Balance.Sound it sound;
      session_kept = connect-Inv tcp refl far_id far_needed sent received alive delay far_space;
      unlimited = (new_session_empty far_id far_needed alive delay sent received far_space).0;
    } in
    let nothing = (new_session_empty far_id far_needed alive delay sent received far_space).1 in
    let held_now : held c ≡ 2 * (messages * length (b ∷ bs)) = ap held (sym it) ∙ full in
    let filled : in_circuit (meet c far) ≡ 2 * (messages * length (b ∷ bs)) = omega arith in
    let (l, went, all) = bytes_circulate b bs evs (meet c far) plain ready (omega arith) in
    (l, went, all ∙ filled)
