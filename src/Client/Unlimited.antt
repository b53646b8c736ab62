-- ===== src/Client/Unlimited.antt =====
-- `sendAsync` of a ready Tcp::Client without a limit takes all bytes.
use cxx_server.Common.{ℕ, ◌≡◌, List, ◌∷◌, ◌++◌, arith, Bool, true}
use cxx_server.Asio.{bytes, no_buffer_space}
use cxx_server.Client.{Client, Virtuals, append, send_async, err, try_send, swap_buffs, start_send}
use cxx_server.Client.Cases.{append_cases, filled}
use cxx_server.Client.Stream.{unsent, unsent-append}

-- A client that is ready and refuses nothing.
pub record IsOpen (v : Virtuals) (s : Client) : Type 0 where
  pub on : v.ready s.connected ≡ true
  pub unlimited : s.send_buff_limit ≡ 0

try_send-IsOpen : (v : Virtuals) (s : Client) → IsOpen v s → IsOpen v (try_send v s)
unfolding try_send swap_buffs start_send
try_send-IsOpen v s o = ground arith

err-IsOpen : (v : Virtuals) (s : Client) → IsOpen v s → IsOpen v (err v no_buffer_space s)
unfolding err
err-IsOpen v s o = ground arith

append-IsOpen :
    (v : Virtuals) (inside : Bool) (data' : List ℕ) (s : Client)
    → IsOpen v s
    → IsOpen v (append v inside data' s).0
append-IsOpen v inside data' s o =
    append_cases (IsOpen v) v inside data' s (err-IsOpen v s o)
      (try_send-IsOpen v (filled data' s) (ground arith)) (ground arith) (λ h. ground arith)

append_open :
    (v : Virtuals) (inside : Bool) (data' : List ℕ) (s : Client)
    → IsOpen v s
    → (append v inside data' s).1 ≡ true
unfolding append
append_open v inside data' s o = ground arith

pub send_async-IsOpen :
    (v : Virtuals) (inside : Bool) (b : ℕ) (bs : List ℕ) (s : Client)
    → IsOpen v s
    → IsOpen v (send_async v inside (bytes (b ∷ bs)) s).0
unfolding send_async
send_async-IsOpen v inside b bs s o = ground (arith, append-IsOpen v inside (b ∷ bs) s o)

pub unsent-send_async :
    (v : Virtuals) (inside : Bool) (b : ℕ) (bs : List ℕ) (s : Client)
    → IsOpen v s
    → unsent (send_async v inside (bytes (b ∷ bs)) s).0 ≡ unsent s ++ (b ∷ bs)
unfolding send_async
unsent-send_async v inside b bs s o =
    ground (arith, unsent-append v inside (b ∷ bs) s, append_open v inside (b ∷ bs) s o)
