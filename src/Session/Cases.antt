-- ===== src/Session/Cases.antt =====
-- The outcomes of the operations of Tcp::Session that decide by several tests, as rules for proofs.
use cxx_server.Common.{ℕ, ◌≡◌, Bool, false, List, ◌++◌, ◌||◌, arith, is_empty, length}
use cxx_server.Asio.{no_buffer_space}
use cxx_server.Session.{Session, Virtuals, send_task, enqueue, try_send, append, err}

-- The session with the bytes appended.
abbrev pub filled : List ℕ → Session → Session
filled data' s = record s {
  send_buff_main = s.send_buff_main ++ data';
  bytes_pending = length (s.send_buff_main ++ data');
}

pub append_cases {ℓ} :
    (P : Session → Type ℓ) (v : Virtuals) (inside : Bool) (data' : List ℕ) (s : Session)
    → P (err v no_buffer_space s)
    → P (try_send v (filled data' s))
    → P (enqueue send_task (filled data' s))
    → ((is_empty s.send_buff_main || is_empty s.send_buff_flush) ≡ false → P (filled data' s))
    → P (append v inside data' s).0
unfolding append
append_cases P v inside data' s refused sent queued kept = ground arith
