-- ===== src/Client/Cases.antt =====
-- The outcomes of the operations of Tcp::Client that decide by several tests, as rules for proofs.
use cxx_server.Common.{
  ℕ, ◌<◌, ◌≡◌, Bool, true, false, List, ◌++◌, ◌||◌, arith, is_empty, length, none,
}
use cxx_server.Asio.{no_buffer_space}
use cxx_server.Client.{Client, Virtuals, tcp, send_task, enqueue, try_send, append, err}
use cxx_server.Client.Handlers.{finish_send, sent, send_handler}

-- The client with the bytes appended.
abbrev pub filled : List ℕ → Client → Client
filled data' s = record s {
  send_buff_main = s.send_buff_main ++ data';
  bytes_pending = length (s.send_buff_main ++ data');
}

pub append_cases {ℓ} :
    (P : Client → Type ℓ) (v : Virtuals) (inside : Bool) (data' : List ℕ) (s : Client)
    → P (err v no_buffer_space s)
    → P (try_send v (filled data' s))
    → P (enqueue send_task (filled data' s))
    → ((is_empty s.send_buff_main || is_empty s.send_buff_flush) ≡ false → P (filled data' s))
    → P (append v inside data' s).0
unfolding append
append_cases P v inside data' s refused sent queued kept = ground arith

-- A write that ends without an error and with some bytes written, while the client is connected.
pub send_handler_written :
    (n : ℕ) (s : Client)
    → 0 < n
    → s.connected ≡ true
    → send_handler tcp none n s ≡ try_send tcp (sent n (record s { sending = false }))
unfolding send_handler finish_send
send_handler_written n s p c = ground arith
