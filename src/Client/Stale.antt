-- ===== src/Client/Stale.antt =====
-- A completion of an old connection that runs when Tcp::Client has a new one.
use cxx_server.Common.{ℕ, ◌≡◌, ◌∙◌, true, false, List, [], ◌∷◌, none, some, arith}
use cxx_server.Asio.{Executor, operation_aborted}
use cxx_server.Client.{Client, tcp, err, disconnect, disconnect_async, clear_buffs}
use cxx_server.Client.Handlers.{
  set_up, tell_empty, connect, reconnect, finish_receive, receive_handler,
}
use cxx_server.Client.System.{read_done, end_read, step}

-- The connection that is set up after a disconnect keeps the reads.
reconnect_made :
    (space : ℕ) (s : Client)
    → s.connected ≡ true
    → ((reconnect tcp none space s).1 ≡ true)
      × ((reconnect tcp none space s).0.connected ≡ true)
      × ((reconnect tcp none space s).0.connecting ≡ false)
      × ((reconnect tcp none space s).0.reads ≡ s.reads)
unfolding reconnect disconnect clear_buffs connect set_up tell_empty
reconnect_made space s h = ground arith

aborted_disconnects :
    (x : Executor) (n : ℕ) (rest : List (Executor × ℕ)) (s : Client)
    → s.connecting ≡ false
    → (end_read tcp (some operation_aborted) [] ((x, n) ∷ rest) s).connected ≡ false
unfolding end_read receive_handler finish_receive err disconnect_async disconnect clear_buffs
aborted_disconnects x n rest s k = ground arith

-- The reconnect of a connected client with a read outstanding, if the socket connects, returns true with the
-- client connected; and when the old read then completes, aborted, its handler disconnects the new connection.
pub reconnect_undone :
    (space n : ℕ) (x : Executor) (rest : List (Executor × ℕ)) (s : Client)
    → s.connected ≡ true
    → s.reads ≡ (x, n) ∷ rest
    → ((reconnect tcp none space s).1 ≡ true)
      × ((reconnect tcp none space s).0.connected ≡ true)
      × ((step tcp (read_done (some operation_aborted) []) (reconnect tcp none space s).0).connected
          ≡ false)
unfolding step
reconnect_undone space n x rest s h q =
    let (done, on, settled, kept) = reconnect_made space s h in
    (done, on, rw (kept ∙ q) (aborted_disconnects x n rest (reconnect tcp none space s).0 settled))
