-- ===== src/Session/SendLimit.antt =====
-- A session without a send limit refuses nothing.
use cxx_server.Common.{ℕ, Bool, true, ◌≡◌, List, arith, length, ◌++◌}
use cxx_server.Session.{Session, Virtuals, err, try_send, swap_buffs, start_send, append}

module _ (v : Virtuals) where
  -- A `send_limit` of 0 is none.
  pub append_unlimited :
      (inside : Bool) (data' : List ℕ) (s : Session)
      → s.send_limit ≡ 0
      → (append v inside data' s).1 ≡ true
  unfolding append
  append_unlimited inside data' s h = ground arith

  try_send_receiving : (s : Session) → (try_send v s).receiving ≡ s.receiving
  unfolding try_send swap_buffs start_send
  try_send_receiving s = ground arith

  pub append_receiving :
      (inside : Bool) (data' : List ℕ) (s : Session)
      → (append v inside data' s).0.receiving ≡ s.receiving
  unfolding append err
  append_receiving inside data' s = ground (
    arith,
    try_send_receiving (record s {
      send_buff_main = s.send_buff_main ++ data';
      bytes_pending = length (s.send_buff_main ++ data');
    }),
  )
