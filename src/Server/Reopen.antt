-- ===== src/Server/Reopen.antt =====
-- A Tcp::Server that starts again before the accept that its stop aborted has completed.
use cxx_server.Common.{◌++◌, refl, ap, ℕ, ◌≡◌, ◌∙◌, true, false, List, [], ◌∷◌, some, arith}
use cxx_server.Asio.{operation_aborted, Executor, executor_for}
use cxx_server.Server.Kinds.{Kind}
use cxx_server.Server.{
  Server, err, executor, accept, accept_handler, prepare, start_handler, disconnect_sessions,
  disconnect_all, stop_handler,
}
use cxx_server.Server.System.{accept_done, end_accept, step}

module _ {S E : Type 0} (k : Kind S E) where
  stop_kept :
      (s : Server S)
      → s.started ≡ true
      → ((stop_handler k s).started ≡ false)
        × ((stop_handler k s).accepts ≡ s.accepts)
        × ((stop_handler k s).strand_needed ≡ s.strand_needed)
  unfolding stop_handler disconnect_all disconnect_sessions
  stop_kept s h = ground arith

  start_accepts :
      (id : ℕ) (s : Server S)
      → s.started ≡ false
      → ((start_handler k id s).started ≡ true)
        × ((start_handler k id s).accepts ≡ s.accepts ++ executor s ∷ [])
        × ((start_handler k id s).strand_needed ≡ s.strand_needed)
  unfolding start_handler prepare accept
  start_accepts id s h = ground arith

  accept_aborted :
      (space id : ℕ) (s : Server S)
      → s.started ≡ true
      → accept_handler k (some operation_aborted) space id s ≡ some (accept k id s)
  unfolding accept_handler err
  accept_aborted space id s h = refl

  accept_accepts :
      (id : ℕ) (s : Server S)
      → s.started ≡ true
      → (accept k id s).accepts ≡ s.accepts ++ executor s ∷ []
  unfolding accept
  accept_accepts id s h = ground arith

  end_aborted :
      (space id : ℕ) (x : Executor) (rest : List Executor) (s : Server S)
      → s.started ≡ true
      → (t : Server S) × (end_accept k (some operation_aborted) space id (x ∷ rest) s ≡ some t)
        × (t.accepts ≡ rest ++ executor s ∷ [])
  unfolding end_accept
  end_aborted space id x rest s h =
      let u : Server S = record s { accepts = rest } in
      (accept k id u, accept_aborted space id u h, accept_accepts id u h)

  -- A started server with one accept outstanding that is stopped and started again before the aborted accept
  -- completes has two accepts outstanding after that completion.
  pub reopen_accepts_twice :
      (space id id' : ℕ) (s : Server S)
      → s.started ≡ true
      → s.accepts ≡ executor s ∷ []
      → (t : Server S) × (step k
            (accept_done (some operation_aborted) space id')
            (start_handler k id (stop_handler k s))
          ≡ some t)
        × (t.accepts ≡ executor s ∷ executor s ∷ [])
  unfolding step
  reopen_accepts_twice space id id' s h q =
      let u : Server S = start_handler k id (stop_handler k s) in
      let (off, kept, strand) = stop_kept s h in
      let (on, more, same) = start_accepts id (stop_handler k s) off in
      let serial : executor u ≡ executor s = ap executor_for (same ∙ strand) in
      let both : u.accepts ≡ executor s ∷ executor s ∷ [] = more ∙ ground (arith) in
      let (t, e, two) = end_aborted space id' (executor s) (executor s ∷ []) u on in
      (
        t,
        ap (λ xs. end_accept k (some operation_aborted) space id' xs u) both ∙ e,
        two ∙ ap (λ x. executor s ∷ x ∷ []) serial,
      )
