-- ===== src/Server/Preserve.antt =====
-- Every event of Tcp::Server keeps what holds of its sessions.
use cxx_server.Common.{
  ℕ, ◌≡◌, ◌≢◌, refl, sym, subst, Bool, true, false, List, [], ◌∷◌, none, some, arith, inl, inr,
  Bool-cases, if_rule,
}
use cxx_server.Asio.{Executor}
use cxx_server.Server.Kinds.{Kind, IsLawful}
use cxx_server.Server.{
  Server, Task, start_task, stop_task, disconnect_all_task, unregister_task, accept, start_handler,
  prepare, stop_handler, disconnect_sessions, disconnect_all, unregister_session,
}
use cxx_server.Server.Table.{erase, each, IsTable, erase-IsTable, each-IsTable}
use cxx_server.Server.Table.Entries.{All, each-All, map-All, both-All, erase-All, erase_others}
use cxx_server.Server.System.{perform, run_first}
use cxx_server.Server.Sound.{
  waits, Entry, Sound, Entry-posted, enqueue-Sound, taken-Sound, disconnected-Entry,
  disconnect_sessions-Sound,
}

module _ {S E : Type 0} (k : Kind S E) where
  pub stop_made :
      (s : Server S)
      → s.started ≡ true
      → ((stop_handler k s).started ≡ false)
        × ((stop_handler k s).session ≡ none)
        × ((stop_handler k s).sessions ≡ each k.disconnect s.sessions)
        × ((stop_handler k s).posted ≡ s.posted)
  unfolding stop_handler disconnect_all disconnect_sessions
  stop_made s h = ground arith

  pub stop_ignored : (s : Server S) → s.started ≡ false → stop_handler k s ≡ s
  unfolding stop_handler
  stop_ignored s h = rw h refl

module _ {S E : Type 0} (k : Kind S E) (P : S → Type 0) (law : IsLawful k P) where
  -- A server by its fields.
  assemble :
      (t : Server S) (ps : List (Executor × Task)) (us : List (ℕ × S))
      → t.posted ≡ ps
      → t.sessions ≡ us
      → (t.started ≡ false → t.session ≡ none)
      → (t.started ≡ true
          → (id : ℕ) × (a : ℕ) × (b : ℕ) × (t.session ≡ some (k.make id t.strand_needed a b)))
      → All (Entry k P ps) us
      → IsTable us
      → Sound k P t
  assemble t ps us q r e w h i = record {
    empty = e;
    waiting = w;
    held =
        subst (λ xs. All (Entry k P xs) t.sessions) (sym q)
          (subst (λ xs. All (Entry k P ps) xs) (sym r) h);
    table = subst IsTable (sym r) i;
  }

  pub accept-Sound :
      (id : ℕ) (s : Server S)
      → (s.started ≡ false → s.session ≡ none)
      → All (Entry k P s.posted) s.sessions
      → IsTable s.sessions
      → Sound k P (accept k id s)
  unfolding accept
  accept-Sound id s e h i =
      if_rule (Sound k P) s.started _ _
        (λ on. record {
          empty = λ off. absurd (ground arith);
          waiting = λ _. (id, s.bytes_sent, s.bytes_received, refl);
          held = h;
          table = i;
        })
        (λ off. record { empty = e; waiting = λ on. absurd (ground arith); held = h; table = i })

  prepare_kept :
      (s : Server S) → ((prepare s).sessions ≡ s.sessions) × ((prepare s).posted ≡ s.posted)
  unfolding prepare
  prepare_kept s = ground arith

  start_handler-Sound : (id : ℕ) (s : Server S) → Sound k P s → Sound k P (start_handler k id s)
  unfolding start_handler
  start_handler-Sound id s i =
      let (same, posted) = prepare_kept s in
      if_rule (Sound k P) s.started _ _ (λ on. i)
        (λ off.
          accept-Sound id _ (λ e. absurd (ground arith))
            (subst (λ xs. All (Entry k P xs) (prepare s).sessions) (sym posted)
              (subst (λ xs. All (Entry k P s.posted) xs) (sym same) i.held))
            (subst IsTable (sym same) i.table))

  stop_handler-Sound : (s : Server S) → Sound k P s → Sound k P (stop_handler k s)
  stop_handler-Sound s i = elim (Bool-cases s.started) [
    | inl on ↦
        let (off, none', same, posted) = stop_made k s on in
        assemble (stop_handler k s) s.posted (each k.disconnect s.sessions) posted same (λ _. none')
          (λ e. absurd (ground arith))
          (each-All (Entry k P s.posted) (Entry k P s.posted) k.disconnect
            (disconnected-Entry k P law s.posted) s.sessions i.held)
          (each-IsTable k.disconnect s.sessions i.table)
    | inr off ↦ subst (Sound k P) (sym (stop_ignored k s off)) i
  ]

  pub disconnect_all-Sound :
      (inside : Bool) (s : Server S) → Sound k P s → Sound k P (disconnect_all k inside s).0
  unfolding disconnect_all
  disconnect_all-Sound inside s i =
      if_rule (λ (r : Server S × Bool). Sound k P r.0) s.started _ _
        (λ on.
          if_rule (Sound k P) inside _ _ (λ at. disconnect_sessions-Sound k P law s i)
            (λ away. enqueue-Sound k P disconnect_all_task s i))
        (λ off. i)

  -- An unregistering that has left the executor takes its session from the table.
  unregister-Sound :
      (x : Executor) (j : ℕ) (rest : List (Executor × Task)) (s : Server S)
      → s.posted ≡ (x, unregister_task j) ∷ rest
      → Sound k P s
      → Sound k P (unregister_session j (record s { posted = rest }))
  unfolding unregister_session
  unregister-Sound x j rest s q i = record {
    empty = i.empty;
    waiting = i.waiting;
    held =
        map-All (λ i u. Entry k P s.posted i u × (i ≢ j)) (Entry k P rest)
          (λ i u e.
            Entry-posted k P s.posted rest i u
              (λ h. other i e.1 (subst (λ us. waits i us ≡ true) q h)) e.0)
          (erase j s.sessions)
          (both-All (Entry k P s.posted) (λ i u. i ≢ j) (erase j s.sessions)
            (erase-All (Entry k P s.posted) j s.sessions i.held)
            (erase_others j s.sessions i.table));
    table = erase-IsTable j s.sessions i.table;
  }
    where
      other : (i : ℕ) → i ≢ j → waits i ((x, unregister_task j) ∷ rest) ≡ true → waits i rest ≡ true
      other i d h = ground arith

  pub run_first-Sound :
      (id : ℕ) (ts : List (Executor × Task)) (s : Server S)
      → s.posted ≡ ts
      → Sound k P s
      → Sound k P (run_first k id ts s)
  unfolding run_first perform
  run_first-Sound id [] s q i = i
  run_first-Sound id ((x, start_task) ∷ rest) s q i =
      start_handler-Sound id _ (taken-Sound k P x start_task rest s q (λ j h. h) i)
  run_first-Sound id ((x, stop_task) ∷ rest) s q i =
      stop_handler-Sound _ (taken-Sound k P x stop_task rest s q (λ j h. h) i)
  run_first-Sound id ((x, disconnect_all_task) ∷ rest) s q i =
      disconnect_sessions-Sound k P law _
        (taken-Sound k P x disconnect_all_task rest s q (λ j h. h) i)
  run_first-Sound id ((x, unregister_task j) ∷ rest) s q i = unregister-Sound x j rest s q i
