-- ===== src/Server/Sound.antt =====
-- What holds of the sessions that a Tcp::Server keeps: they are under their own ids, and each that has
-- disconnected is about to be unregistered.
use cxx_server.Common.{
  ℕ, ◌≡◌, refl, sym, subst, ◌∙◌, Bool, true, false, ◌||◌, List, [], ◌∷◌, ◌++◌, Option, none, some,
  arith, if_rule, ◌==◌,
}
use cxx_server.Asio.{Executor, Buffer}
use cxx_server.Server.Kinds.{Kind, stays, IsLawful}
use cxx_server.Server.{
  Server, new_server, Task, start_task, stop_task, disconnect_all_task, unregister_task, enqueue,
  executor, disconnect_sessions,
}
use cxx_server.Server.Table.{IsTable, each-IsTable}
use cxx_server.Server.Table.Entries.{All, each-All, map-All}

-- An `unregisterSession` of that id waits in the server's executor.
abbrev pub waits : ℕ → List (Executor × Task) → Bool
waits j [] = false
waits j ((x, unregister_task i) ∷ rest) = i == j || waits j rest
waits j ((x, start_task) ∷ rest) = waits j rest
waits j ((x, stop_task) ∷ rest) = waits j rest
waits j ((x, disconnect_all_task) ∷ rest) = waits j rest

pub waits-append :
    (j : ℕ) (ts us : List (Executor × Task)) → waits j ts ≡ true → waits j (ts ++ us) ≡ true
waits-append j [] us h = absurd (ground arith)
waits-append j ((x, unregister_task i) ∷ rest) us h = ground (arith, waits-append j rest us)
waits-append j ((x, start_task) ∷ rest) us h = waits-append j rest us h
waits-append j ((x, stop_task) ∷ rest) us h = waits-append j rest us h
waits-append j ((x, disconnect_all_task) ∷ rest) us h = waits-append j rest us h

pub waits-enqueued :
    (j : ℕ) (x : Executor) (ts : List (Executor × Task))
    → waits j (ts ++ (x, unregister_task j) ∷ []) ≡ true
waits-enqueued j x [] = ground arith
waits-enqueued j x ((y, unregister_task i) ∷ rest) = ground (arith, waits-enqueued j x rest)
waits-enqueued j x ((y, start_task) ∷ rest) = waits-enqueued j x rest
waits-enqueued j x ((y, stop_task) ∷ rest) = waits-enqueued j x rest
waits-enqueued j x ((y, disconnect_all_task) ∷ rest) = waits-enqueued j x rest

module _ {S E : Type 0} (k : Kind S E) (P : S → Type 0) where
  -- A session in the table, with the handlers posted to the server.
  pub record Entry (ts : List (Executor × Task)) (j : ℕ) (u : S) : Type 0 where
    pub kept : P u
    pub named : k.id u ≡ j
    pub once : stays k u ≡ 1
    pub watched : k.connected u ≡ false → waits j ts ≡ true

  pub record Sound (s : Server S) : Type 0 where
    pub empty : s.started ≡ false → s.session ≡ none
    pub waiting :
        s.started ≡ true
        → (id : ℕ) × (a : ℕ) × (b : ℕ) × (s.session ≡ some (k.make id s.strand_needed a b))
    pub held : All (Entry s.posted) s.sessions
    pub table : IsTable s.sessions

  -- The server is sound, unless the run has ended at an empty pointer.
  unfoldable pub Holds : Option (Server S) → Type 0
  Holds none = Unit
  Holds (some s) = Sound s

  -- A server that has just been made.
  pub new_server-Sound :
      (strand_needed : Bool) (addr : List ℕ) (port : ℕ) → Sound (new_server strand_needed addr port)
  unfolding new_server
  new_server-Sound strand_needed addr port = record {
    empty = λ off. refl;
    waiting = λ on. absurd (ground arith);
    held = tt;
    table = tt;
  }

  pub Entry-posted :
      (ts us : List (Executor × Task)) (j : ℕ) (u : S)
      → (waits j ts ≡ true → waits j us ≡ true)
      → Entry ts j u
      → Entry us j u
  Entry-posted ts us j u f e = record {
    kept = e.kept;
    named = e.named;
    once = e.once;
    watched = λ off. f (e.watched off);
  }

  -- Handlers that are posted leave the entries.
  pub Entry-append :
      (ts us : List (Executor × Task)) (t : List (ℕ × S))
      → All (Entry ts) t
      → All (Entry (ts ++ us)) t
  Entry-append ts us t =
      map-All (Entry ts) (Entry (ts ++ us))
        (λ j u. Entry-posted ts (ts ++ us) j u (waits-append j ts us)) t

  pub enqueue-Sound : (t : Task) (s : Server S) → Sound s → Sound (enqueue t s)
  enqueue-Sound t s i = record {
    empty = i.empty;
    waiting = i.waiting;
    held = Entry-append s.posted ((executor s, t) ∷ []) s.sessions i.held;
    table = i.table;
  }

  -- The first task has left, which is not that of an unregistering, or whose session has left the table.
  pub taken-Sound :
      (x : Executor) (t : Task) (rest : List (Executor × Task)) (s : Server S)
      → s.posted ≡ (x, t) ∷ rest
      → ((j : ℕ) → waits j ((x, t) ∷ rest) ≡ true → waits j rest ≡ true)
      → Sound s
      → Sound (record s { posted = rest })
  taken-Sound x t rest s q f i = record {
    empty = i.empty;
    waiting = i.waiting;
    held =
        map-All (Entry s.posted) (Entry rest)
          (λ j u. Entry-posted s.posted rest j u (λ h. f j (subst (λ us. waits j us ≡ true) q h)))
          s.sessions i.held;
    table = i.table;
  }

  module _ (law : IsLawful k P) where
    pub disconnected-Entry :
        (ts : List (Executor × Task)) (j : ℕ) (u : S) → Entry ts j u → Entry ts j (k.disconnect u)
    disconnected-Entry ts j u e =
        let (kept, same, once, on) = law.disconnected u e.kept in
        record {
          kept = kept;
          named = same ∙ e.named;
          once = once ∙ e.once;
          watched = λ off. e.watched (sym on ∙ off);
        }

    pub sent-Entry :
        (ts : List (Executor × Task)) (inside : ℕ → Bool) (buffer : Buffer) (j : ℕ) (u : S)
        → k.fits buffer u ≡ true
        → Entry ts j u
        → Entry ts j (k.send_async (inside (k.id u)) buffer u)
    sent-Entry ts inside buffer j u f e =
        let (kept, same, once, on) = law.sent (inside (k.id u)) buffer u f e.kept in
        record {
          kept = kept;
          named = same ∙ e.named;
          once = once ∙ e.once;
          watched = λ off. e.watched (sym on ∙ off);
        }

    pub made-Entry :
        (ts : List (Executor × Task)) (id : ℕ) (needed : Bool) (a b : ℕ) (alive delay : Bool)
        (space : ℕ)
        → Entry ts id (k.connect alive delay space (k.make id needed a b))
    made-Entry ts id needed a b alive delay space =
        let (kept, same, once, on, own) = law.made id needed a b alive delay space in
        record {
          kept = kept;
          named = same;
          once = once;
          watched = λ off. absurd (ground (arith, on));
        }

    pub disconnect_sessions-Sound : (s : Server S) → Sound s → Sound (disconnect_sessions k s)
    unfolding disconnect_sessions
    disconnect_sessions-Sound s i =
        if_rule Sound s.started _ _
          (λ on. record {
            empty = i.empty;
            waiting = i.waiting;
            held =
                each-All (Entry s.posted) (Entry s.posted) k.disconnect
                  (disconnected-Entry s.posted) s.sessions i.held;
            table = each-IsTable k.disconnect s.sessions i.table;
          })
          (λ off. i)
