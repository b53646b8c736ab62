-- ===== src/Server/Settle.antt =====
-- What an event of a session does to the server that keeps it.
use cxx_server.Common.{
  ℕ, ◌+◌, ◌≡◌, ◌≢◌, refl, ◌∙◌, Bool, false, List, [], ◌∷◌, ◌++◌, Option, none, some, arith, inl,
  inr, Bool-cases, ltb, if◌then◌else◌,
}
use cxx_server.Asio.{Executor}
use cxx_server.Server.Kinds.{Kind, stays, IsLawful}
use cxx_server.Server.{Server, Task, unregister_task, executor, unregister_session}
use cxx_server.Server.Table.{find, erase, replace, IsTable, replace-IsTable, erase-IsTable}
use cxx_server.Server.Table.Entries.{
  All, map-All, both-All, erase-All, replace-All, find-All, erase_others,
}
use cxx_server.Server.System.{settle, visit}
use cxx_server.Server.Sound.{Entry, Sound, Entry-append, waits-enqueued}

module _ {S E : Type 0} (k : Kind S E) (P : S → Type 0) (law : IsLawful k P) where
  -- The session that has run a handler, put back under its id.
  replaced-Sound :
      (j : ℕ) (w : S) (ts : List (Executor × Task)) (a b : ℕ) (s : Server S)
      → Entry k P ts j w
      → All (Entry k P ts) s.sessions
      → Sound k P s
      → Sound k P (record s {
        sessions = replace j w s.sessions;
        posted = ts;
        bytes_sent = a;
        bytes_received = b;
      })
  replaced-Sound j w ts a b s e h i = record {
    empty = i.empty;
    waiting = i.waiting;
    held = replace-All (Entry k P ts) j w s.sessions e h;
    table = replace-IsTable j w s.sessions i.table;
  }

  -- The session that has disconnected leaves the table at once.
  erased-Sound :
      (j : ℕ) (w : S) (a b : ℕ) (s : Server S)
      → Sound k P s
      → Sound k P (record s {
        sessions = erase j (replace j w s.sessions);
        bytes_sent = a;
        bytes_received = b;
      })
  erased-Sound j w a b s i =
      let t : IsTable (replace j w s.sessions) = replace-IsTable j w s.sessions i.table in
      let Q : ℕ → S → Type 0 = λ i u. (i ≢ j → Entry k P s.posted i u) in
      let kept : All Q (replace j w s.sessions) =
        replace-All Q j w s.sessions (λ d. absurd (d refl))
          (map-All (Entry k P s.posted) Q (λ i u e d. e) s.sessions i.held) in
      record {
        empty = i.empty;
        waiting = i.waiting;
        held =
            map-All (λ i u. Q i u × (i ≢ j)) (Entry k P s.posted) (λ i u e. e.0 e.1)
              (erase j (replace j w s.sessions))
              (both-All Q (λ i u. i ≢ j) (erase j (replace j w s.sessions))
                (erase-All Q j (replace j w s.sessions) kept)
                (erase_others j (replace j w s.sessions) t));
        table = erase-IsTable j (replace j w s.sessions) t;
      }

  -- A session that is not connected and does not unregister now was not connected before.
  left :
      (a b : ℕ) (x y : Bool)
      → a + (if x then 1 else 0) ≡ 1
      → b + (if y then 1 else 0) ≡ 1
      → ltb a b ≡ false
      → y ≡ false
      → x ≡ false
  left a b x y p q h off = ground arith

  settle-Sound :
      (inside : Bool) (j : ℕ) (u w : S) (s : Server S)
      → Entry k P s.posted j u
      → P w
      → k.id w ≡ j
      → stays k w ≡ 1
      → Sound k P s
      → Sound k P (settle k inside j u w s)
  unfolding settle unregister_session
  settle-Sound inside j u w s e p q r i = elim (Bool-cases (ltb (k.leaves u) (k.leaves w))) [
    | inl h ↦ (elim (Bool-cases inside) [
      | inl at ↦ rw (h, at, q) (erased-Sound j w (k.bytes_sent w) (k.bytes_received w) s i)
      | inr away ↦
          let ts : List (Executor × Task) = s.posted ++ (executor s, unregister_task j) ∷ [] in
          rw (h, away, q)
            (replaced-Sound j w ts (k.bytes_sent w) (k.bytes_received w) s
              (record {
                kept = p;
                named = q;
                once = r;
                watched = λ _. waits-enqueued j (executor s) s.posted;
              })
              (Entry-append k P s.posted ((executor s, unregister_task j) ∷ []) s.sessions i.held)
              i)
    ])
    | inr h ↦
        let was : k.connected w ≡ false → k.connected u ≡ false =
          left (k.leaves u) (k.leaves w) (k.connected u) (k.connected w) e.once r h in
        rw h (
          replaced-Sound j w s.posted (k.bytes_sent w) (k.bytes_received w) s
            (record { kept = p; named = q; once = r; watched = λ off. e.watched (was off) }) i.held
            i)
  ]

  pub visit-Sound :
      (inside : Bool) (j : ℕ) (ev : E) (o : Option S) (s : Server S)
      → find j s.sessions ≡ o
      → Sound k P s
      → Sound k P (visit k inside j ev o s)
  unfolding visit
  visit-Sound inside j ev none s q i = i
  visit-Sound inside j ev (some u) s q i =
      let e : Entry k P s.posted j u = find-All (Entry k P s.posted) j u s.sessions i.held q in
      let (kept, same, once) = law.stepped ev s.bytes_sent s.bytes_received u e.kept in
      settle-Sound inside j u (k.step ev (k.share s.bytes_sent s.bytes_received u)) s e kept
        (same ∙ e.named) (once ∙ e.once) i
