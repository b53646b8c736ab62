-- ===== src/Server/Restart.antt =====
-- `Server::restart` waits for the server to be started, where it has just asked it to stop.
use cxx_server.Common.{◌≡◌, refl, true, false, none, some, arith, List, [], ◌∷◌}
use cxx_server.Server.{Server, Task, restart, spin, start, stop, enqueue, stop_handler}
use cxx_server.Server.Kinds.{Kind}

-- What starts no server that is stopped.
abbrev pub StartsNone : {S : Type 0} → List (Server S → Server S) → Type 0
StartsNone [] = Unit
StartsNone {S} (p ∷ ps) =
    ((u : Server S) → u.started ≡ false → (p u).started ≡ false) × StartsNone ps

module _ {S : Type 0} where
  -- The loop does not end in a server that is stopped and that nothing starts.
  spin_waits :
      (ps : List (Server S → Server S)) (s : Server S)
      → s.started ≡ false
      → StartsNone ps
      → spin ps s ≡ none
  unfolding spin
  spin_waits [] s h k = refl
  spin_waits (p ∷ ps) s h k = let still = k.0 s h in ground (arith, spin_waits ps (p s) still k.1)

module _ {S E : Type 0} where
  stop_handler_stops : (k : Kind S E) (s : Server S) → (stop_handler k s).started ≡ false
  unfolding stop_handler
  stop_handler_stops k s = ground arith

  -- The restart of a started server, by where the handler of its stop runs, when nothing else starts or stops the
  -- server (`p` are other actions of other threads): before the first test of the loop, it does not return, however
  -- many tests it makes; between the loop and `start`, it returns true, with a start posted; and later, it returns
  -- false, with no start posted.
  pub restart_races :
      (k : Kind S E) (p q : Server S → Server S) (ps : List (Server S → Server S)) (s : Server S)
      → ((u : Server S) → (p u).started ≡ u.started)
      → StartsNone ps
      → s.started ≡ true
      → let t = (stop s).0 in
        (restart ((λ u. stop_handler k (p u)) ∷ ps) q s ≡ none)
        × (restart (p ∷ ps) (stop_handler k) s
            ≡ some (enqueue Task.start_task (stop_handler k (p t)), true))
        × (restart (p ∷ ps) p s ≡ some (p (p t), false))
  unfolding restart spin start stop
  restart_races k p q ps s keeps none' on =
      let t = enqueue Task.stop_task s in
      let off = stop_handler_stops k (p t) in
      let waits = spin_waits ps (stop_handler k (p t)) off none' in
      let first = keeps t in let second = keeps (p t) in (ground arith, ground arith, ground arith)
