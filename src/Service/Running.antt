-- ===== src/Service/Running.antt =====
-- Starting, stopping and restarting a Service whose threads run the handlers that are posted.
use cxx_server.Common.{
  ℕ, suc, ◌≡◌, refl, Bool, true, false, List, [], ◌∷◌, some, arith, map, length, if_rule,
  if◌then◌else◌,
}
use cxx_server.Asio.{ErrorCode}
use cxx_server.Service.{
  Service, start, stop, restart, restart_from, renew, begin, on_started, on_stopped, spin, finished,
  serve, start_handler, stop_handler, perform, run_posted,
}

-- What the pool does: it runs the oldest handler.
pub work : Service → Service
work s = run_posted s.posted s

-- The service that `start` leaves once the pool has run its handler.
abbrev pub begun : Bool → Service → Service
begun polling s = record s {
  polling = polling;
  rr_idx = 0;
  serving = serve s.threads 0 (length s.services);
  started = true;
  posted = [];
  calls = on_started ∷ s.calls;
}

-- And that `stop` leaves.
abbrev pub ended : Service → Service
ended s = record s {
  polling = false;
  serving = [];
  started = false;
  posted = [];
  services = map (λ stopped. true) s.services;
  calls = on_stopped ∷ s.calls;
}

renew_kept : (s : Service) → ((renew (ended s)).started ≡ false) × ((renew (ended s)).posted ≡ [])
unfolding renew
renew_kept s = (refl, refl)

-- `start` of a service that is not started, and for which nothing is posted, returns true after one round
-- of its loop in which the pool runs the posted handler; each thread serves an io service then.
pub start-begun :
    (fuel : ℕ) (polling : Bool) (s : Service)
    → s.started ≡ false
    → s.posted ≡ []
    → start (suc (suc fuel)) work polling s ≡ some (begun polling s, true)
unfolding start begin spin finished work run_posted perform start_handler
start-begun fuel polling s h q = ground arith

-- `stop` of a started service with nothing posted returns true; every io service is stopped, and no thread
-- is left.
pub stop-ended :
    (fuel : ℕ) (s : Service)
    → s.started ≡ true
    → s.posted ≡ []
    → stop (suc fuel) work work s ≡ some (ended s, true)
unfolding stop spin finished work run_posted perform stop_handler
stop-ended fuel s h q = ground arith

-- `restart` of a started service with nothing posted, whose pool runs the handlers posted, returns true
-- within two rounds of each loop, with new io services, in the same mode.
pub restart-begun :
    (fuel : ℕ) (s : Service)
    → s.started ≡ true
    → s.posted ≡ []
    → restart (suc (suc fuel)) work work s ≡ some (begun s.polling (renew (ended s)), true)
unfolding restart restart_from
restart-begun fuel s h q =
    rw (stop-ended (suc fuel) s h q)
      (start-begun fuel s.polling (renew (ended s)) (renew_kept s).0 (renew_kept s).1)

-- How asio's `poll` or `run` ends, for a thread of the pool.
pub data Outcome : Type 0 where
  returns : Outcome
  throws : ErrorCode → Outcome
  throws_other : Outcome

pub data ThreadCall : Type 0 where
  on_thread_init on_idle on_thread_cleanup die : ThreadCall
  on_err : ErrorCode → ThreadCall

-- `err.code() == asio::error::not_connected`.
pub is_not_connected : ErrorCode → Bool
is_not_connected ErrorCode.not_connected = true
is_not_connected _ = false

-- `serviceThread` after `onThreadInit`: each round has its outcome, and what `isStarted()` says after it.
-- A thread whose rounds are used up is still in the loop.
pub rounds : Bool → List (Outcome × Bool) → List ThreadCall
rounds polling [] = []
rounds polling ((Outcome.returns, started) ∷ rest) =
    let later = rounds polling rest in
    if polling
    then ThreadCall.on_idle ∷ (if started then later else ThreadCall.on_thread_cleanup ∷ [])
    else ThreadCall.on_thread_cleanup ∷ []
rounds polling ((Outcome.throws e, started) ∷ rest) =
    let later = rounds polling rest in
    if is_not_connected e
    then (if started then later else ThreadCall.on_thread_cleanup ∷ [])
    else ThreadCall.on_err e ∷ ThreadCall.on_thread_cleanup ∷ []
rounds polling ((Outcome.throws_other, started) ∷ rest) = ThreadCall.die ∷ []

pub service_thread : Bool → List (Outcome × Bool) → List ThreadCall
service_thread polling rs = ThreadCall.on_thread_init ∷ rounds polling rs

-- The end of a thread: it idles, and then cleans up as its last act, after the report of at most one error;
-- or it dies, or it is still in its loop.
pub Ends : List ThreadCall → Type 0
Ends [] = Unit
Ends (ThreadCall.on_thread_init ∷ cs) = ⊥
Ends (ThreadCall.on_idle ∷ cs) = Ends cs
Ends (ThreadCall.on_thread_cleanup ∷ cs) = cs ≡ []
Ends (ThreadCall.on_err e ∷ cs) =
    (is_not_connected e ≡ false) × (cs ≡ ThreadCall.on_thread_cleanup ∷ [])
Ends (ThreadCall.die ∷ cs) = cs ≡ []

rounds-Ends : (polling : Bool) (rs : List (Outcome × Bool)) → Ends (rounds polling rs)
unfolding rounds Ends
rounds-Ends polling [] = tt
rounds-Ends polling ((Outcome.returns, started) ∷ rest) =
    if_rule Ends polling _ _
      (λ p. if_rule Ends started _ _ (λ on. rounds-Ends polling rest) (λ off. refl)) (λ p. refl)
rounds-Ends polling ((Outcome.throws e, started) ∷ rest) =
    if_rule Ends (is_not_connected e) _ _
      (λ n. if_rule Ends started _ _ (λ on. rounds-Ends polling rest) (λ off. refl))
      (λ n. (n, refl))
rounds-Ends polling ((Outcome.throws_other, started) ∷ rest) = refl

-- Whatever asio does, a thread initialises first, cleans up at most once and last, and reports at most one
-- error, never `not_connected`, directly before.
pub service_thread-Ends :
    (polling : Bool) (rs : List (Outcome × Bool))
    → (cs : List ThreadCall) × (service_thread polling rs ≡ ThreadCall.on_thread_init ∷ cs)
      × Ends cs
unfolding service_thread
service_thread-Ends polling rs = (rounds polling rs, refl, rounds-Ends polling rs)
