-- ===== src/Service.antt =====
-- `Service` of include/core/service.hxx and source/core/service.cxx: a pool of threads over asio's io
-- services, which hands them out in turn.
pub mod Rotation
pub mod Running
mod Examples
use cxx_server.Common.{
  ℕ, zero, suc, Bool, true, false, not, List, [], ◌∷◌, ◌++◌, map, Option, none, some, ◌==◌,
  if◌then◌else◌, ◌%◌, add64, length, replicate,
}
use cxx_server.Asio.{ErrorCode, Executor, executor_for}

pub data Task : Type 0 where
  start_task stop_task : Task

pub data Call : Type 0 where
  on_started on_stopped : Call

-- The fields of the class: of each io service whether it is stopped, of the threads their number, and for
-- each that runs the io service that it serves. `strand` is whether the pointer is set.
pub record Service : Type 0 where
  pub services : List Bool
  pub threads : ℕ
  pub serving : List ℕ
  pub strand : Bool
  pub strand_needed : Bool
  pub polling : Bool
  pub started : Bool
  pub rr_idx : ℕ
  pub posted : List (Executor × Task)
  pub calls : List Call

abbrev blank : Service
blank = record {
  services = [];
  threads = 0;
  serving = [];
  strand = false;
  strand_needed = false;
  polling = false;
  started = false;
  rr_idx = 0;
  posted = [];
  calls = [];
}

-- The constructor from a number of threads: `own_io` makes all of them share one io service.
pub new : ℕ → Bool → Service
new zero own_io = record blank { services = false ∷ [] }
new (suc n) false = record blank { services = replicate (suc n) false; threads = suc n }
new (suc n) true = record blank {
  services = false ∷ [];
  threads = suc n;
  strand = true;
  strand_needed = true;
}

-- The constructor from an io service.
pub new_from : Bool → Service
new_from strands = record blank { services = false ∷ []; strand = strands; strand_needed = strands }

-- The service, and the index of the io service that is handed out.
pub get_io_service : Service → Service × ℕ
get_io_service s = let i = add64 s.rr_idx 1 in (record s { rr_idx = i }, i % length s.services)

abbrev pub post : Task → Service → Service
post t s = record s { posted = s.posted ++ (executor_for s.strand_needed, t) ∷ [] }

abbrev pub call : Call → Service → Service
call c s = record s { calls = c ∷ s.calls }

-- The loop that starts the threads: the next `n`, from the `i`th on, over `m` io services.
pub serve : ℕ → ℕ → ℕ → List ℕ
serve zero i m = []
serve (suc n) i m = (i % m) ∷ serve n (suc i) m

-- `while (isStarted() != wanted) yield();`: what other threads do meanwhile is `progress`; `none` is a wait
-- that has not ended after `fuel` rounds.
pub spin : ℕ → (Service → Bool) → (Service → Service) → Service → Option Service
spin zero over progress s = none
spin (suc fuel) over progress s = elim (over s) [
  | true ↦ some s
  | false ↦ spin fuel over progress (progress s)
]

pub begin : Bool → Service → Service
begin polling s =
    let t = post Task.start_task (record s { polling = polling; rr_idx = 0 }) in
    record t { serving = serve s.threads 0 (length s.services) }

pub finished : Bool → Option Service → Option (Service × Bool)
finished done none = none
finished done (some s) = some (s, done)

pub start : ℕ → (Service → Service) → Bool → Service → Option (Service × Bool)
start fuel progress polling s =
    if s.started
    then some (s, false)
    else finished true (spin fuel (λ t. t.started) progress (begin polling s))

-- `stop` joins the threads: `join` is what the pool does until they have left, the posted handler
-- included.
pub stop : ℕ → (Service → Service) → (Service → Service) → Service → Option (Service × Bool)
stop fuel join progress s =
    let joined = record (join (post Task.stop_task s)) { serving = []; polling = false } in
    if s.started
    then finished true (spin fuel (λ t. not t.started) progress joined)
    else some (s, false)

pub renew : Service → Service
renew s = record s { services = map (λ stopped. false) s.services }

pub restart_from :
    ℕ → (Service → Service) → Bool → Option (Service × Bool) → Option (Service × Bool)
restart_from fuel progress polling none = none
restart_from fuel progress polling (some (s, false)) = some (s, false)
restart_from fuel progress polling (some (s, true)) = start fuel progress polling (renew s)

pub restart : ℕ → (Service → Service) → (Service → Service) → Service → Option (Service × Bool)
restart fuel join progress s = restart_from fuel progress s.polling (stop fuel join progress s)

-- The handlers that `start` and `stop` post.
pub start_handler : Service → Service
start_handler s = if s.started then s else call Call.on_started (record s { started = true })

pub stop_handler : Service → Service
stop_handler s =
    if s.started
    then call Call.on_stopped
        (record s { services = map (λ stopped. true) s.services; started = false })
    else s

pub perform : Task → Service → Service
perform Task.start_task s = start_handler s
perform Task.stop_task s = stop_handler s

-- A thread of the pool runs the oldest handler posted.
pub run_posted : List (Executor × Task) → Service → Service
run_posted [] s = s
run_posted ((x, t) ∷ rest) s = perform t (record s { posted = rest })
