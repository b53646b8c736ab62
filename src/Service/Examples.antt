-- ===== src/Service/Examples.antt =====
-- Service's theorems at concrete inputs.
use cxx_server.Common.{ℕ, ◌≡◌, ◌<◌, refl, true, false, List, [], ◌∷◌, some, arith, length}
use cxx_server.Asio.{not_connected, eof}
use cxx_server.Service.{Service, new, start, stop, restart, renew}
use cxx_server.Service.Rotation.{pick, pick_fair}
use cxx_server.Service.Running.{
  work, begun, ended, start-begun, stop-ended, restart-begun, ThreadCall, returns, throws,
  service_thread, on_thread_init, Ends, service_thread-Ends,
}

-- Three threads with an io service each.
abbrev three : Service
three = new 3 false

pick_fair_example : (j : ℕ) × (j < length three.services) × (pick j three ≡ 2)
unfolding new
pick_fair_example = pick_fair three 2 (omega arith) (omega arith)

start-begun_example : start 2 work true three ≡ some (begun true three, true)
unfolding new
start-begun_example = start-begun 0 true three refl refl

stop-ended_example : stop 1 work work (begun true three) ≡ some (ended (begun true three), true)
stop-ended_example = stop-ended 0 (begun true three) refl refl

restart-begun_example :
    restart 2 work work (begun true three)
    ≡ some (begun true (renew (ended (begun true three))), true)
restart-begun_example = restart-begun 0 (begun true three) refl refl

service_thread-Ends_example :
    (cs : List ThreadCall) × (service_thread true
        ((returns, true) ∷ (throws not_connected, true) ∷ (throws eof, true) ∷ [])
      ≡ on_thread_init ∷ cs)
    × Ends cs
service_thread-Ends_example =
    service_thread-Ends true
      ((returns, true) ∷ (throws not_connected, true) ∷ (throws eof, true) ∷ [])
