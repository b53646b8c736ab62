-- ===== src/Memory/Examples.antt =====
-- `HandlerMemory` at concrete inputs.
use cxx_server.Common.{◌≡◌, refl, List, [], ◌∷◌}
use cxx_server.Memory.{
  Store, Event, ask, returned, new, step, run, alloc, free, give_back, nth, without, fast, heap,
  IsExclusive, run-IsExclusive, holders,
}

abbrev empty : Store
empty = record { memory = new; held = [] }

-- The second handler gets a block of the heap, and the third the fast block that the first gives back.
abbrev handlers : List Event
handlers = ask 100 7 ∷ ask 100 8 ∷ returned 1 ∷ ask 100 9 ∷ []

handlers_held : (run 1024 handlers empty).held ≡ fast ∷ heap 8 ∷ []
unfolding run step alloc free give_back nth without new
handlers_held = refl

run-IsExclusive_example : IsExclusive (run 1024 handlers empty)
unfolding new holders
run-IsExclusive_example = run-IsExclusive 1024 handlers empty refl
