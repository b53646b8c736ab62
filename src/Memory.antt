-- ===== src/Memory.antt =====
-- `HandlerMemory<S>` of include/core/memory.hxx: a fast block that one handler at a time may have, in front
-- of `malloc` and `free`. What `malloc` returns is given by the caller.

mod Examples
use cxx_server.Common.{
  ℕ, zero, suc, ◌+◌, ◌*◌, ◌<◌, ◌≡◌, refl, ◌≢◌, Bool, true, false, not, ◌&&◌, List, [], ◌∷◌, Option,
  none, some, ltb, ◌==◌, if◌then◌else◌, mul64, arith, inl, inr, Bool-cases,
}

-- `&_fast_storage`, or a block of the heap.
pub data Pointer : Type 0 where
  fast : Pointer
  heap : ℕ → Pointer

-- `_used`; `S` is the parameter of the class.
pub record HandlerMemory : Type 0 where
  pub used : Bool

pub new : HandlerMemory
new = record { used = false }

pub alloc : ℕ → ℕ → ℕ → HandlerMemory → HandlerMemory × Pointer
alloc limit size block m =
    if not m.used && ltb size limit
    then (record { used = true }, Pointer.fast)
    else (m, Pointer.heap block)

-- The second component says what `std::free` gets.
pub free : Pointer → HandlerMemory → HandlerMemory × Option ℕ
free Pointer.fast m = (record { used = false }, none)
free (Pointer.heap block) m = (m, some block)

-- `HandlerStorageAllocator`, whose storage has the default size.
pub allocate : ℕ → ℕ → ℕ → HandlerMemory → HandlerMemory × Pointer
allocate num size block m = alloc 1024 (mul64 num size) block m

pub deallocate : Pointer → HandlerMemory → HandlerMemory × Option ℕ
deallocate p m = free p m

-- The storage with the pointers that its users hold.
pub record Store : Type 0 where
  pub memory : HandlerMemory
  pub held : List Pointer

-- A user asks for a block, or gives back one that it holds, by its place.
pub data Event : Type 0 where
  ask : ℕ → ℕ → Event
  returned : ℕ → Event

pub nth : ℕ → List Pointer → Option Pointer
nth n [] = none
nth zero (p ∷ ps) = some p
nth (suc n) (p ∷ ps) = nth n ps

pub without : ℕ → List Pointer → List Pointer
without n [] = []
without zero (p ∷ ps) = ps
without (suc n) (p ∷ ps) = p ∷ without n ps

pub give_back : Option Pointer → ℕ → Store → Store
give_back none n s = s
give_back (some p) n s = record { memory = (free p s.memory).0; held = without n s.held }

pub step : ℕ → Event → Store → Store
step limit (Event.ask size block) s =
    let (m, p) = alloc limit size block s.memory in record { memory = m; held = p ∷ s.held }
step limit (Event.returned n) s = give_back (nth n s.held) n s

pub run : ℕ → List Event → Store → Store
run limit [] s = s
run limit (ev ∷ evs) s = run limit evs (step limit ev s)

-- How many users hold the fast block.
pub holders : List Pointer → ℕ
holders [] = 0
holders (Pointer.fast ∷ ps) = suc (holders ps)
holders (Pointer.heap block ∷ ps) = holders ps

-- `_used` says whether the fast block has a user, and it has at most one.
abbrev pub IsExclusive : Store → Type 0
IsExclusive s = holders s.held ≡ (if s.memory.used then 1 else 0)

holders-without_fast :
    (n : ℕ) (ps : List Pointer)
    → nth n ps ≡ some Pointer.fast
    → holders ps ≡ suc (holders (without n ps))
unfolding holders nth without
holders-without_fast n [] h = ground arith
holders-without_fast zero (p ∷ ps) h = ground arith
holders-without_fast (suc n) (Pointer.fast ∷ ps) h = ground (arith, holders-without_fast n ps h)
holders-without_fast (suc n) (Pointer.heap b ∷ ps) h = holders-without_fast n ps h

holders-without_heap :
    (n b : ℕ) (ps : List Pointer)
    → nth n ps ≡ some (Pointer.heap b)
    → holders ps ≡ holders (without n ps)
unfolding holders nth without
holders-without_heap n b [] h = ground arith
holders-without_heap zero b (p ∷ ps) h = ground arith
holders-without_heap (suc n) b (Pointer.fast ∷ ps) h = ground (arith, holders-without_heap n b ps h)
holders-without_heap (suc n) b (Pointer.heap c ∷ ps) h = holders-without_heap n b ps h

give_back-IsExclusive :
    (o : Option Pointer) (n : ℕ) (s : Store)
    → nth n s.held ≡ o
    → IsExclusive s
    → IsExclusive (give_back o n s)
unfolding give_back free
give_back-IsExclusive none n s q h = h
give_back-IsExclusive (some Pointer.fast) n s q h = ground (arith, holders-without_fast n s.held q)
give_back-IsExclusive (some (Pointer.heap b)) n s q h =
    ground (arith, holders-without_heap n b s.held q)

step-IsExclusive :
    (limit : ℕ) (ev : Event) (s : Store) → IsExclusive s → IsExclusive (step limit ev s)
unfolding step alloc free holders
step-IsExclusive limit (Event.ask size block) s h = ground arith
step-IsExclusive limit (Event.returned n) s h = give_back-IsExclusive (nth n s.held) n s refl h

-- However blocks are asked for and given back, at most one user holds the fast block at a time, and
-- `_used` says whether one does.
pub run-IsExclusive :
    (limit : ℕ) (evs : List Event) (s : Store) → IsExclusive s → IsExclusive (run limit evs s)
unfolding run
run-IsExclusive limit [] s h = h
run-IsExclusive limit (ev ∷ evs) s h =
    run-IsExclusive limit evs (step limit ev s) (step-IsExclusive limit ev s h)
