-- ===== src/Util.antt =====
-- `Utils::fastItoa` of include/core/util.hxx: the decimal text of a number, written from the end of the
-- caller's buffer.

pub mod CacheView
pub mod Order
mod Examples
use cxx_server.Common.{
  ℕ, zero, suc, ◌+◌, ◌-◌, ◌*◌, ◌/◌, ◌%◌, ◌^◌, ◌<◌, ◌≤◌, ◌≡◌, refl, ◌∙◌, List, [], ◌∷◌, Option, none,
  some, ◌==◌, if◌then◌else◌, arith, inl, inr, Bool-cases, length, true, false,
}

-- The loop: `room` bytes are left before `idx`, and the text stands behind it. `none` is a write before the
-- buffer.
pub write : ℕ → ℕ → List ℕ → Option (List ℕ)
write zero val text = none
write (suc room) val text =
    let rest = write room (val / 10) ((48 + val % 10) ∷ text) in
    if val / 10 == 0 then some ((48 + val % 10) ∷ text) else rest

pub fast_itoa : ℕ → ℕ → Option (List ℕ)
fast_itoa val buf_size = write buf_size val []

-- The number that decimal digits read after `n` stand for.
pub value : ℕ → List ℕ → ℕ
value n [] = n
value n (d ∷ ds) = value (10 * n + (d - 48)) ds

room_left : (q r : ℕ) → 0 < q → q < 10 ^ r → 0 < r
room_left q zero p h = absurd (omega arith)
room_left q (suc r) p h = omega arith

-- The loop stays in a buffer with room for the digits.
value-write :
    (room val : ℕ) (text : List ℕ)
    → 0 < room
    → val < 10 ^ room
    → (ds : List ℕ) × (write room val text ≡ some ds) × (value 0 ds ≡ value val text)
unfolding write value
value-write zero val text p h = absurd (omega arith)
value-write (suc r) val text p h = elim (Bool-cases (val / 10 == 0)) [
  | inl e ↦
      let same : 10 * 0 + (48 + val % 10 - 48) ≡ val = ground arith in
      ((48 + val % 10) ∷ text, rw e refl, rw same refl)
  | inr e ↦
      let q = val / 10 in
      let above : 0 < q = ground arith in
      let below : q < 10 ^ r = omega arith in
      let left : 0 < r = room_left q r above below in
      let (ds, same, read) = value-write r q ((48 + val % 10) ∷ text) left below in
      let digit : 10 * q + (48 + val % 10 - 48) ≡ val = omega arith in
      (ds, rw e same, read ∙ rw digit refl)
]

-- The text of a number of up to `buf_size` digits fits into the buffer, and reads as the number.
pub value-fast_itoa :
    (val buf_size : ℕ)
    → 0 < buf_size
    → val < 10 ^ buf_size
    → (ds : List ℕ) × (fast_itoa val buf_size ≡ some ds) × (value 0 ds ≡ val)
unfolding fast_itoa value
value-fast_itoa val buf_size p h = value-write buf_size val [] p h

power_positive : (r : ℕ) → 0 < 10 ^ r
power_positive zero = omega arith
power_positive (suc r) = let p : 0 < 10 ^ r = power_positive r in omega arith

write_overflows : (room val : ℕ) (text : List ℕ) → 10 ^ room ≤ val → write room val text ≡ none
unfolding write
write_overflows zero val text h = refl
write_overflows (suc r) val text h =
    let more : 10 ^ r ≤ val / 10 = omega arith in
    let digits : 0 < 10 ^ r = power_positive r in
    ground (arith, digits, write_overflows r (val / 10) ((48 + val % 10) ∷ text) more)

-- A number with more digits than the buffer has bytes makes it write before the buffer.
pub fast_itoa_overflows : (val buf_size : ℕ) → 10 ^ buf_size ≤ val → fast_itoa val buf_size ≡ none
unfolding fast_itoa
fast_itoa_overflows val buf_size h = write_overflows buf_size val [] h
