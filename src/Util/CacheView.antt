-- ===== src/Util/CacheView.antt =====
-- `CacheView` of include/core/util.hxx, a part of a string that it does not own, and the comparisons and
-- hashes of `CacheViewSparseMapHash`. Characters are numbers; `none` is a read outside of the memory
-- that a pointer points to.
use Prim.Native.Nat.{Ordering}
use cxx_server.Common.{
  take, ℕ, zero, suc, Bool, true, false, List, [], ◌∷◌, ◌++◌, Option, none, some, if◌then◌else◌,
  ltb, ◌==◌, drop,
}

-- The weak pointer as what it points to: the string, or nothing when that is gone.
pub record CacheView : Type 0 where
  pub str : Option (List ℕ)
  pub idx : ℕ
  pub size : ℕ

-- What `compare` reads of a `std::string_view` or of a `CacheView`: the pointer, as the memory behind it,
-- and the size.
pub record Chars : Type 0 where
  pub data' : Option (List ℕ)
  pub size : ℕ

-- The assignment of an index and a size.
unfoldable pub assign : ℕ → ℕ → CacheView → CacheView
assign idx size v = record v { idx = idx; size = size }

abbrev from_idx : ℕ → Option (List ℕ) → Option (List ℕ)
from_idx idx none = none
from_idx idx (some str) = some (drop idx (str ++ 0 ∷ []))

-- `data`: `c_str() + _idx`, whose memory ends with the null character.
unfoldable pub data_of : CacheView → Option (List ℕ)
data_of v = from_idx v.idx v.str

abbrev pub of_view : CacheView → Chars
of_view v = record { data' = data_of v; size = v.size }

-- The conversion to `std::string_view`.
unfoldable pub string_view : CacheView → Chars
string_view v = elim v.str [
  | none ↦ record { data' = none; size = 0 }
  | some str ↦ record { data' = data_of v; size = v.size }
]

-- Nothing can be read of a null pointer.
abbrev pub memory : Option (List ℕ) → List ℕ
memory none = []
memory (some cs) = cs

-- `std::min`
abbrev pub min : ℕ → ℕ → ℕ
min a b = if ltb b a then b else a

-- `std::char_traits<char>::compare`.
unfoldable pub compare_chars : ℕ → List ℕ → List ℕ → Option Ordering
compare_chars zero p q = some Ordering.eq
compare_chars (suc n) [] q = none
compare_chars (suc n) (a ∷ p) [] = none
compare_chars (suc n) (a ∷ p) (b ∷ q) =
    let rest = compare_chars n p q in
    if ltb a b then some Ordering.lt else if ltb b a then some Ordering.gt else rest

abbrev by_size : ℕ → ℕ → Ordering
by_size m n = if ltb m n then Ordering.lt else if m == n then Ordering.eq else Ordering.gt

abbrev pub if_same : ℕ → ℕ → Option Ordering → Option Ordering
if_same m n (some Ordering.eq) = some (by_size m n)
if_same m n ret = ret

unfoldable pub compare : CacheView → Chars → Option Ordering
compare v w =
    if_same v.size w.size (compare_chars (min v.size w.size) (memory (data_of v)) (memory w.data'))

abbrev pub is_zero : Ordering → Bool
is_zero Ordering.eq = true
is_zero _ = false

-- The comparison operators.
unfoldable pub are_equal : CacheView → Chars → Option Bool
are_equal v w = elim (compare v w) [ none ↦ none | some o ↦ some (is_zero o) ]

-- The text of a view.
abbrev pub text : Chars → List ℕ
text w = take w.size (memory w.data')

-- The hashes of a view, which are those of the view of a string that it converts to. `hash` is
-- `std::hash<std::string_view>`.
unfoldable pub hash_of : (List ℕ → ℕ) → CacheView → ℕ
hash_of hash v = hash (text (string_view v))
