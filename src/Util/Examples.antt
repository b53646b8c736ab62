-- ===== src/Util/Examples.antt =====
-- `fastItoa` and `CacheView` at concrete inputs.
use cxx_server.Common.{ℕ, ◌≡◌, refl, List, [], ◌∷◌, none, some, arith}
use Prim.Native.Nat.{Ordering}
use cxx_server.Util.CacheView.{CacheView, Chars, assign, compare, compare_chars, data_of}
use cxx_server.Util.Order.{order, compare-order}
use cxx_server.Util.{fast_itoa, write, value, value-fast_itoa}

value-fast_itoa_example : (ds : List ℕ) × (fast_itoa 1024 5 ≡ some ds) × (value 0 ds ≡ 1024)
value-fast_itoa_example = value-fast_itoa 1024 5 (omega arith) (omega arith)

fast_itoa_text : fast_itoa 1024 5 ≡ some (49 ∷ 48 ∷ 50 ∷ 52 ∷ [])
unfolding fast_itoa write
fast_itoa_text = refl

-- "llo" in "hello", and texts that are not in a string.
abbrev tail_of_hello : CacheView
tail_of_hello =
    assign 2 3 (record { str = some (104 ∷ 101 ∷ 108 ∷ 108 ∷ 111 ∷ []); idx = 0; size = 0 })

abbrev llo : Chars
llo = record { data' = some (108 ∷ 108 ∷ 111 ∷ []); size = 3 }

abbrev ll : Chars
ll = record { data' = some (108 ∷ 108 ∷ []); size = 2 }

compare-order_example :
    compare tail_of_hello ll ≡ some (order (108 ∷ 108 ∷ 111 ∷ []) (108 ∷ 108 ∷ []))
unfolding assign data_of
compare-order_example = compare-order tail_of_hello ll (omega arith) (omega arith)

order_gt : order (108 ∷ 108 ∷ 111 ∷ []) (108 ∷ 108 ∷ []) ≡ Ordering.gt
unfolding order
order_gt = refl

-- The string is gone, but the view still has its size.
expired_reads_null : compare (record { str = none; idx = 0; size = 1 }) llo ≡ none
unfolding compare compare_chars data_of
expired_reads_null = refl
