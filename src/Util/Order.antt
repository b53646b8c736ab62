-- ===== src/Util/Order.antt =====
-- The comparison of a `CacheView` against the order of texts, and against the hash.
use Prim.Native.Nat.{Ordering}
use cxx_server.Common.{
  Option-cases, take-nil, inl, inr, ℕ, zero, suc, ◌≤◌, ◌≡◌, refl, sym, ap, ◌∙◌, true, List, [], ◌∷◌,
  Option, some, if◌then◌else◌, ltb, arith, length, take, ◌↔◌,
}
use cxx_server.Util.CacheView.{
  CacheView, text, hash_of, min, Chars, of_view, string_view, data_of, memory, compare_chars,
  if_same, compare, is_zero, are_equal,
}

-- The order of texts: by the first character that differs, a prefix first.
unfoldable pub order : List ℕ → List ℕ → Ordering
order [] [] = Ordering.eq
order [] (b ∷ q) = Ordering.lt
order (a ∷ p) [] = Ordering.gt
order (a ∷ p) (b ∷ q) =
    let rest = order p q in if ltb a b then Ordering.lt else if ltb b a then Ordering.gt else rest

min-suc : (m n : ℕ) → min (suc m) (suc n) ≡ suc (min m n)
min-suc m n = ground arith

if_same-suc : (m n : ℕ) (o : Option Ordering) → if_same (suc m) (suc n) o ≡ if_same m n o
if_same-suc m n o = ground arith

compare_chars-order :
    (m n : ℕ) (p q : List ℕ)
    → m ≤ length p
    → n ≤ length q
    → if_same m n (compare_chars (min m n) p q) ≡ some (order (take m p) (take n q))
unfolding compare_chars order
compare_chars-order zero zero p q h k = refl
compare_chars-order zero (suc n) p [] h k = absurd (omega arith)
compare_chars-order zero (suc n) p (b ∷ q) h k = ground arith
compare_chars-order (suc m) zero [] q h k = absurd (omega arith)
compare_chars-order (suc m) zero (a ∷ p) q h k = ground arith
compare_chars-order (suc m) (suc n) [] q h k = absurd (omega arith)
compare_chars-order (suc m) (suc n) (a ∷ p) [] h k = absurd (omega arith)
compare_chars-order (suc m) (suc n) (a ∷ p) (b ∷ q) h k =
    let rest = compare_chars-order m n p q (omega arith) (omega arith) in
    rw (min-suc m n) (ground (arith, rest, if_same-suc m n (compare_chars (min m n) p q)))

-- A view that lies in its string, compared with a view or a text that lies in its memory, reads nothing else and
-- gives the order of the two texts.
pub compare-order :
    (v : CacheView) (w : Chars)
    → v.size ≤ length (memory (data_of v))
    → w.size ≤ length (memory w.data')
    → compare v w ≡ some (order (text (of_view v)) (text w))
unfolding compare
compare-order v w h k = compare_chars-order v.size w.size (memory (data_of v)) (memory w.data') h k

order_refl : (p : List ℕ) → order p p ≡ Ordering.eq
unfolding order
order_refl [] = refl
order_refl (a ∷ p) = ground (arith, order_refl p)

order_eq : (p q : List ℕ) → order p q ≡ Ordering.eq → p ≡ q
unfolding order
order_eq [] [] h = refl
order_eq [] (b ∷ q) h = absurd (ground arith)
order_eq (a ∷ p) [] h = absurd (ground arith)
order_eq (a ∷ p) (b ∷ q) h = ground (arith, order_eq p q)

zero_eq : (o : Ordering) → some (is_zero o) ≡ some true → o ≡ Ordering.eq
zero_eq o h = ground arith

-- The operators hold of a view and a text exactly when they have the same characters.
pub are_equal-text :
    (v : CacheView) (w : Chars)
    → v.size ≤ length (memory (data_of v))
    → w.size ≤ length (memory w.data')
    → (are_equal v w ≡ some true) ↔ (text (of_view v) ≡ text w)
unfolding are_equal
are_equal-text v w h k =
    rw (compare-order v w h k, are_equal)
      (
        λ e. order_eq (text (of_view v)) (text w) (zero_eq (order (text (of_view v)) (text w)) e),
        λ e. ap (λ o. some (is_zero o)) (ap (λ p. order p (text w)) e ∙ order_refl (text w)),
      )

-- The characters of the converted view are those that `compare` reads.
text-string_view : (v : CacheView) → text (string_view v) ≡ text (of_view v)
unfolding string_view data_of
text-string_view v = elim (Option-cases v.str) [
  | inl gone ↦ rw gone (sym (take-nil v.size))
  | inr (str, held) ↦ rw held refl
]

-- A view that lies in its string has the hash of each view or text that the operators find equal to it,
-- whatever the hash of texts is.
hash_of_respects :
    (hash : List ℕ → ℕ) (v : CacheView) (w : Chars)
    → v.size ≤ length (memory (data_of v))
    → w.size ≤ length (memory w.data')
    → are_equal v w ≡ some true
    → hash_of hash v ≡ hash (text w)
unfolding hash_of
hash_of_respects hash v w h k e = ap hash (text-string_view v ∙ (are_equal-text v w h k).0 e)
