-- ===== src/Service/Rotation.antt =====
-- The round robin of `Service::getIoService`, and which io service each thread of the pool serves.
use cxx_server.Common.{
  ℕ, zero, suc, ◌+◌, ◌-◌, ◌%◌, ◌<◌, ◌≤◌, ◌≡◌, refl, ◌∙◌, sym, ap, List, [], ◌∷◌, arith, word,
  length, ◌⊎◌, inl, inr, Bool, true, false, length-replicate,
}
use native.Mathlib.Nat.{mod-lt, mod-eq_of_lt, mod-add-mod, add-mod_right}
use native.Mathlib.Decide.{dec_lt}
use cxx_server.Service.{Service, new, get_io_service, serve, begin}

-- What the call of `getIoService` after `j` others hands out.
pub pick : ℕ → Service → ℕ
pick zero s = (get_io_service s).1
pick (suc j) s = pick j (get_io_service s).0

pick_turn :
    (j : ℕ) (s : Service)
    → s.rr_idx + suc j < word
    → pick j s ≡ (s.rr_idx + suc j) % length s.services
unfolding pick get_io_service
pick_turn zero s h =
    let e : (s.rr_idx + 1) % word ≡ s.rr_idx + 1 = omega arith in ap (λ i. i % length s.services) e
pick_turn (suc j) s h =
    let e : (s.rr_idx + 1) % word ≡ s.rr_idx + 1 = omega arith in
    let next : Service = (get_io_service s).0 in
    let sum : next.rr_idx + suc j ≡ s.rr_idx + suc (suc j) = omega arith in
    pick_turn j next (omega arith) ∙ ap (λ i. i % length s.services) sum

turn : (n k i : ℕ) → i < n → (j : ℕ) × (j < n) × ((k + j) % n ≡ i)
turn n k i h =
    let r = k % n in
    let below : r < n = mod-lt k (omega arith) in
    elim (dec_lt i r) [
      | yes b ↦
          let sum : r + (i + n - r) ≡ i + n = omega arith in
          (
            i + n - r,
            omega arith,
            sym (mod-add-mod k n (i + n - r))
                ∙ ap (λ x. x % n) sum
                ∙ add-mod_right i n
                ∙ mod-eq_of_lt h,
          )
      | no b ↦
          let sum : r + (i - r) ≡ i = omega arith in
          (i - r, omega arith, sym (mod-add-mod k n (i - r)) ∙ ap (λ x. x % n) sum ∙ mod-eq_of_lt h)
    ]

-- Among as many calls of `getIoService` in a row as there are io services, each io service is handed out,
-- as long as the 64-bit index does not wrap.
pub pick_fair :
    (s : Service) (i : ℕ)
    → i < length s.services
    → s.rr_idx + length s.services < word
    → (j : ℕ) × (j < length s.services) × (pick j s ≡ i)
pick_fair s i h w =
    let (j, below, e) = turn (length s.services) (suc s.rr_idx) i h in
    let shift : s.rr_idx + suc j ≡ suc s.rr_idx + j = omega arith in
    (j, below, pick_turn j s (omega arith) ∙ ap (λ x. x % length s.services) shift ∙ e)

pub count : ℕ → ℕ → List ℕ
count zero i = []
count (suc n) i = i ∷ count n (suc i)

serve_own : (n i m : ℕ) → i + n ≤ m → serve n i m ≡ count n i
unfolding serve count
serve_own zero i m h = refl
serve_own (suc n) i m h =
    let e : i % m ≡ i = mod-eq_of_lt (omega arith) in
    rw (e, serve_own n (suc i) m (omega arith)) refl

-- In a pool of threads either strands are needed, or each thread serves an io service of its own: the
-- handlers of one io service are never run by two threads without a strand.
serving_own :
    (n : ℕ) (own_io polling : Bool)
    → ((new (suc n) own_io).strand_needed ≡ true)
      ⊎ ((begin polling (new (suc n) own_io)).serving ≡ count (suc n) 0)
unfolding new begin
serving_own n true polling = inl refl
serving_own n false polling =
    inr (rw (length-replicate n false) (serve_own (suc n) 0 (suc n) (omega arith)))
