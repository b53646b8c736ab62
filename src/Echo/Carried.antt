-- ===== src/Echo/Carried.antt =====
-- The bytes of a link, as they move from one part of it to the next.
use cxx_server.Common.{
  ℕ, zero, suc, ◌≡◌, refl, ap, ◌∙◌, Bool, true, false, ◌&&◌, List, [], ◌∷◌, ◌++◌, append_assoc, leb,
  if◌then◌else◌, take, drop, length,
}
use cxx_server.Asio.{Executor, bytes}
use cxx_server.Client.{Client}
use cxx_server.Session.{Session, tcp}
use cxx_server.Session.System.{fits}
use cxx_server.Echo.Session.{read_by}
use cxx_server.Echo.Link.{taken_in}

module _ {ℓ} {A : Type ℓ} where
  pub front : (n : ℕ) (xs : List A) → xs ≡ take n xs ++ drop (length (take n xs)) xs
  front zero xs = refl
  front (suc n) [] = refl
  front (suc n) (x ∷ xs) = ap (λ l. x ∷ l) (front n xs)

  pub front_if :
      (b : Bool) (n : ℕ) (xs : List A)
      → let p = if b then take n xs else [] in xs ≡ p ++ drop (length p) xs
  front_if true n xs = front n xs
  front_if false n xs = refl

  -- More is handed in at the far end.
  pub handed_in :
      (g d u p x a t y : List A)
      → x ++ a ≡ t ++ y
      → (g ++ (d ++ (u ++ (p ++ x)))) ++ a ≡ g ++ (d ++ (u ++ ((p ++ t) ++ y)))
  handed_in g d u p x a t y e = simp append_assoc (ap (λ l. g ++ (d ++ (u ++ (p ++ l)))) e)

  pub written_back :
      (g d x r t y : List A) → x ≡ t ++ y → g ++ (d ++ (x ++ r)) ≡ g ++ ((d ++ t) ++ (y ++ r))
  written_back g d x r t y e =
      simp append_assoc (ap (λ l. g ++ (d ++ (l ++ r))) e ∙ simp append_assoc)

  pub read_there :
      (g d x p r a q y : List A)
      → p ≡ a ++ q
      → x ++ a ≡ y
      → g ++ (d ++ (x ++ (p ++ r))) ≡ g ++ (d ++ (y ++ (q ++ r)))
  read_there g d x p r a q y e f =
      ap (λ l. g ++ (d ++ (x ++ (l ++ r)))) e
      ∙ (simp append_assoc)
      ∙ ap (λ l. g ++ (d ++ (l ++ (q ++ r)))) f

  pub read_here : (g d r a q : List A) → d ≡ a ++ q → g ++ (d ++ r) ≡ (g ++ a) ++ (q ++ r)
  read_here g d r a q e = ap (λ l. g ++ (l ++ r)) e ∙ simp append_assoc

pub taken_in_front :
    (n : ℕ) (xs : List ℕ) (rs : List (Executor × ℕ)) (c : Client)
    → let p = taken_in (take n xs) rs c in xs ≡ p ++ drop (length p) xs
unfolding taken_in
taken_in_front n xs [] c = refl
taken_in_front n xs ((x, space) ∷ rest) c =
    front_if (leb (length (take n xs)) space && c.connected) n xs

pub read_by_front :
    (n : ℕ) (xs : List ℕ) (rs : List (Executor × ℕ)) (s : Session)
    → let p = read_by tcp (take n xs) rs s in xs ≡ p ++ drop (length p) xs
unfolding read_by
read_by_front n xs [] s = refl
read_by_front n xs ((x, space) ∷ rest) s =
    front_if (leb (length (take n xs)) space && fits (bytes (take n xs)) s && s.connected) n xs
