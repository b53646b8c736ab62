-- ===== src/Server/Table.antt =====
-- `std::map<Uuid, std::shared_ptr<Session>>` as Tcp::Server uses it: a list of the entries, whose order
-- nothing depends on.

pub mod Entries
use cxx_server.Common.{
  ℕ, ◌≡◌, ◌≢◌, refl, ◌∙◌, true, false, subst, sym, List, [], ◌∷◌, Option, none, some, arith, ◌==◌,
  if◌then◌else◌, inl, inr, Bool-cases,
}

pub agree : (j k : ℕ) → (j == k) ≡ true → j ≡ k
agree j k e = ground arith

pub differ : (j k : ℕ) → (j == k) ≡ false → j ≢ k
differ j k e = ground arith

module _ {ℓ} {A : Type ℓ} where
  unfoldable pub find : ℕ → List (ℕ × A) → Option A
  find k [] = none
  find k ((j, u) ∷ rest) = if j == k then some u else find k rest

  -- `emplace` keeps the entry that the map has.
  unfoldable pub emplace : ℕ → A → List (ℕ × A) → List (ℕ × A)
  emplace k s [] = (k, s) ∷ []
  emplace k s ((j, u) ∷ rest) = if j == k then (j, u) ∷ rest else (j, u) ∷ emplace k s rest

  pub erase : ℕ → List (ℕ × A) → List (ℕ × A)
  erase k [] = []
  erase k ((j, u) ∷ rest) = if j == k then rest else (j, u) ∷ erase k rest

  -- The object of the entry has become another.
  unfoldable pub replace : ℕ → A → List (ℕ × A) → List (ℕ × A)
  replace k s [] = []
  replace k s ((j, u) ∷ rest) = if j == k then (j, s) ∷ rest else (j, u) ∷ replace k s rest

  -- The loop over all entries.
  unfoldable pub each : (A → A) → List (ℕ × A) → List (ℕ × A)
  each f [] = []
  each f ((k, s) ∷ rest) = (k, f s) ∷ each f rest

  -- No key occurs twice.
  abbrev pub IsTable : List (ℕ × A) → Type ℓ
  IsTable [] = Unit
  IsTable ((k, s) ∷ rest) = (find k rest ≡ none) × IsTable rest

  abbrev pub changed : (A → A) → Option A → Option A
  changed f none = none
  changed f (some s) = some (f s)

  pub find-emplace :
      (k : ℕ) (s : A) (t : List (ℕ × A)) → find k t ≡ none → find k (emplace k s t) ≡ some s
  unfolding find emplace
  find-emplace k s [] h = ground arith
  find-emplace k s ((j, u) ∷ rest) h = ground (arith, find-emplace k s rest)

  pub find-emplace_other :
      (k j : ℕ) (s : A) (t : List (ℕ × A)) → j ≢ k → find j (emplace k s t) ≡ find j t
  unfolding find emplace
  find-emplace_other k j s [] h = ground arith
  find-emplace_other k j s ((i, u) ∷ rest) h = ground (arith, find-emplace_other k j s rest h)

  pub find-erase_other : (k j : ℕ) (t : List (ℕ × A)) → j ≢ k → find j (erase k t) ≡ find j t
  unfolding find erase
  find-erase_other k j [] h = ground arith
  find-erase_other k j ((i, u) ∷ rest) h = ground (arith, find-erase_other k j rest h)

  pub find-erase : (k : ℕ) (t : List (ℕ × A)) → IsTable t → find k (erase k t) ≡ none
  unfolding find erase
  find-erase k [] h = ground arith
  find-erase k ((j, u) ∷ rest) h = ground (arith, find-erase k rest h.1, h.0)

  replace_absent :
      (k j : ℕ) (s : A) (t : List (ℕ × A)) → find j t ≡ none → find j (replace k s t) ≡ none
  unfolding find replace
  replace_absent k j s [] h = ground arith
  replace_absent k j s ((i, u) ∷ rest) h = ground (arith, replace_absent k j s rest)

  pub find-replace :
      (k : ℕ) (u w : A) (t : List (ℕ × A)) → find k t ≡ some u → find k (replace k w t) ≡ some w
  unfolding find replace
  find-replace k u w [] h = absurd (ground arith)
  find-replace k u w ((i, x) ∷ rest) h = ground (arith, find-replace k u w rest)

  pub find-replace_other :
      (k j : ℕ) (w : A) (t : List (ℕ × A)) → j ≢ k → find j (replace k w t) ≡ find j t
  unfolding find replace
  find-replace_other k j w [] h = refl
  find-replace_other k j w ((i, x) ∷ rest) h = ground (arith, find-replace_other k j w rest h)

  pub find-each : (f : A → A) (k : ℕ) (t : List (ℕ × A)) → find k (each f t) ≡ changed f (find k t)
  unfolding find each
  find-each f k [] = ground arith
  find-each f k ((j, u) ∷ rest) = ground (arith, find-each f k rest)

  pub emplace-IsTable : (k : ℕ) (s : A) (t : List (ℕ × A)) → IsTable t → IsTable (emplace k s t)
  unfolding emplace find
  emplace-IsTable k s [] h = (refl, tt)
  emplace-IsTable k s ((j, u) ∷ rest) h = elim (Bool-cases (j == k)) [
    | inl e ↦ rw e h
    | inr e ↦
        rw e (find-emplace_other k j s rest (differ j k e) ∙ h.0, emplace-IsTable k s rest h.1)
  ]

  pub erase-IsTable : (k : ℕ) (t : List (ℕ × A)) → IsTable t → IsTable (erase k t)
  unfolding erase
  erase-IsTable k [] h = tt
  erase-IsTable k ((j, u) ∷ rest) h = elim (Bool-cases (j == k)) [
    | inl e ↦ rw e h.1
    | inr e ↦ rw e (find-erase_other k j rest (differ j k e) ∙ h.0, erase-IsTable k rest h.1)
  ]

  pub replace-IsTable : (k : ℕ) (s : A) (t : List (ℕ × A)) → IsTable t → IsTable (replace k s t)
  unfolding replace
  replace-IsTable k s [] h = tt
  replace-IsTable k s ((j, u) ∷ rest) h =
      ground (arith, h.0, h.1, replace_absent k j s rest, replace-IsTable k s rest h.1)

  pub each-IsTable : (f : A → A) (t : List (ℕ × A)) → IsTable t → IsTable (each f t)
  unfolding each
  each-IsTable f [] h = tt
  each-IsTable f ((k, s) ∷ rest) h = (rw (find-each f k rest, h.0) refl, each-IsTable f rest h.1)

  pub find-cons_other :
      (k j : ℕ) (u : A) (t : List (ℕ × A)) → j ≢ k → find j ((k, u) ∷ t) ≡ find j t
  unfolding find
  find-cons_other k j u t h = ground arith

  pub find-cons_self : (k : ℕ) (u : A) (t : List (ℕ × A)) → find k ((k, u) ∷ t) ≡ some u
  unfolding find
  find-cons_self k u t = ground arith

  -- Equal tables by what is found in them.
  pub empty_of_find : (t : List (ℕ × A)) → ((k : ℕ) → find k t ≡ none) → t ≡ []
  empty_of_find [] h = refl
  empty_of_find ((k, u) ∷ rest) h = cc (find-cons_self k u rest, h k)
