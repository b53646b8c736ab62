-- ===== src/Server/Table/Entries.antt =====
-- What holds of every entry of a server's table of sessions.
use cxx_server.Common.{
  ℕ, ◌≡◌, ◌≢◌, ◌∙◌, subst, sym, List, [], ◌∷◌, none, some, ◌==◌, inl, inr, Bool-cases,
}
use cxx_server.Server.Table.{
  agree, differ, find, emplace, erase, replace, each, IsTable, find-erase, find-cons_self,
  find-cons_other,
}

module _ {ℓ} {A : Type ℓ} where
  -- Every entry of the table satisfies `P`.
  abbrev pub All {κ} : (ℕ → A → Type κ) → List (ℕ × A) → Type κ
  All P [] = Unit
  All P ((k, u) ∷ rest) = P k u × All P rest

  pub each-All {κ κ'} :
      (P : ℕ → A → Type κ) (Q : ℕ → A → Type κ') (f : A → A)
      → ((j : ℕ) (u : A) → P j u → Q j (f u))
      → (t : List (ℕ × A)) → All P t
      → All Q (each f t)
  unfolding each
  each-All P Q f k [] h = tt
  each-All P Q f k ((j, u) ∷ rest) h = (k j u h.0, each-All P Q f k rest h.1)

  pub each_every {κ} :
      (Q : ℕ → A → Type κ) (f : A → A)
      → ((j : ℕ) (u : A) → Q j (f u))
      → (t : List (ℕ × A)) → All Q (each f t)
  unfolding each
  each_every Q f k [] = tt
  each_every Q f k ((j, u) ∷ rest) = (k j u, each_every Q f k rest)

  pub map-All {κ κ'} :
      (P : ℕ → A → Type κ) (Q : ℕ → A → Type κ')
      → ((j : ℕ) (u : A) → P j u → Q j u)
      → (t : List (ℕ × A)) → All P t
      → All Q t
  map-All P Q k [] h = tt
  map-All P Q k ((j, u) ∷ rest) h = (k j u h.0, map-All P Q k rest h.1)

  pub both-All {κ κ'} :
      (P : ℕ → A → Type κ) (Q : ℕ → A → Type κ') (t : List (ℕ × A))
      → All P t
      → All Q t
      → All (λ j u. P j u × Q j u) t
  both-All P Q [] g h = tt
  both-All P Q ((j, u) ∷ rest) g h = ((g.0, h.0), both-All P Q rest g.1 h.1)

  pub emplace-All {κ} :
      (P : ℕ → A → Type κ) (k : ℕ) (u : A) (t : List (ℕ × A))
      → P k u
      → All P t
      → All P (emplace k u t)
  unfolding emplace
  emplace-All P k u [] i h = (i, tt)
  emplace-All P k u ((j, w) ∷ rest) i h = elim (Bool-cases (j == k)) [
    | inl e ↦ rw e h
    | inr e ↦ rw e (h.0, emplace-All P k u rest i h.1)
  ]

  pub erase-All {κ} : (P : ℕ → A → Type κ) (k : ℕ) (t : List (ℕ × A)) → All P t → All P (erase k t)
  unfolding erase
  erase-All P k [] h = tt
  erase-All P k ((j, w) ∷ rest) h = elim (Bool-cases (j == k)) [
    | inl e ↦ rw e h.1
    | inr e ↦ rw e (h.0, erase-All P k rest h.1)
  ]

  pub replace-All {κ} :
      (P : ℕ → A → Type κ) (k : ℕ) (u : A) (t : List (ℕ × A))
      → P k u
      → All P t
      → All P (replace k u t)
  unfolding replace
  replace-All P k u [] i h = tt
  replace-All P k u ((j, w) ∷ rest) i h = elim (Bool-cases (j == k)) [
    | inl e ↦ rw e (subst (λ (n : ℕ). P n u) (sym (agree j k e)) i, h.1)
    | inr e ↦ rw e (h.0, replace-All P k u rest i h.1)
  ]

  pub find-All {κ} :
      (P : ℕ → A → Type κ) (k : ℕ) (u : A) (t : List (ℕ × A)) → All P t → find k t ≡ some u → P k u
  unfolding find
  find-All P k u [] h q = cc
  find-All P k u ((j, w) ∷ rest) h q = elim (Bool-cases (j == k)) [
    | inl e ↦
        let same : w ≡ u = cc (rw e at q) in
        subst (λ (n : ℕ). P n u) (agree j k e) (subst (P j) same h.0)
    | inr e ↦ find-All P k u rest h.1 (rw e at q)
  ]

  absent-All : (k : ℕ) (t : List (ℕ × A)) → find k t ≡ none → All (λ j u. j ≢ k) t
  unfolding find
  absent-All k [] h = tt
  absent-All k ((j, w) ∷ rest) h = elim (Bool-cases (j == k)) [
    | inl e ↦ cc (rw e at h)
    | inr e ↦ (differ j k e, absent-All k rest (rw e at h))
  ]

  -- What is left after the erasure has other keys.
  pub erase_others : (k : ℕ) (t : List (ℕ × A)) → IsTable t → All (λ j u. j ≢ k) (erase k t)
  erase_others k t h = absent-All k (erase k t) (find-erase k t h)

  -- What holds of all that is found holds of every entry.
  pub found-All {κ} :
      (P : ℕ → A → Type κ) (t : List (ℕ × A))
      → IsTable t
      → ((k : ℕ) (u : A) → find k t ≡ some u → P k u)
      → All P t
  found-All P [] i h = tt
  found-All P ((k, u) ∷ rest) i h = (
    h k u (find-cons_self k u rest),
    found-All P rest i.1 (λ j w q.
        h j w
          (find-cons_other k j u rest (λ e. absent (subst (λ n. find n rest ≡ some w) e q)) ∙ q)),
  )
    where
      absent : {w : A} → find k rest ≡ some w → ⊥
      absent q = cc (i.0, q)
