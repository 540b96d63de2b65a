-- ===== src/Notifier/SwapRemove.antt =====
-- `Vec::swap_remove`, and what it takes from a list.
use mathlib.Core.List.{Perm}
use mathlib.Core.List.Perm
use nosy.Prelude.{◌≡◌, refl, ap, none, some, List, [], ◌∷◌, ◌++◌, arith, length}
use nosy.Notifier.Raw.{get_elem?, rotate_last, swap_remove}

module _ {ℓ} {A : Type ℓ} where
  pub rotate_last-perm : (xs : List A) → Perm (rotate_last xs) xs
  unfolding rotate_last
  rotate_last-perm [] = Perm.refl []
  rotate_last-perm (x ∷ xs) = turn (rotate_last xs) (rotate_last-perm xs)
    where
      turn :
          (ys : List A)
          → Perm ys xs
          → Perm (elim ys as (λ _. List A) [ [] ↦ x ∷ [] | y ∷ zs ↦ y ∷ x ∷ zs ]) (x ∷ xs)
      turn [] p = Perm.cons x p
      turn (y ∷ zs) p = Perm.trans (Perm.swap x y zs) (Perm.cons x p)

  pub length-rotate_last : (xs : List A) → length (rotate_last xs) ≡ length xs
  unfolding rotate_last
  length-rotate_last [] = refl
  length-rotate_last (x ∷ xs) = ground (arith, length-rotate_last xs)

  pub get_elem?-middle :
      (xs : List A) (x : A) (ys : List A) → get_elem? (xs ++ x ∷ ys) (length xs) ≡ some x
  get_elem?-middle [] x ys = refl
  get_elem?-middle (y ∷ xs) x ys = get_elem?-middle xs x ys

  pub get_elem?-end : (xs : List A) → get_elem? (xs ++ []) (length xs) ≡ none
  get_elem?-end [] = refl
  get_elem?-end (y ∷ xs) = get_elem?-end xs

  pub swap_remove-middle :
      (xs : List A) (x : A) (ys : List A)
      → swap_remove (xs ++ x ∷ ys) (length xs) ≡ xs ++ rotate_last ys
  unfolding swap_remove
  swap_remove-middle [] x ys = refl
  swap_remove-middle (y ∷ xs) x ys = ap (◌∷◌ y) (swap_remove-middle xs x ys)
