-- ===== src/Notifier/Rounds.antt =====
-- `RawNotifier::drop_dead_listeners` ends by itself: whatever the listeners do, its loop makes no
-- more rounds than there are entries.
use nosy.Prelude.{
  ℕ, zero, suc, ◌+◌, ◌≤◌, ◌≡◌, refl, ap, ◌∙◌, true, false, none, some, List, [], ◌∷◌, arith, length,
  leb, Bool-cases, Option-cases, inl, inr,
}
use nosy.Exec.{ok, Result-cases}
use nosy.Listener.{Listener}
use nosy.Notifier.Raw.{NotifierEntry, get_elem?, swap_remove, ask, drop_loop}
use nosy.Notifier.SwapRemove.{length-rotate_last}

module _ {ℓ} {A : Type ℓ} where
  pub get_elem?-past : (xs : List A) (i : ℕ) → length xs ≤ i → get_elem? xs i ≡ none
  get_elem?-past [] i h = refl
  get_elem?-past (x ∷ xs) zero h = absurd (omega arith)
  get_elem?-past (x ∷ xs) (suc i) h = get_elem?-past xs i (omega arith)

  pub length-swap_remove :
      (xs : List A) (i : ℕ) (x : A)
      → get_elem? xs i ≡ some x
      → suc (length (swap_remove xs i)) ≡ length xs
  unfolding swap_remove
  length-swap_remove [] i x e = absurd (grind arith)
  length-swap_remove (y ∷ xs) zero x e = ap suc (length-rotate_last xs)
  length-swap_remove (y ∷ xs) (suc i) x e = ap suc (length-swap_remove xs i x e)

module _ {W L M : Type 0} (lis : Listener W L M) where
  past_end :
      (n i : ℕ) (es : List (NotifierEntry L)) (w : W)
      → get_elem? es i ≡ none
      → drop_loop lis n i es w ≡ (ok tt, (es, w))
  unfolding drop_loop
  past_end zero i es w e = refl
  past_end (suc n) i es w e = rw (e, drop_loop)

  one_more :
      (n i : ℕ) (es : List (NotifierEntry L)) (w : W)
      → length es ≤ n + i
      → drop_loop lis (suc n) i es w ≡ drop_loop lis n i es w
  unfolding drop_loop
  one_more zero i es w h = past_end 1 i es w (get_elem?-past es i (omega arith))
  one_more (suc n) i es w h = elim (Option-cases (get_elem? es i)) [
    | inl e ↦ rw (e, drop_loop) refl
    | inr (x, e) ↦ elim (Result-cases (ask lis x w).0) [
      | inr (p, q) ↦ rw (e, drop_loop) (rw q refl)
      | inl (true, q) ↦
          rw (e, drop_loop) (rw q (one_more n (suc i) es (ask lis x w).1 (omega arith)))
      | inl (false, q) ↦
          rw (e, drop_loop)
            (rw q (
              one_more n i (swap_remove es i) (ask lis x w).1
                (omega (arith, length-swap_remove es i x e))))
    ]
  ]

  -- Whatever the listeners do, panics included, the loop of `drop_dead_listeners` is over after as
  -- many rounds as there are entries: with more rounds the result is the same.
  pub drop_loop_rounds :
      (n : ℕ) (es : List (NotifierEntry L)) (w : W)
      → length es ≤ n
      → drop_loop lis n 0 es w ≡ drop_loop lis (length es) 0 es w
  drop_loop_rounds zero es w h = ap (λ n. drop_loop lis n 0 es w) (omega arith)
  drop_loop_rounds (suc n) es w h = elim (Bool-cases (leb (length es) n)) [
    | inl e ↦ one_more n 0 es w (ground arith) ∙ drop_loop_rounds n es w (ground arith)
    | inr e ↦ ap (λ m. drop_loop lis m 0 es w) (ground arith)
  ]
