-- ===== src/Notifier/DropDead.antt =====
-- `RawNotifier::drop_dead_listeners`: the loop over indices with `swap_remove` ends within its
-- rounds, and keeps exactly the live entries, in some order.
use mathlib.Core.Bool.{Bool-discrete}
use mathlib.Core.List.{filter, Perm}
use mathlib.Core.List.Perm
use nosy.Prelude.{
  ℕ, zero, suc, ◌≤◌, ◌≡◌, refl, ap, ◌∙◌, Bool, true, false, ◌&&◌, some, List, [], ◌∷◌, ◌++◌,
  append_assoc, All, arith, length, length-append, Bool-cases, inl, inr,
}
use nosy.Exec.{ok}
use nosy.Listener.{Listener, IsLawful}
use nosy.Notifier.Raw.{
  NotifierEntry, RawNotifier, get_elem?, rotate_last, swap_remove, ask, drop_loop,
  drop_dead_listeners,
}
use nosy.Notifier.Delivery.{answer, receive-nil, AllLawful}
use nosy.Notifier.SwapRemove.{
  rotate_last-perm, length-rotate_last, get_elem?-middle, get_elem?-end, swap_remove-middle,
}

module _ {W L M : Type 0} (lis : Listener W L M) where
  -- What the loop asks of an entry, in the world `w`.
  abbrev pub stays : NotifierEntry L → W → Bool
  stays e w = e.was_alive && answer lis e.listener [] w

  -- The loop on the items that it has not passed yet.
  unfoldable pub sweep : ℕ → List (NotifierEntry L) → W → List (NotifierEntry L)
  sweep zero rest w = rest
  sweep (suc n) [] w = []
  sweep (suc n) (e ∷ rest) w = elim (stays e w) [
    | true ↦ e ∷ sweep n rest w
    | false ↦ sweep n (rotate_last rest) w
  ]

  module _ (n : ℕ) (e : NotifierEntry L) (rest : List (NotifierEntry L)) (w : W) where
    sweep-live : stays e w ≡ true → sweep (suc n) (e ∷ rest) w ≡ e ∷ sweep n rest w
    unfolding sweep
    sweep-live p = rw (p, sweep)

    sweep-dead : stays e w ≡ false → sweep (suc n) (e ∷ rest) w ≡ sweep n (rotate_last rest) w
    unfolding sweep
    sweep-dead p = rw (p, sweep)

  module _ (n i : ℕ) (es : List (NotifierEntry L)) (e : NotifierEntry L) (w : W) where
    drop_loop-live :
        get_elem? es i ≡ some e
        → ask lis e w ≡ (ok true, w)
        → drop_loop lis (suc n) i es w ≡ drop_loop lis n (suc i) es w
    unfolding drop_loop
    drop_loop-live g q = rw (g, drop_loop) (rw q (rw q))

    drop_loop-dead :
        get_elem? es i ≡ some e
        → ask lis e w ≡ (ok false, w)
        → drop_loop lis (suc n) i es w ≡ drop_loop lis n i (swap_remove es i) w
    unfolding drop_loop
    drop_loop-dead g q = rw (g, drop_loop) (rw q (rw q))

  length-snoc :
      (kept : List (NotifierEntry L)) (e : NotifierEntry L)
      → length (kept ++ e ∷ []) ≡ suc (length kept)
  length-snoc kept e = omega (arith, length-append kept (e ∷ []))

  sweep-All :
      (n : ℕ) (rest : List (NotifierEntry L)) (w : W)
      → length rest ≤ n
      → All (λ e. stays e w ≡ true) (sweep n rest w)
  unfolding sweep
  sweep-All zero [] w h = tt
  sweep-All zero (e ∷ rest) w h = absurd (omega arith)
  sweep-All (suc n) [] w h = tt
  sweep-All (suc n) (e ∷ rest) w h = elim (Bool-cases (stays e w)) [
    | inl p ↦ rw (sweep-live n e rest w p) (p, sweep-All n rest w (omega arith))
    | inr p ↦
        rw (sweep-dead n e rest w p)
          (sweep-All n (rotate_last rest) w (omega (arith, length-rotate_last rest)))
  ]

  abbrev pub live : W → List (NotifierEntry L) → List (NotifierEntry L)
  live w = filter (λ e. Bool-discrete (stays e w) true)

  sweep-perm :
      (n : ℕ) (rest : List (NotifierEntry L)) (w : W)
      → length rest ≤ n
      → Perm (sweep n rest w) (live w rest)
  unfolding sweep
  sweep-perm zero [] w h = Perm.refl []
  sweep-perm zero (e ∷ rest) w h = absurd (omega arith)
  sweep-perm (suc n) [] w h = Perm.refl []
  sweep-perm (suc n) (e ∷ rest) w h = elim (Bool-cases (stays e w)) [
    | inl p ↦ rw (sweep-live n e rest w p) (rw p (Perm.cons e (sweep-perm n rest w (omega arith))))
    | inr p ↦ rw (sweep-dead n e rest w p) (
        rw p (
          Perm.trans (sweep-perm n (rotate_last rest) w (omega (arith, length-rotate_last rest)))
            (Perm.filter _ (rotate_last-perm rest))))
  ]

module _ {W L M : Type 0} (lis : Listener W L M) (Inv : W → Type 0) where
  ask_at :
      (l : L) (b : Bool) (w : W)
      → Inv w
      → IsLawful lis Inv l
      → ask lis (record { listener = l; was_alive = b }) w ≡ (ok (b && answer lis l [] w), w)
  unfolding ask
  ask_at l false w i h = refl
  ask_at l true w i h = receive-nil lis Inv l w i h

  pub ask_lem :
      (e : NotifierEntry L) (w : W)
      → Inv w
      → IsLawful lis Inv e.listener
      → ask lis e w ≡ (ok (stays lis e w), w)
  ask_lem e w i h = ask_at e.listener e.was_alive w i h

  All-rotate_last :
      (P : NotifierEntry L → Type 0) (es : List (NotifierEntry L)) (e : NotifierEntry L)
      → All P (e ∷ es)
      → All P (rotate_last (e ∷ es))
  unfolding rotate_last
  All-rotate_last P [] e h = h
  All-rotate_last P (f ∷ es) e h = ground (arith, All-rotate_last P es f h.1)

  All-rotate :
      (P : NotifierEntry L → Type 0) (es : List (NotifierEntry L))
      → All P es
      → All P (rotate_last es)
  unfolding rotate_last
  All-rotate P [] h = tt
  All-rotate P (e ∷ es) h = All-rotate_last P es e h

  -- What holds of every entry holds of those that are left.
  pub All-sweep :
      (P : NotifierEntry L → Type 0) (n : ℕ) (es : List (NotifierEntry L)) (w : W)
      → All P es
      → All P (sweep lis n es w)
  unfolding sweep
  All-sweep P zero es w h = h
  All-sweep P (suc n) [] w h = tt
  All-sweep P (suc n) (e ∷ es) w h = elim (Bool-cases (stays lis e w)) [
    | inl q ↦ rw (sweep-live lis n e es w q) (h.0, All-sweep P n es w h.1)
    | inr q ↦
        rw (sweep-dead lis n e es w q) (All-sweep P n (rotate_last es) w (All-rotate P es h.1))
  ]

  drop_loop-sweep :
      (n : ℕ) (kept rest : List (NotifierEntry L)) (w : W)
      → Inv w
      → AllLawful lis Inv rest
      → drop_loop lis n (length kept) (kept ++ rest) w ≡ (ok tt, (kept ++ sweep lis n rest w, w))
  unfolding drop_loop sweep
  drop_loop-sweep zero kept rest w i h = refl
  drop_loop-sweep (suc n) kept [] w i h = rw (get_elem?-end kept, drop_loop)
  drop_loop-sweep (suc n) kept (e ∷ rest) w i h = elim (Bool-cases (stays lis e w)) [
    | inl p ↦ rw (sweep-live lis n e rest w p) (
        drop_loop-live lis n (length kept) (kept ++ e ∷ rest) e w (get_elem?-middle kept e rest)
          (ask_lem e w i h.0 ∙ rw p)
        ∙ rw (← length-snoc lis kept e, ← append_assoc kept (e ∷ []) rest)
            (drop_loop-sweep n (kept ++ e ∷ []) rest w i h.1
              ∙ ap (λ es. (ok tt, (es, w))) (append_assoc kept (e ∷ []) (sweep lis n rest w))))
    | inr p ↦ rw (sweep-dead lis n e rest w p) (
        drop_loop-dead lis n (length kept) (kept ++ e ∷ rest) e w (get_elem?-middle kept e rest)
          (ask_lem e w i h.0 ∙ rw p)
        ∙ rw (swap_remove-middle kept e rest) (
            drop_loop-sweep n kept (rotate_last rest) w i
              (All-rotate (λ e. IsLawful lis Inv e.listener) rest h.1)))
  ]

  -- When the listeners keep the requirements, the loop ends without a panic and leaves the world
  -- alone; every entry that is left is alive, and together they are the live entries, in some
  -- order.
  pub drop_dead_listeners_lem :
      (raw : RawNotifier L) (w : W)
      → Inv w
      → AllLawful lis Inv raw.listeners
      → (es : List (NotifierEntry L)) × (drop_dead_listeners lis (raw, w)
          ≡ (ok tt, (record raw { listeners = es }, w)))
        × All (λ e. stays lis e w ≡ true) es
        × Perm es (live lis w raw.listeners)
  unfolding drop_dead_listeners
  drop_dead_listeners_lem raw w i h =
      let n = length raw.listeners in
      (
        sweep lis n raw.listeners w,
        rw (drop_loop-sweep n [] raw.listeners w i h),
        sweep-All lis n raw.listeners w (omega arith),
        sweep-perm lis n raw.listeners w (omega arith),
      )

  pub drop_dead_listeners-sweep :
      (raw : RawNotifier L) (w : W)
      → Inv w
      → AllLawful lis Inv raw.listeners
      → drop_dead_listeners lis (raw, w)
        ≡ (ok tt, (record raw { listeners = sweep lis (length raw.listeners) raw.listeners w }, w))
  unfolding drop_dead_listeners
  drop_dead_listeners-sweep raw w i h =
      rw (drop_loop-sweep (length raw.listeners) [] raw.listeners w i h)

  pub length-sweep :
      (n : ℕ) (es : List (NotifierEntry L)) (w : W) → length (sweep lis n es w) ≤ length es
  unfolding sweep
  length-sweep zero es w = omega arith
  length-sweep (suc n) [] w = omega arith
  length-sweep (suc n) (e ∷ es) w = elim (Bool-cases (stays lis e w)) [
    | inl q ↦ rw (sweep-live lis n e es w q) (omega (arith, length-sweep n es w))
    | inr q ↦
        rw (sweep-dead lis n e es w q)
          (omega (arith, length-sweep n (rotate_last es) w, length-rotate_last es))
  ]
