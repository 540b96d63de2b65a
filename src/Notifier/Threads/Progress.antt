-- ===== src/Notifier/Threads/Progress.antt =====
-- Threads that call one notifier do not hold each other up for ever: in every round of turns one of
-- them gets on, until all have made their calls.
use nosy.Prelude.{
  ℕ, zero, suc, ◌+◌, ◌≤◌, ◌≡◌, refl, ap, ◌∙◌, Option, none, some, List, [], ◌∷◌, All, set, length,
  arith, ◌⊎◌, inl, inr,
}
use nosy.Listener.{Listener}
use nosy.Notifier.Raw.{get_elem?}
use nosy.Notifier.Concurrent.Calm.{All-get_elem?}
use nosy.Notifier.Threads.{Client, Shared, turn, turn_of, run}
use nosy.Notifier.Threads.Exclusion.{sum, sum-ge, sum-set, reading}
use nosy.Notifier.Threads.Ongoing.{Fine}
use nosy.Notifier.Threads.Rounds.{Sound, turn-After, turn-Sound}
use nosy.Notifier.Threads.Work.{work, turn-Moves}
use nosy.Notifier.Threads.Additions.{additions, entries_in, turn-Expected}

module _ {A : Type 0} where
  pub set-get : (xs : List A) (i : ℕ) (x : A) → get_elem? xs i ≡ some x → set xs i x ≡ xs
  set-get [] i x e = refl
  set-get (y ∷ ys) zero x e = grind arith
  set-get (y ∷ ys) (suc i) x e = ap (λ zs. y ∷ zs) (set-get ys i x e)

  pub get-set :
      (xs : List A) (i : ℕ) (x v : A) → get_elem? xs i ≡ some x → get_elem? (set xs i v) i ≡ some v
  get-set [] i x v e = absurd (grind arith)
  get-set (y ∷ ys) zero x v e = refl
  get-set (y ∷ ys) (suc i) x v e = get-set ys i x v e

  pub length-set : (xs : List A) (i : ℕ) (v : A) → length (set xs i v) ≡ length xs
  length-set [] i v = refl
  length-set (x ∷ xs) zero v = refl
  length-set (x ∷ xs) (suc i) v = ap suc (length-set xs i v)

module _ {W L M : Type 0} (lis : Listener W L M) (grow : ℕ → ℕ) (n : ℕ) where
  -- There are never more than `n` entries.
  pub record Bounded (cs : List (Client L M)) (s : Shared W L) : Type 0 where
    pub sound : Sound lis grow cs s
    pub few : entries_in s + sum additions cs ≤ n

  pub turn-Bounded :
      (v : Option (Client L M)) (i : ℕ) (cs : List (Client L M)) (s : Shared W L)
      → get_elem? cs i ≡ v
      → Bounded cs s
      → (let next = turn_of lis grow v i cs s in Bounded next.0 next.1)
  turn-Bounded none i cs s e h = h
  turn-Bounded (some c) i cs s e h =
      let next = turn lis grow c s in
      let x = h.sound.excluded in
      let r = sum-ge reading cs i c e in
      let t =
        turn-Expected lis grow c s (omega (arith, x.readers))
          (turn-After lis grow i c cs s e h.sound) in
      record {
        sound = turn-Sound lis grow (some c) i cs s e h.sound;
        few = omega (arith, t, h.few, sum-set additions cs i c next.0 e);
      }

  turn_of-Moves :
      (v : Option (Client L M)) (i : ℕ) (cs : List (Client L M)) (s : Shared W L)
      → get_elem? cs i ≡ v
      → Bounded cs s
      → (let next = turn_of lis grow v i cs s in
          (next ≡ (cs, s)) ⊎ (suc (sum (work n) next.0) ≤ sum (work n) cs))
  turn_of-Moves none i cs s e h = inl refl
  turn_of-Moves (some c) i cs s e h =
      let next = turn lis grow c s in
      let f = All-get_elem? (Fine s.lock.value) cs i c h.sound.fine e in
      elim (turn-Moves lis grow n c s f.0 (omega (arith, h.few))) [
        | inl q ↦ inl (ap (λ x. (set cs i x.0, x.1)) q ∙ ap (λ x. (x, s)) (set-get cs i c e))
        | inr d ↦ inr (omega (arith, d, sum-set (work n) cs i c next.0 e))
      ]

  -- A turn of each of these threads would change nothing.
  abbrev pub Still : List (Client L M) → Shared W L → List ℕ → Type 0
  Still cs s = All (λ i. turn_of lis grow (get_elem? cs i) i cs s ≡ (cs, s))

  run-le :
      (schedule : List ℕ) (cs : List (Client L M)) (s : Shared W L)
      → Bounded cs s
      → sum (work n) (run lis grow schedule cs s).0 ≤ sum (work n) cs
  unfolding run
  run-le [] cs s h = omega arith
  run-le (i ∷ schedule) cs s h =
      let next = turn_of lis grow (get_elem? cs i) i cs s in
      let t = run-le schedule next.0 next.1 (turn-Bounded (get_elem? cs i) i cs s refl h) in
      elim (turn_of-Moves (get_elem? cs i) i cs s refl h) [
        | inl q ↦ omega (arith, t, ap (λ x. sum (work n) x.0) q)
        | inr d ↦ omega (arith, t, d)
      ]

  -- In a round of turns some thread gets on, or none can.
  pub run-Moves :
      (schedule : List ℕ) (cs : List (Client L M)) (s : Shared W L)
      → Bounded cs s
      → ((run lis grow schedule cs s ≡ (cs, s)) × Still cs s schedule)
        ⊎ (suc (sum (work n) (run lis grow schedule cs s).0) ≤ sum (work n) cs)
  unfolding run
  run-Moves [] cs s h = inl (refl, tt)
  run-Moves (i ∷ schedule) cs s h =
      let next = turn_of lis grow (get_elem? cs i) i cs s in
      let b = turn-Bounded (get_elem? cs i) i cs s refl h in
      elim (turn_of-Moves (get_elem? cs i) i cs s refl h) [
        | inl q ↦ elim (run-Moves schedule cs s h) [
          | inl (r, t) ↦ inl (ap (λ x. run lis grow schedule x.0 x.1) q ∙ r, (q, t))
          | inr d ↦
              inr (omega (arith, d, ap (λ x. sum (work n) (run lis grow schedule x.0 x.1).0) q))
        ]
        | inr d ↦ inr (omega (arith, d, run-le schedule next.0 next.1 b))
      ]
