-- ===== src/Notifier/Threads/Finished.antt =====
-- All the calls that threads make of one notifier come to an end: nobody waits for ever.
use mathlib.Core.Path.{subst}
use nosy.Prelude.{
  ℕ, ◌+◌, ◌*◌, ◌<◌, ◌≡◌, refl, sym, ap, ◌∙◌, Option, none, some, List, [], ◌∷◌, ◌++◌, All, set,
  length, arith, ◌⊎◌, inl, inr,
}
use nosy.Listener.{Listener}
use nosy.Notifier.Raw.{get_elem?}
use nosy.Notifier.Calls.{Call}
use nosy.Notifier.Concurrent.Calm.{All-get_elem?}
use nosy.Notifier.Threads.{outside, Client, Shared, act, turn, turn_of, run}
use nosy.Notifier.Threads.Exclusion.{sum, Resting}
use nosy.Notifier.Threads.Rounds.{Resting-Sound}
use nosy.Notifier.Threads.Work.{work, left, left_for, get_elem?-lt}
use nosy.Notifier.Threads.Additions.{additions, entries_in}
use nosy.Notifier.Threads.Progress.{set-get, length-set, Bounded, turn-Bounded, run-Moves}
use nosy.Notifier.Threads.Deadlock.{Finished, still_turn, no_deadlock}

-- A number is in a list.
abbrev pub Listed : ℕ → List ℕ → Type 0
Listed i [] = ⊥
Listed i (j ∷ js) = (i ≡ j) ⊎ Listed i js

-- A round gives each of `k` threads a turn.
abbrev pub Covers : ℕ → List ℕ → Type 0
Covers k round = (i : ℕ) → i < k → Listed i round

abbrev pub concat : List (List ℕ) → List ℕ
concat [] = []
concat (r ∷ rs) = r ++ concat rs

All-Listed : (P : ℕ → Type 0) (i : ℕ) (js : List ℕ) → Listed i js → All P js → P i
All-Listed P i [] m h = absurd m
All-Listed P i (j ∷ js) (inl e) h = subst P (sym e) h.0
All-Listed P i (j ∷ js) (inr m) h = All-Listed P i js m h.1

module _ {W L M : Type 0} (lis : Listener W L M) (grow : ℕ → ℕ) (n : ℕ) where
  Finished-still :
      (v : Option (Client L M)) (i : ℕ) (cs : List (Client L M)) (s : Shared W L)
      → get_elem? cs i ≡ v
      → All Finished cs
      → turn_of lis grow v i cs s ≡ (cs, s)
  unfolding turn
  Finished-still none i cs s e f = refl
  Finished-still (some c) i cs s e f =
      let g = All-get_elem? Finished cs i c f e in
      let q : act lis grow c.stage c.calls c s ≡ (c, s) =
        subst (λ x. act lis grow x c.calls c s ≡ (c, s)) (sym g.0)
          (subst (λ k. act lis grow outside k c s ≡ (c, s)) (sym g.1) refl) in
      ap (λ x. (set cs i x.0, x.1)) q ∙ ap (λ x. (x, s)) (set-get cs i c e)

  still_run :
      (schedule : List ℕ) (cs : List (Client L M)) (s : Shared W L)
      → All Finished cs
      → run lis grow schedule cs s ≡ (cs, s)
  unfolding run
  still_run [] cs s f = refl
  still_run (i ∷ schedule) cs s f =
      ap (λ x. run lis grow schedule x.0 x.1) (Finished-still (get_elem? cs i) i cs s refl f)
      ∙ still_run schedule cs s f

  turn_of-length :
      (v : Option (Client L M)) (i : ℕ) (cs : List (Client L M)) (s : Shared W L)
      → length (turn_of lis grow v i cs s).0 ≡ length cs
  turn_of-length none i cs s = refl
  turn_of-length (some c) i cs s = length-set cs i (turn lis grow c s).0

  run-Bounded :
      (schedule : List ℕ) (cs : List (Client L M)) (s : Shared W L)
      → Bounded lis grow n cs s
      → (let end = run lis grow schedule cs s in
          Bounded lis grow n end.0 end.1 × (length end.0 ≡ length cs))
  unfolding run
  run-Bounded [] cs s h = (h, refl)
  run-Bounded (i ∷ schedule) cs s h =
      let v = get_elem? cs i in
      let next = turn_of lis grow v i cs s in
      let (b, e) = run-Bounded schedule next.0 next.1 (turn-Bounded lis grow n v i cs s refl h) in
      (b, e ∙ turn_of-length v i cs s)

  pub run-append :
      (xs ys : List ℕ) (cs : List (Client L M)) (s : Shared W L)
      → run lis grow (xs ++ ys) cs s
        ≡ (let mid = run lis grow xs cs s in run lis grow ys mid.0 mid.1)
  unfolding run
  run-append [] ys cs s = refl
  run-append (i ∷ xs) ys cs s =
      let next = turn_of lis grow (get_elem? cs i) i cs s in run-append xs ys next.0 next.1

  rounds-Finished :
      (rounds : List (List ℕ)) (cs : List (Client L M)) (s : Shared W L)
      → Bounded lis grow n cs s
      → All (Covers (length cs)) rounds
      → sum (work n) cs < length rounds
      → All Finished (run lis grow (concat rounds) cs s).0
  rounds-Finished [] cs s h c l = absurd (omega arith)
  rounds-Finished (r ∷ rs) cs s h c l =
      let mid = run lis grow r cs s in
      let (b, e) = run-Bounded r cs s h in
      rw (run-append r (concat rs) cs s) (elim (run-Moves lis grow n r cs s h) [
        | inl (q, still) ↦
            let f = no_deadlock lis grow n cs s h (λ i x g. still_turn lis grow n i x cs s g (
              All-Listed (λ i. turn_of lis grow (get_elem? cs i) i cs s ≡ (cs, s)) i r
                (c.0 i (get_elem?-lt cs i x g)) still)) in
            rw q (rw (still_run (concat rs) cs s f) f)
        | inr d ↦ rounds-Finished rs mid.0 mid.1 b (rw e c.1) (omega arith)
      ])

module _ {L M : Type 0} where
  left_for-lem : (n : ℕ) (calls : List (Call L M)) → left_for n calls ≡ (2 * n + 2) * length calls
  left_for-lem n [] = omega arith
  left_for-lem n (call ∷ calls) = grind (arith, left_for-lem n calls)

  work_at_rest :
      (n : ℕ) (cs : List (Client L M))
      → All (λ c. (c.stage ≡ outside) × (c.history ≡ [])) cs
      → sum (work n) cs ≡ (2 * n + 2) * sum (λ c. length c.calls) cs
  work_at_rest n [] h = omega arith
  work_at_rest n (c ∷ cs) h =
      let e = ap (left n) h.0.0 in grind (arith, e, left_for-lem n c.calls, work_at_rest n cs h.1)

module _ {W L M : Type 0} (lis : Listener W L M) (grow : ℕ → ℕ) where
  -- Threads that call one notifier all come to the end of their calls, whatever its listeners
  -- answer and do, panics included, if the listeners neither reach back into the notifier nor wait,
  -- each thread has a turn in every round and there are more rounds than `2 * n + 2` for each call,
  -- where `n` is the number of entries and of calls that may add one.
  pub run-Finished :
      (rounds : List (List ℕ)) (cs : List (Client L M)) (s : Shared W L)
      → Resting cs s
      → All (Covers (length cs)) rounds
      → (2 * (entries_in s + sum additions cs) + 2) * sum (λ c. length c.calls) cs < length rounds
      → All Finished (run lis grow (concat rounds) cs s).0
  run-Finished rounds cs s r c h =
      let n = entries_in s + sum additions cs in
      rounds-Finished lis grow n rounds cs s
        (record { sound = Resting-Sound lis grow cs s r; few = omega arith }) c
        (omega (arith, h, work_at_rest n cs r.idle))
