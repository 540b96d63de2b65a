-- ===== src/Notifier/Concurrent/Once.antt =====
-- Every thread that delivers comes to the end of the entries, and is at each entry once.
use nosy.Prelude.{
  ℕ, zero, suc, ◌*◌, ◌<◌, ◌≤◌, ◌≡◌, ◌⊎◌, refl, some, List, [], ◌∷◌, length, arith, inl, inr,
}
use nosy.Listener.{Listener}
use nosy.Notifier.Raw.{get_elem?}
use nosy.Notifier.Concurrent.{
  Phase, calling, marking, stopped, Delivery, Common, Deliveries, begin, advance, turn, run,
}
use nosy.Notifier.Concurrent.Progress.{turns, left_in, called_in, calls, run_left, run-calls}

module _ {W L M : Type 0} (lis : Listener W L M) where
  -- A thread that is behind the last of `n` entries, or that a listener's panic has ended.
  abbrev pub Ended : ℕ → Delivery M → Type 0
  Ended n t = ((t.phase ≡ calling) × (n ≤ t.index)) ⊎ (t.phase ≡ stopped)

  pub none_left :
      (n i : ℕ) (x : Phase) (ms : List M)
      → left_in n x i ≤ 0
      → Ended n (record { index = i; phase = x; messages = ms })
  none_left n i calling ms h = inl (refl, omega arith)
  none_left n i (marking alive) ms h = absurd (omega arith)
  none_left n i stopped ms h = inr refl

  turn-some :
      (j i : ℕ) (ts : List (Delivery M)) (c : Common W L) (t : Delivery M)
      → get_elem? ts j ≡ some t
      → (u : Delivery M) × (get_elem? (turn lis i ts c).0 j ≡ some u)
  unfolding turn
  turn-some j i [] c t e = (t, e)
  turn-some zero zero (x ∷ ts) c t e = ((advance lis x c).0, refl)
  turn-some (suc j) zero (x ∷ ts) c t e = (t, e)
  turn-some zero (suc i) (x ∷ ts) c t e = (t, e)
  turn-some (suc j) (suc i) (x ∷ ts) c t e = turn-some j i ts c t e

  run-some :
      (schedule : List ℕ) (j : ℕ) (d : Deliveries W L M) (t : Delivery M)
      → get_elem? d.threads j ≡ some t
      → (u : Delivery M) × (get_elem? (run lis schedule d).threads j ≡ some u)
  unfolding run
  run-some [] j d t e = (t, e)
  run-some (i ∷ schedule) j d t e =
      let next = turn lis i d.threads d.common in
      let (u, g) = turn-some j i d.threads d.common t e in
      run-some schedule j (record { threads = next.0; common = next.1 }) u g

  called_once : (k i : ℕ) (x : Phase) → called_in k x i ≤ 1
  called_once k i calling = ground arith
  called_once k i (marking alive) = ground arith
  called_once k i stopped = ground arith

  called_all :
      (n k : ℕ) (t : Delivery M)
      → k < n
      → (t.phase ≡ calling) × (n ≤ t.index)
      → called_in k t.phase t.index ≡ 1
  called_all n k t h (e, m) = rw e (ground arith)

  -- Of several threads that deliver at once, each that is given two turns for every entry, wherever
  -- they stand in the schedule, comes to the end of the entries and has been at each one once, unless
  -- a listener panicked under it; then it has been at none twice.
  pub run-Ended :
      (schedule : List ℕ) (j k : ℕ) (d : Deliveries W L M) (ms : List M)
      → get_elem? d.threads j ≡ some (begin ms)
      → 2 * length d.common.entries ≤ turns j schedule
      → k < length d.common.entries
      → (t : Delivery M) × (get_elem? (run lis schedule d).threads j ≡ some t)
        × Ended (length d.common.entries) t
        × (calls lis j k schedule d ≤ 1)
        × ((t.phase ≡ stopped) ⊎ (calls lis j k schedule d ≡ 1))
  run-Ended schedule j k d ms e m h =
      let n = length d.common.entries in
      let (t, g) = run-some schedule j d (begin ms) e in
      let l = rw (g, e) at (run_left lis schedule j d) in
      let ended = none_left n t.index t.phase t.messages (omega (arith, l)) in
      let made = rw (g, e) at (run-calls lis schedule j k d) in
      let fresh : called_in k calling 0 ≡ 0 = ground arith in
      (
        t,
        g,
        ended,
        omega (arith, made, fresh, called_once k t.index t.phase),
        elim ended [
          | inl past ↦ inr (omega (arith, made, fresh, called_all n k t h past))
          | inr s ↦ inl s
        ],
      )
