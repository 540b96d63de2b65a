-- ===== src/Notifier/Concurrent/Progress.antt =====
-- What one turn and a whole schedule do to the operations that a thread of a delivery has left, and
-- to its calls of the listeners.
use nosy.Prelude.{
  ℕ, zero, suc, ◌+◌, ◌-◌, ◌*◌, ◌<◌, ◌≤◌, ◌≡◌, Option, none, some, List, [], ◌∷◌, leb, ltb, ◌==◌,
  if◌then◌else◌, length, arith, Option-cases, inl, inr,
}
use nosy.Exec.{Result-cases}
use nosy.Listener.{Listener}
use nosy.Notifier.Raw.{NotifierEntry, get_elem?}
use nosy.Notifier.Concurrent.{
  Phase, calling, marking, stopped, Delivery, Common, Deliveries, advance, turn, run,
}
use nosy.Notifier.Concurrent.Marks.{length-turn}

-- How many turns a thread has in a schedule.
abbrev pub turns : ℕ → List ℕ → ℕ
turns j [] = 0
turns j (i ∷ schedule) = (if i == j then 1 else 0) + turns j schedule

-- The operations that a thread has left, with `n` entries, and whether it has called the entry `k`.
abbrev pub left_in : ℕ → Phase → ℕ → ℕ
left_in n calling i = 2 * (n - i)
left_in n (marking alive) i = 2 * (n - suc i) + 1
left_in n stopped i = 0

abbrev pub called_in : ℕ → Phase → ℕ → ℕ
called_in k calling i = if ltb k i then 1 else 0
called_in k (marking alive) i = if leb k i then 1 else 0
called_in k stopped i = if leb k i then 1 else 0

module _ {W L M : Type 0} (lis : Listener W L M) where
  open lis use {receive}

  abbrev pub left : ℕ → Option (Delivery M) → ℕ
  left n none = 0
  left n (some t) = left_in n t.phase t.index

  abbrev pub has_called : ℕ → Option (Delivery M) → ℕ
  has_called k none = 0
  has_called k (some t) = called_in k t.phase t.index

  -- The calls of the entry `k` in the next operation of a thread.
  abbrev calls_at : ℕ → Delivery M → Option (NotifierEntry L) → ℕ
  calls_at k t none = 0
  calls_at k t (some e) = if t.index == k then 1 else 0

  abbrev calls_in : Phase → ℕ → Delivery M → Common W L → ℕ
  calls_in calling k t c = calls_at k t (get_elem? c.entries t.index)
  calls_in (marking alive) k t c = 0
  calls_in stopped k t c = 0

  -- The calls of the entry `k` that the thread `j` makes, in a turn of the thread `i` and in all
  -- the turns of a schedule.
  abbrev calls_of : ℕ → ℕ → ℕ → List (Delivery M) → Common W L → ℕ
  calls_of j k i [] c = 0
  calls_of zero k zero (t ∷ ts) c = calls_in t.phase k t c
  calls_of zero k (suc i) (t ∷ ts) c = 0
  calls_of (suc j) k zero (t ∷ ts) c = 0
  calls_of (suc j) k (suc i) (t ∷ ts) c = calls_of j k i ts c

  unfoldable pub calls : ℕ → ℕ → List ℕ → Deliveries W L M → ℕ
  unfolding turn
  calls j k [] d = 0
  calls j k (i ∷ schedule) d =
      let next = turn lis i d.threads d.common in
      calls_of j k i d.threads d.common
      + calls j k schedule (record { threads = next.0; common = next.1 })

  pub get_elem?-some :
      (es : List (NotifierEntry L)) (i : ℕ) (e : NotifierEntry L)
      → get_elem? es i ≡ some e
      → i < length es
  get_elem?-some [] i e g = absurd (grind arith)
  get_elem?-some (x ∷ es) zero e g = omega arith
  get_elem?-some (x ∷ es) (suc i) e g = omega (arith, get_elem?-some es i e g)

  get_elem?-none : (es : List (NotifierEntry L)) (i : ℕ) → get_elem? es i ≡ none → length es ≤ i
  get_elem?-none [] i g = omega arith
  get_elem?-none (x ∷ es) zero g = absurd (grind arith)
  get_elem?-none (x ∷ es) (suc i) g = omega (arith, get_elem?-none es i g)

  advance_left :
      (i : ℕ) (x : Phase) (ms : List M) (c : Common W L)
      → (let t : Delivery M = record { index = i; phase = x; messages = ms } in
          let n = length c.entries in left n (some (advance lis t c).0) ≤ left n (some t) - 1)
  unfolding advance
  advance_left i calling ms c = elim (Option-cases (get_elem? c.entries i)) [
    | inl g ↦ rw (g, advance) (omega (arith, get_elem?-none c.entries i g))
    | inr (e, g) ↦ elim (Result-cases (receive e.listener ms c.world).0) [
      | inl (alive, q) ↦ rw (g, advance) (rw q (omega (arith, get_elem?-some c.entries i e g)))
      | inr (p, q) ↦ rw (g, advance) (rw q (omega arith))
    ]
  ]
  advance_left i (marking alive) ms c = omega arith
  advance_left i stopped ms c = omega arith

  advance_calls :
      (k i : ℕ) (x : Phase) (ms : List M) (c : Common W L)
      → (let t : Delivery M = record { index = i; phase = x; messages = ms } in
          has_called k (some (advance lis t c).0) ≡ has_called k (some t) + calls_in x k t c)
  unfolding advance
  advance_calls k i calling ms c = elim (Option-cases (get_elem? c.entries i)) [
    | inl g ↦ rw (g, advance) (omega arith)
    | inr (e, g) ↦ elim (Result-cases (receive e.listener ms c.world).0) [
      | inl (alive, q) ↦ rw (g, advance) (rw q (ground arith))
      | inr (p, q) ↦ rw (g, advance) (rw q (ground arith))
    ]
  ]
  advance_calls k i (marking alive) ms c = ground arith
  advance_calls k i stopped ms c = omega arith

  turn_left :
      (j i : ℕ) (ts : List (Delivery M)) (c : Common W L)
      → (let n = length c.entries in
          left n (get_elem? (turn lis i ts c).0 j)
          ≤ left n (get_elem? ts j) - (if i == j then 1 else 0))
  unfolding turn
  turn_left j i [] c = omega arith
  turn_left zero zero (t ∷ ts) c = advance_left t.index t.phase t.messages c
  turn_left (suc j) zero (t ∷ ts) c = ground arith
  turn_left zero (suc i) (t ∷ ts) c = ground arith
  turn_left (suc j) (suc i) (t ∷ ts) c = ground (arith, turn_left j i ts c)

  turn_calls :
      (j k i : ℕ) (ts : List (Delivery M)) (c : Common W L)
      → has_called k (get_elem? (turn lis i ts c).0 j)
        ≡ has_called k (get_elem? ts j) + calls_of j k i ts c
  unfolding turn
  turn_calls j k i [] c = omega arith
  turn_calls zero k zero (t ∷ ts) c = advance_calls k t.index t.phase t.messages c
  turn_calls (suc j) k zero (t ∷ ts) c = omega arith
  turn_calls zero k (suc i) (t ∷ ts) c = omega arith
  turn_calls (suc j) k (suc i) (t ∷ ts) c = turn_calls j k i ts c

  pub run_left :
      (schedule : List ℕ) (j : ℕ) (d : Deliveries W L M)
      → (let n = length d.common.entries in
          left n (get_elem? (run lis schedule d).threads j)
          ≤ left n (get_elem? d.threads j) - turns j schedule)
  unfolding run
  run_left [] j d = omega arith
  run_left (i ∷ schedule) j d =
      let next = turn lis i d.threads d.common in
      let rest = run_left schedule j (record { threads = next.0; common = next.1 }) in
      let same = length-turn lis i d.threads d.common in
      omega (arith, rw same at rest, turn_left j i d.threads d.common)

  pub run-calls :
      (schedule : List ℕ) (j k : ℕ) (d : Deliveries W L M)
      → has_called k (get_elem? (run lis schedule d).threads j)
        ≡ has_called k (get_elem? d.threads j) + calls j k schedule d
  unfolding run calls
  run-calls [] j k d = omega arith
  run-calls (i ∷ schedule) j k d =
      let next = turn lis i d.threads d.common in
      let rest = run-calls schedule j k (record { threads = next.0; common = next.1 }) in
      omega (arith, rest, turn_calls j k i d.threads d.common)
