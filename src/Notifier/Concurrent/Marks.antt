-- ===== src/Notifier/Concurrent/Marks.antt =====
-- What several deliveries at once leave in the bits of the entries.
use nosy.Prelude.{
  ℕ, zero, suc, ◌<◌, ◌≡◌, refl, sym, ap, ◌∙◌, Bool, true, false, ◌&&◌, Option, none, some, List, [],
  ◌∷◌, length, All, arith, Option-cases, inl, inr,
}
use nosy.Exec.{Result, Result-cases, ok, panic}
use nosy.Listener.{Listener}
use nosy.Notifier.Raw.{NotifierEntry, get_elem?}
use nosy.Notifier.Concurrent.{
  Phase, calling, marking, stopped, Delivery, Common, Deliveries, advance, turn, run,
}
use nosy.Notifier.Concurrent.Bits.{
  about, bit, and_true, and_assoc, join_first, join_rest, about-true, length-fetch_and,
  bit-fetch_and,
}

module _ {W L M : Type 0} (lis : Listener W L M) where
  open lis use {receive}

  -- What a thread is about to join to the bit of the entry `k`.
  abbrev pub pending_in : Phase → ℕ → ℕ → Bool
  pending_in calling k i = true
  pending_in (marking alive) k i = about k i alive
  pending_in stopped k i = true

  abbrev pub pending : ℕ → Delivery M → Bool
  pending k t = pending_in t.phase k t.index

  abbrev pub pendings : ℕ → List (Delivery M) → Bool
  pendings k [] = true
  pendings k (t ∷ ts) = pending k t && pendings k ts

  abbrev pub returned : Result Bool → Bool
  returned (ok alive) = alive
  returned (panic p) = true

  -- Whether the next operation of a thread is not a call of the entry `k` that returns `false`.
  abbrev pub heard_at : ℕ → Delivery M → Common W L → Option (NotifierEntry L) → Bool
  heard_at k t c none = true
  heard_at k t c (some e) = about k t.index (returned (receive e.listener t.messages c.world).0)

  abbrev pub heard_in : Phase → ℕ → Delivery M → Common W L → Bool
  heard_in calling k t c = heard_at k t c (get_elem? c.entries t.index)
  heard_in (marking alive) k t c = true
  heard_in stopped k t c = true

  abbrev pub heard : ℕ → ℕ → List (Delivery M) → Common W L → Bool
  heard k i [] c = true
  heard k zero (t ∷ ts) c = heard_in t.phase k t c
  heard k (suc i) (t ∷ ts) c = heard k i ts c

  -- Whether every call of the entry `k` that a schedule makes, and that returns, returns `true`.
  unfoldable pub every_call : ℕ → List ℕ → Deliveries W L M → Bool
  unfolding turn
  every_call k [] d = true
  every_call k (i ∷ schedule) d =
      let next = turn lis i d.threads d.common in
      heard k i d.threads d.common
      && every_call k schedule (record { threads = next.0; common = next.1 })

  called :
      (k i : ℕ) (ms : List M) (c : Common W L) (e : NotifierEntry L)
      → get_elem? c.entries i ≡ some e
      → (let t : Delivery M = record { index = i; phase = calling; messages = ms } in
          bit k (advance lis t c).1.entries && pending k (advance lis t c).0
          ≡ bit k c.entries && heard_in calling k t c)
  unfolding advance
  called k i ms c e g = elim (Result-cases (receive e.listener ms c.world).0) [
    | inl (alive, q) ↦ rw (g, advance) (rw q refl)
    | inr (p, q) ↦ rw (g, advance) (rw q (ap (◌&&◌ (bit k c.entries)) (sym (about-true k i))))
  ]

  uncalled :
      (k i : ℕ) (ms : List M) (c : Common W L)
      → get_elem? c.entries i ≡ none
      → (let t : Delivery M = record { index = i; phase = calling; messages = ms } in
          bit k (advance lis t c).1.entries && pending k (advance lis t c).0
          ≡ bit k c.entries && heard_in calling k t c)
  unfolding advance
  uncalled k i ms c g = rw (g, advance) refl

  length-advance :
      (i : ℕ) (x : Phase) (ms : List M) (c : Common W L)
      → (let t : Delivery M = record { index = i; phase = x; messages = ms } in
          length (advance lis t c).1.entries ≡ length c.entries)
  unfolding advance
  length-advance i calling ms c = elim (Option-cases (get_elem? c.entries i)) [
    | inl g ↦ rw (g, advance) refl
    | inr (e, g) ↦ rw (g, advance) refl
  ]
  length-advance i (marking alive) ms c = length-fetch_and i alive c.entries
  length-advance i stopped ms c = refl

  -- One operation of a thread joins to a bit what the thread has learnt before, or learns what it
  -- will join.
  advance_lem :
      (k i : ℕ) (x : Phase) (ms : List M) (c : Common W L)
      → k < length c.entries
      → (let t : Delivery M = record { index = i; phase = x; messages = ms } in
          bit k (advance lis t c).1.entries && pending k (advance lis t c).0
          ≡ (bit k c.entries && pending k t) && heard_in x k t c)
  advance_lem k i calling ms c h = elim (Option-cases (get_elem? c.entries i)) [
    | inl g ↦ rw (and_true (bit k c.entries)) (uncalled k i ms c g)
    | inr (e, g) ↦ rw (and_true (bit k c.entries)) (called k i ms c e g)
  ]
  advance_lem k i (marking alive) ms c h =
      unfold advance in ap (λ b. b && true) (bit-fetch_and k i alive c.entries h)
  advance_lem k i stopped ms c h = unfold advance in sym (and_true _)

  -- The bit of the entry `k`, joined to everything that is on its way to it.
  abbrev pub settled : ℕ → List (Delivery M) → Common W L → Bool
  settled k ts c = bit k c.entries && pendings k ts

  turn_lem :
      (k i : ℕ) (ts : List (Delivery M)) (c : Common W L)
      → k < length c.entries
      → settled k (turn lis i ts c).0 (turn lis i ts c).1 ≡ settled k ts c && heard k i ts c
  unfolding turn
  turn_lem k i [] c h = sym (and_true _)
  turn_lem k zero (t ∷ ts) c h =
      join_first _ _ _ _ _ (pendings k ts) (advance_lem k t.index t.phase t.messages c h)
  turn_lem k (suc i) (t ∷ ts) c h = join_rest _ _ _ _ _ (pending k t) (turn_lem k i ts c h)

  pub length-turn :
      (i : ℕ) (ts : List (Delivery M)) (c : Common W L)
      → length (turn lis i ts c).1.entries ≡ length c.entries
  unfolding turn
  length-turn i [] c = refl
  length-turn zero (t ∷ ts) c = length-advance t.index t.phase t.messages c
  length-turn (suc i) (t ∷ ts) c = length-turn i ts c

  run-settled :
      (schedule : List ℕ) (k : ℕ) (d : Deliveries W L M)
      → k < length d.common.entries
      → settled k (run lis schedule d).threads (run lis schedule d).common
        ≡ settled k d.threads d.common && every_call k schedule d
  unfolding run every_call
  run-settled [] k d h = sym (and_true _)
  run-settled (i ∷ schedule) k d h =
      let next = turn lis i d.threads d.common in
      run-settled schedule k (record { threads = next.0; common = next.1 })
        (omega (arith, length-turn i d.threads d.common))
      ∙ ap (λ b. b && every_call k schedule (record { threads = next.0; common = next.1 }))
          (turn_lem k i d.threads d.common h)
      ∙ and_assoc (settled k d.threads d.common) (heard k i d.threads d.common)
          (every_call k schedule (record { threads = next.0; common = next.1 }))

  abbrev quiet_in : Phase → Bool
  quiet_in calling = true
  quiet_in (marking alive) = false
  quiet_in stopped = true

  -- No thread is between a call and its mark.
  abbrev pub Quiet : List (Delivery M) → Type 0
  Quiet = All (λ t. quiet_in t.phase ≡ true)

  nothing_pending : (k i : ℕ) (x : Phase) → quiet_in x ≡ true → pending_in x k i ≡ true
  nothing_pending k i calling h = refl
  nothing_pending k i (marking alive) h = absurd (grind arith)
  nothing_pending k i stopped h = refl

  settled-Quiet :
      (k : ℕ) (ts : List (Delivery M)) (c : Common W L)
      → Quiet ts
      → settled k ts c ≡ bit k c.entries
  settled-Quiet k [] c h = and_true _
  settled-Quiet k (t ∷ ts) c h =
      rw (nothing_pending k t.index t.phase h.0) (settled-Quiet k ts c h.1)

  -- When several threads deliver at once, in whatever order their calls of the listeners and their
  -- marks of the entries come, and none is between a call and its mark at the start or at the end:
  -- the bit of each entry is set at the end just if it was set at the start and every call of its
  -- listener that returned has returned `true`.
  pub bit_lem :
      (schedule : List ℕ) (k : ℕ) (d : Deliveries W L M)
      → k < length d.common.entries
      → Quiet d.threads
      → Quiet (run lis schedule d).threads
      → bit k (run lis schedule d).common.entries
        ≡ bit k d.common.entries && every_call k schedule d
  bit_lem schedule k d h q q' =
      let done = run lis schedule d in
      sym (settled-Quiet k done.threads done.common q')
      ∙ run-settled schedule k d h
      ∙ ap (λ b. b && every_call k schedule d) (settled-Quiet k d.threads d.common q)
