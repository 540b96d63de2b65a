-- ===== src/Notifier/Threads/Additions.antt =====
-- How many entries a notifier can come to have, by the calls that its threads have still to make.
use nosy.Prelude.{
  ℕ, ◌+◌, ◌≤◌, ◌≡◌, refl, ap, Option, none, some, List, [], ◌∷◌, length, arith, inl, inr,
}
use nosy.Listener.{Listener}
use nosy.Notifier.Raw.{NotifierEntry, get_elem?}
use nosy.Notifier.Calls.{Call, listening, notifying, counting, closing}
use nosy.Notifier.Concurrent.{Phase, calling, marking, stopped, Delivery}
use nosy.Notifier.Threads.{
  Round, Stage, outside, delivering, writing, Client, Shared, free_to_read, free_to_write,
  entries_of, enter, finish_writing, leave, step_delivery, deliver_at, act, turn,
}
use nosy.Notifier.Threads.Turns.{either}
use nosy.Notifier.Threads.Lengths.{is_listening, body-le}
use nosy.Notifier.Threads.Turns.{After}
use nosy.Notifier.Threads.Work.{length-listeners_of}
use nosy.Notifier.Threads.Exclusion.{reads, reading}

-- Entries, and calls that may still add one: their number never grows.
module _ {L M : Type 0} where
  abbrev adds : Stage L M → ℕ
  adds outside = 0
  adds (writing call) = is_listening call
  adds (delivering r d) = 0

  abbrev adds_later : List (Call L M) → ℕ
  adds_later [] = 0
  adds_later (call ∷ calls) = is_listening call + adds_later calls

  abbrev pub additions : Client L M → ℕ
  additions c = adds c.stage + adds_later c.calls

abbrev pub entries_in : {W L : Type 0} → Shared W L → ℕ
entries_in s = length (entries_of s.lock.value)

-- What a turn adds was expected.
abbrev pub Expected :
    {W L M : Type 0} (c : Client L M) (s : Shared W L) (next : Client L M × Shared W L) → Type 0
Expected c s next = entries_in next.1 + additions next.0 ≤ entries_in s + additions c

module _ {W L M : Type 0} (lis : Listener W L M) (grow : ℕ → ℕ) where
  entered-Expected :
      (call : Call L M) (calls : List (Call L M)) (c : Client L M) (s : Shared W L)
      → is_listening call + adds_later calls ≡ additions c
      → Expected c s (enter lis grow call calls c s)
  unfolding enter
  entered-Expected (notifying ms) calls c s h =
      either (Expected c s) (free_to_read s.lock) (omega arith) (omega arith)
  entered-Expected closing calls c s h =
      either (Expected c s) (free_to_write s.lock) (omega arith) (omega arith)
  entered-Expected counting calls c s h =
      either (Expected c s) (free_to_write s.lock) (omega arith) (omega arith)
  entered-Expected (listening l) calls c s h =
      either (Expected c s) (free_to_write s.lock) (omega arith) (omega arith)

  delivered-additions :
      (v : Option (NotifierEntry L)) (x : Phase) (r : Round L M) (d : Delivery M) (c : Client L M)
      (s : Shared W L)
      → additions (deliver_at lis grow v x r d c s).0 ≡ adds_later c.calls
  unfolding leave step_delivery
  delivered-additions v stopped r d c s = omega arith
  delivered-additions v (marking alive) r d c s = omega arith
  delivered-additions none calling r d c s = omega arith
  delivered-additions (some e) calling r d c s = omega arith

  same_entries :
      (s : Shared W L) (next : Client L M × Shared W L)
      → 1 ≤ s.lock.readers
      → After s next
      → entries_in next.1 ≡ entries_in s
  same_entries s next h a = elim a.kept [
    | inl e ↦ omega (
      arith,
      ap length e,
      length-listeners_of (entries_of s.lock.value),
      length-listeners_of (entries_of next.1.lock.value),
    )
    | inr z ↦ absurd (omega arith)
  ]

  acted-Expected :
      (x : Stage L M) (calls : List (Call L M)) (c : Client L M) (s : Shared W L)
      → c.stage ≡ x
      → c.calls ≡ calls
      → reads x ≤ s.lock.readers
      → After s (act lis grow x calls c s)
      → Expected c s (act lis grow x calls c s)
  unfolding finish_writing
  acted-Expected outside [] c s e q h a = omega arith
  acted-Expected outside (call ∷ calls) c s e q h a =
      let w = ap adds e in
      let v = ap adds_later q in entered-Expected call calls c s (omega (arith, w, v))
  acted-Expected (writing call) calls c s e q h a =
      let w = ap adds e in omega (arith, w, body-le lis grow call s.lock.value s.world)
  acted-Expected (delivering r d) calls c s e q h a =
      let w = ap adds e in
      let o = get_elem? (entries_of s.lock.value) d.index in
      let same = same_entries s (deliver_at lis grow o d.phase r d c s) h a in
      omega (arith, w, same, delivered-additions o d.phase r d c s)

  pub turn-Expected :
      (c : Client L M) (s : Shared W L)
      → reading c ≤ s.lock.readers
      → After s (turn lis grow c s)
      → Expected c s (turn lis grow c s)
  unfolding turn
  turn-Expected c s h a = acted-Expected c.stage c.calls c s refl refl h a
