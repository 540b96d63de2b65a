-- ===== src/Notifier/Concurrent/Calls.antt =====
-- What the listeners hear of the threads that deliver at once.
use nosy.Prelude.{ℕ, zero, suc, ◌+◌, ◌≡◌, some, List, [], ◌∷◌}
use nosy.Listener.{Listener}
use nosy.Notifier.Raw.{NotifierEntry, get_elem?}
use nosy.Notifier.Concurrent.{Phase, calling, marking, stopped, Delivery, Common}
use nosy.Notifier.Threads.Exclusion.{sum}
use nosy.Notifier.Threads.Asked.{Counting}

module _ {W L M : Type 0} (lis : Listener W L M) (heard : W → ℕ) (weight : L → List M → ℕ)
    (h : Counting lis heard weight) where
  -- What calls of the first `n` entries add.
  abbrev pub owed : ℕ → List (NotifierEntry L) → List M → ℕ
  owed zero es ms = 0
  owed (suc n) [] ms = 0
  owed (suc n) (e ∷ es) ms = weight e.listener ms + owed n es ms

  abbrev reached : Phase → ℕ → ℕ
  reached calling i = i
  reached (marking alive) i = suc i
  reached stopped i = suc i

  -- What the calls of the entries that a thread has come to add.
  abbrev pub noted : List (NotifierEntry L) → Delivery M → ℕ
  noted es t = owed (reached t.phase t.index) es t.messages

  abbrev Owes : List (NotifierEntry L) → List (NotifierEntry L) → Type 0
  Owes es es' = (n : ℕ) (ms : List M) → owed n es' ms ≡ owed n es ms

  -- An operation adds to what is heard what it adds to the notes.
  record Fair (es : List (NotifierEntry L)) (ts ts' : List (Delivery M)) (c c' : Common W L)
      : Type 0 where
    fair : heard c'.world + sum (noted es) ts ≡ heard c.world + sum (noted es) ts'
    same : Owes es c'.entries

  -- A thread stays, with its messages.
  abbrev Sends : List M → ℕ → List (Delivery M) → Type 0
  Sends ms j ts = (t : Delivery M) × (get_elem? ts j ≡ some t) × (t.messages ≡ ms)

  abbrev Begun : Delivery M → Type 0
  Begun t = (t.index ≡ 0) × (t.phase ≡ calling)
