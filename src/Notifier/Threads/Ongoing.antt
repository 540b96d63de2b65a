-- ===== src/Notifier/Threads/Ongoing.antt =====
-- What is known of a delivery through a notifier that several threads call: which listeners it has
-- called, of those that there were when it began.
use nosy.Prelude.{
  ℕ, zero, suc, ◌≡◌, refl, ap, ◌∙◌, Bool, true, none, some, List, [], ◌∷◌, ◌++◌, All, set, length,
  arith, ◌⊎◌,
}
use nosy.Notifier.Raw.{NotifierEntry, get_elem?}
use nosy.Notifier.Locked.{State, opened, shut}
use nosy.Notifier.Concurrent.{Phase, calling, marking, stopped, Delivery, fetch_and}
use nosy.Notifier.Threads.{
  Round, Stage, outside, delivering, writing, Client, listeners_of, entries_of, put_entries,
}

-- A delivery that is over has called each listener that there was when it began, in their order, or
-- one of them panicked, and it has called those up to that one.
abbrev pub Whole : {L M : Type 0} → Round L M → Type 0
Whole {L} {M} r =
    (r.called ≡ r.present)
    ⊎ ((r.panicked ≡ true) × (rest : List L) × (r.called ++ rest ≡ r.present))

module _ {L : Type 0} where
  pub called_all :
      (es : List (NotifierEntry L)) (called rest : List L)
      → get_elem? es (length called) ≡ none
      → called ++ rest ≡ listeners_of es
      → called ≡ listeners_of es
  called_all [] [] rest e h = refl
  called_all [] (l ∷ called) rest e h = absurd (grind arith)
  called_all (x ∷ es) [] rest e h = absurd (grind arith)
  called_all (x ∷ es) (l ∷ called) rest e h =
      let t = called_all es called rest e (grind arith) in grind arith

  pub called_next :
      (es : List (NotifierEntry L)) (called rest : List L) (x : NotifierEntry L)
      → get_elem? es (length called) ≡ some x
      → called ++ rest ≡ listeners_of es
      → (rest' : List L) × ((called ++ x.listener ∷ []) ++ rest' ≡ listeners_of es)
  called_next [] called rest x e h = absurd (grind arith)
  called_next (y ∷ es) [] rest x e h = (listeners_of es, grind arith)
  called_next (y ∷ es) (l ∷ called) rest x e h =
      let (rest', t) = called_next es called rest x e (grind arith) in (rest', grind arith)

  pub put_entries-listeners :
      (state : State L) (es : List (NotifierEntry L))
      → listeners_of es ≡ listeners_of (entries_of state)
      → listeners_of (entries_of (put_entries es state)) ≡ listeners_of (entries_of state)
  put_entries-listeners (opened raw) es h = h
  put_entries-listeners shut es h = refl

  pub fetch_and-listeners :
      (i : ℕ) (alive : Bool) (es : List (NotifierEntry L))
      → listeners_of (fetch_and i alive es) ≡ listeners_of es
  unfolding fetch_and
  fetch_and-listeners i alive [] = refl
  fetch_and-listeners zero alive (e ∷ es) = refl
  fetch_and-listeners (suc i) alive (e ∷ es) =
      ap (λ ls. e.listener ∷ ls) (fetch_and-listeners i alive es)

  -- How many listeners a delivery has called.
  abbrev pub UpTo : Phase → ℕ → List L → Type 0
  UpTo calling i called = length called ≡ i
  UpTo (marking alive) i called = length called ≡ suc i
  UpTo stopped i called = Unit {0}

  -- What is known of a delivery that is going on, in a state of the notifier.
  pub record Ongoing {M : Type 0} (r : Round L M) (d : Delivery M) (state : State L) : Type 0 where
    pub present : listeners_of (entries_of state) ≡ r.present
    pub rest : List L
    pub split : r.called ++ rest ≡ r.present
    pub upto : UpTo d.phase d.index r.called

  abbrev pub Good : {M : Type 0} → Stage L M → State L → Type 0
  Good outside state = Unit {0}
  Good (writing call) state = Unit {0}
  Good (delivering r d) state = Ongoing r d state

  abbrev pub Fine : {M : Type 0} → State L → Client L M → Type 0
  Fine state c = Good c.stage state × All Whole c.history

  -- A thread that does not deliver does not mind what becomes of the notifier, and one that does
  -- minds the listeners only.
  pub Good-same :
      {M : Type 0} (x : Stage L M) (st st' : State L)
      → listeners_of (entries_of st') ≡ listeners_of (entries_of st)
      → Good x st
      → Good x st'
  Good-same outside st st' e g = tt
  Good-same (writing call) st st' e g = tt
  Good-same (delivering r d) st st' e g = record {
    present = e ∙ g.present;
    rest = g.rest;
    split = g.split;
    upto = g.upto;
  }

module _ {ℓ κ} {A : Type ℓ} (P : A → Type κ) where
  pub All-set : (xs : List A) (i : ℕ) (v : A) → P v → All P xs → All P (set xs i v)
  All-set [] i v p h = tt
  All-set (x ∷ xs) zero v p h = (p, h.1)
  All-set (x ∷ xs) (suc i) v p h = (h.0, All-set xs i v p h.1)
