-- ===== src/Notifier/Threads/Exclusion.antt =====
-- The lock of a notifier that several threads call: who holds it, and that a thread which writes is
-- alone.
use nosy.Prelude.{
  ℕ, zero, suc, ◌+◌, ◌≤◌, ◌≡◌, refl, ap, Bool, true, false, Option, none, some, List, [], ◌∷◌, All,
  set, arith,
}
use nosy.Listener.{Listener}
use nosy.Notifier.Raw.{NotifierEntry, get_elem?}
use nosy.Notifier.Calls.{Call, listening, notifying, counting, closing}
use nosy.Notifier.Concurrent.{Phase, calling, marking, stopped, Delivery}
use nosy.Notifier.Threads.{
  Round, Stage, outside, delivering, writing, Client, Shared, entries_of, enter, finish_writing,
  leave, step_delivery, deliver_at, act, turn, turn_of, run,
}

module _ {ℓ} {A : Type ℓ} where
  abbrev pub sum : (A → ℕ) → List A → ℕ
  sum f [] = 0
  sum f (x ∷ xs) = f x + sum f xs

  pub sum-set :
      (f : A → ℕ) (xs : List A) (i : ℕ) (x v : A)
      → get_elem? xs i ≡ some x
      → sum f (set xs i v) + f x ≡ sum f xs + f v
  sum-set f [] i x v e = absurd (grind arith)
  sum-set f (y ∷ ys) zero x v e = ground arith
  sum-set f (y ∷ ys) (suc i) x v e = omega (arith, sum-set f ys i x v e)

  pub sum-ge : (f : A → ℕ) (xs : List A) (i : ℕ) (x : A) → get_elem? xs i ≡ some x → f x ≤ sum f xs
  sum-ge f [] i x e = absurd (grind arith)
  sum-ge f (y ∷ ys) zero x e = ground arith
  sum-ge f (y ∷ ys) (suc i) x e = omega (arith, sum-ge f ys i x e)

  pub sum_zero : (f : A → ℕ) (xs : List A) → sum f xs ≡ 0 → All (λ x. f x ≡ 0) xs
  sum_zero f [] e = tt
  sum_zero f (x ∷ xs) e = (omega arith, sum_zero f xs (omega arith))

module _ {L M : Type 0} where
  abbrev pub reads : Stage L M → ℕ
  reads outside = 0
  reads (delivering r d) = 1
  reads (writing call) = 0

  abbrev pub writes : Stage L M → ℕ
  writes outside = 0
  writes (delivering r d) = 0
  writes (writing call) = 1

  abbrev pub reading : Client L M → ℕ
  reading c = reads c.stage

  abbrev pub written : Client L M → ℕ
  written c = writes c.stage

abbrev pub bit : Bool → ℕ
bit true = 1
bit false = 0

-- The lock word counts the threads that deliver, and says whether one writes; then none delivers.
pub record Excluded {W L M : Type 0} (cs : List (Client L M)) (s : Shared W L) : Type 0 where
  pub readers : sum reading cs ≡ s.lock.readers
  pub writers : sum written cs ≡ bit s.lock.writing
  pub alone : s.lock.writing ≡ true → s.lock.readers ≡ 0

module _ {L M : Type 0} where
  none_inside :
      (f : Stage L M → ℕ) (cs : List (Client L M))
      → f outside ≡ 0
      → All (λ c. (c.stage ≡ outside) × (c.history ≡ [])) cs
      → sum (λ c. f c.stage) cs ≡ 0
  none_inside f [] z h = refl
  none_inside f (c ∷ cs) z h = let e = ap f h.0.0 in omega (arith, e, z, none_inside f cs z h.1)

-- What one turn does to the lock word, against what it does to the thread.
record Counted {W L M : Type 0} (c c' : Client L M) (s s' : Shared W L) : Type 0 where
  readers : s'.lock.readers + reading c ≡ s.lock.readers + reading c'
  writers : bit s'.lock.writing + written c ≡ bit s.lock.writing + written c'
  alone : s'.lock.writing ≡ true → s'.lock.readers ≡ 0

module _ {W L M : Type 0} (lis : Listener W L M) (grow : ℕ → ℕ) where
  abbrev Counts : Client L M → Shared W L → Client L M × Shared W L → Type 0
  Counts c s next = Counted c next.0 s next.1

  enter-Counted :
      (call : Call L M) (cs : List (Call L M)) (c : Client L M) (s : Shared W L)
      → reading c ≡ 0
      → written c ≡ 0
      → (s.lock.writing ≡ true → s.lock.readers ≡ 0)
      → Counts c s (enter lis grow call cs c s)
  unfolding enter
  enter-Counted (notifying ms) cs c s r w h = ground arith
  enter-Counted closing cs c s r w h = ground arith
  enter-Counted counting cs c s r w h = ground arith
  enter-Counted (listening l) cs c s r w h = ground arith

  finish-Counted :
      (call : Call L M) (c : Client L M) (s : Shared W L)
      → reading c ≡ 0
      → written c ≡ 1
      → written c ≤ bit s.lock.writing
      → Counts c s (finish_writing lis grow call c s)
  unfolding finish_writing
  finish-Counted call c s r w h = ground arith

  leave-Counted :
      (r : Round L M) (d : Delivery M) (c : Client L M) (s : Shared W L)
      → reading c ≡ 1
      → written c ≡ 0
      → reading c ≤ s.lock.readers
      → (s.lock.writing ≡ true → s.lock.readers ≡ 0)
      → Counts c s (leave lis grow r c s)
  unfolding leave
  leave-Counted r d c s e w g h = ground arith

  step-Counted :
      (r r' : Round L M) (d : Delivery M) (c : Client L M) (s : Shared W L)
      → reading c ≡ 1
      → written c ≡ 0
      → (s.lock.writing ≡ true → s.lock.readers ≡ 0)
      → Counts c s (step_delivery lis grow r' d c s)
  unfolding step_delivery
  step-Counted r r' d c s e w h = ground arith

  deliver-Counted :
      (o : Option (NotifierEntry L)) (x : Phase) (r : Round L M) (d : Delivery M) (c : Client L M)
      (s : Shared W L)
      → reading c ≡ 1
      → written c ≡ 0
      → reading c ≤ s.lock.readers
      → (s.lock.writing ≡ true → s.lock.readers ≡ 0)
      → Counts c s (deliver_at lis grow o x r d c s)
  deliver-Counted o stopped r d c s e w g h = leave-Counted _ d c s e w g h
  deliver-Counted o (marking alive) r d c s e w g h = step-Counted r r d c s e w h
  deliver-Counted none calling r d c s e w g h = leave-Counted r d c s e w g h
  deliver-Counted (some x) calling r d c s e w g h = step-Counted r _ d c s e w h

  act-Counted :
      (x : Stage L M) (cs : List (Call L M)) (c : Client L M) (s : Shared W L)
      → c.stage ≡ x
      → reading c ≤ s.lock.readers
      → written c ≤ bit s.lock.writing
      → (s.lock.writing ≡ true → s.lock.readers ≡ 0)
      → Counts c s (act lis grow x cs c s)
  act-Counted outside [] c s e g w h = record { readers = refl; writers = refl; alone = h }
  act-Counted outside (call ∷ cs) c s e g w h =
      enter-Counted call cs c s (ap reads e) (ap writes e) h
  act-Counted (writing call) cs c s e g w h = finish-Counted call c s (ap reads e) (ap writes e) w
  act-Counted (delivering r d) cs c s e g w h =
      deliver-Counted (get_elem? (entries_of s.lock.value) d.index) d.phase r d c s (ap reads e)
        (ap writes e) g h

  pub turn-Excluded :
      (o : Option (Client L M)) (i : ℕ) (cs : List (Client L M)) (s : Shared W L)
      → get_elem? cs i ≡ o
      → Excluded cs s
      → (let next = turn_of lis grow o i cs s in Excluded next.0 next.1)
  unfolding turn
  turn-Excluded none i cs s e x = x
  turn-Excluded (some c) i cs s e x =
      let next = turn lis grow c s in
      let r = sum-ge reading cs i c e in
      let w = sum-ge written cs i c e in
      let t =
        act-Counted c.stage c.calls c s refl (omega (arith, x.readers)) (omega (arith, x.writers))
          x.alone in
      record {
        readers = omega (arith, x.readers, t.readers, sum-set reading cs i c next.0 e);
        writers = omega (arith, x.writers, t.writers, sum-set written cs i c next.0 e);
        alone = t.alone;
      }

  pub run-Excluded :
      (schedule : List ℕ) (cs : List (Client L M)) (s : Shared W L)
      → Excluded cs s
      → (let end = run lis grow schedule cs s in Excluded end.0 end.1)
  unfolding run
  run-Excluded [] cs s x = x
  run-Excluded (i ∷ schedule) cs s x =
      let next = turn_of lis grow (get_elem? cs i) i cs s in
      run-Excluded schedule next.0 next.1 (turn-Excluded (get_elem? cs i) i cs s refl x)

-- The threads before any of them has made a call, and a lock that nobody holds.
pub record Resting {W L M : Type 0} (cs : List (Client L M)) (s : Shared W L) : Type 0 where
  pub idle : All (λ c. (c.stage ≡ outside) × (c.history ≡ [])) cs
  pub free : s.lock.readers ≡ 0
  pub unwritten : s.lock.writing ≡ false

pub Resting-Excluded :
    {W L M : Type 0} (cs : List (Client L M)) (s : Shared W L) → Resting cs s → Excluded cs s
Resting-Excluded cs s r = record {
  readers = omega (arith, none_inside reads cs refl r.idle, r.free);
  writers = rw r.unwritten (none_inside writes cs refl r.idle);
  alone = λ w. r.free;
}

module _ {W L M : Type 0} (lis : Listener W L M) (grow : ℕ → ℕ) where
  -- However the operations of the threads that call one notifier follow each other: its lock word
  -- counts the threads that are in a delivery, at most one thread has it for writing, and while one
  -- has, none is in a delivery.
  pub run_exclusive :
      (schedule : List ℕ) (cs : List (Client L M)) (s : Shared W L)
      → Resting cs s
      → (let (cs', s') = run lis grow schedule cs s in
          (sum reading cs' ≡ s'.lock.readers)
          × (sum written cs' ≤ 1)
          × (sum written cs' ≡ 1 → sum reading cs' ≡ 0))
  run_exclusive schedule cs s r =
      let x = run-Excluded lis grow schedule cs s (Resting-Excluded cs s r) in
      let s' = (run lis grow schedule cs s).1 in
      (x.readers, ground (arith, x.writers), λ w. ground (arith, x.writers, x.readers, x.alone))
