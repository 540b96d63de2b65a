-- ===== src/Listener/Local.antt =====
-- Listeners whose state is one place of the world: `Flag`, `StoreLock` and their like. Such a
-- listener keeps the requirements if what it does to its place does, and two of them with places
-- of their own do not touch each other.
use nosy.Prelude.{◌≡◌, sym, ap, ap₂, ◌∙◌, Bool, false, List, [], ◌++◌}
use nosy.Exec.{ok, ◌>>◌}
use nosy.Memory.{Place, Apart}
use nosy.Listener.{Listener, IsLawful, Independent, answered}

-- `f` is what a slice does to the place, and `alive` what the listener answers.
pub record IsLocal {W L M S : Type 0} (lis : Listener W L M) (Inv : W → Type 0) (p : Place W S)
    (f : S → List M → S) (alive : S → Bool) (l : L) : Type 0 where
  pub receives :
      (ms : List M) (w : W)
      → Inv w
      → lis.receive l ms w ≡ (ok (alive (p.get w)), p.put (f (p.get w) ms) w)
  pub keeps : (ms : List M) (w : W) → Inv w → Inv (p.put (f (p.get w) ms) w)
  pub empty : (s : S) → f s [] ≡ s
  pub batch : (s : S) (xs ys : List M) → f s (xs ++ ys) ≡ f (f s xs) ys
  pub stays : (s : S) (ms : List M) → alive (f s ms) ≡ alive s
  pub dead : (s : S) (ms : List M) → alive s ≡ false → f s ms ≡ s

module _ {W L M S : Type 0} {lis : Listener W L M} {Inv : W → Type 0} {p : Place W S}
    {f : S → List M → S} {alive : S → Bool} {l : L} (h : IsLocal lis Inv p f alive l) where
  open lis use {receive}
  open p use {get, put}

  local-keeps : (ms : List M) (w : W) → Inv w → Inv (receive l ms w).1
  local-keeps ms w i = rw (h.receives ms w i) (h.keeps ms w i)

  local-empty : (w : W) → Inv w → (receive l [] w).1 ≡ w
  local-empty w i =
      ap (λ r. r.1) (h.receives [] w i) ∙ ap (λ s. put s w) (h.empty (get w)) ∙ p.put-get w

  -- A slice behind another.
  local-after :
      (xs ys : List M) (w : W)
      → Inv w
      → receive l ys (put (f (get w) xs) w) ≡ (ok (alive (get w)), put (f (f (get w) xs) ys) w)
  local-after xs ys w i =
      let s = f (get w) xs in
      h.receives ys (put s w) (h.keeps xs w i)
      ∙ rw (p.get-put s w) (ap₂ (λ b v. (ok b, v)) (h.stays (get w) xs) (p.put-put (f s ys) s w))

  local-batch :
      (xs ys : List M) (w : W) → Inv w → receive l (xs ++ ys) w ≡ (receive l xs >> receive l ys) w
  local-batch xs ys w i =
      h.receives (xs ++ ys) w i
      ∙ rw (h.receives xs w i) (rw (local-after xs ys w i, h.batch (get w) xs ys))

  local-dead :
      (xs : List M) (w : W)
      → Inv w
      → (receive l xs w).0 ≡ ok false
      → (ys : List M) → receive l ys (receive l xs w).1 ≡ (ok false, (receive l xs w).1)
  local-dead xs w i gone ys =
      let s = get w in
      let e : alive s ≡ false = ap answered (sym (ap (λ r. r.0) (h.receives xs w i)) ∙ gone) in
      rw (h.receives xs w i) (
        local-after xs ys w i
        ∙ ap₂ (λ b v. (ok b, put v w)) e (h.dead (f s xs) ys (h.stays s xs ∙ e)))

  pub local-IsLawful : IsLawful lis Inv l
  local-IsLawful = record {
    keeps = local-keeps;
    total = λ ms w i. (alive (get w), ap (λ r. r.0) (h.receives ms w i));
    empty = local-empty;
    batch = local-batch;
    dead = local-dead;
  }

-- What such a listener does commutes with every write to a place that is apart from its own.
module _ {W L M S T : Type 0} {lis : Listener W L M} {Inv : W → Type 0} {p : Place W S}
    {q : Place W T} {f : S → List M → S} {alive : S → Bool} {l : L}
    (h : IsLocal lis Inv p f alive l) (a : Apart p q) where
  open lis use {receive}

  pub local-put :
      (ms : List M) (t : T) (w : W)
      → Inv w
      → Inv (q.put t w)
      → receive l ms (q.put t w) ≡ ((receive l ms w).0, q.put t (receive l ms w).1)
  local-put ms t w i j =
      h.receives ms (q.put t w) j
      ∙ rw (a.get-left t w)
          (rw (h.receives ms w i) (ap (λ v. (ok (alive (p.get w)), v)) (a.put-swap _ t w)))

module _ {W L M S T : Type 0} {lis : Listener W L M} {Inv : W → Type 0} {p : Place W S}
    {q : Place W T} {f : S → List M → S} {g : T → List M → T} {alive : S → Bool} {living : T → Bool}
    {k l : L} (h : IsLocal lis Inv p f alive k) (h' : IsLocal lis Inv q g living l)
    (a : Apart p q) where
  open lis use {receive}

  left-after :
      (xs ys : List M) (w : W)
      → Inv w
      → receive k xs (receive l ys w).1
        ≡ (ok (alive (p.get w)), p.put (f (p.get w) xs) (q.put (g (q.get w) ys) w))
  left-after xs ys w i =
      rw (h'.receives ys w i)
        (h.receives xs _ (h'.keeps ys w i) ∙ rw (a.get-left (g (q.get w) ys) w))

  right-after :
      (xs ys : List M) (w : W)
      → Inv w
      → receive l ys (receive k xs w).1
        ≡ (ok (living (q.get w)), q.put (g (q.get w) ys) (p.put (f (p.get w) xs) w))
  right-after xs ys w i =
      rw (h.receives xs w i)
        (h'.receives ys _ (h.keeps xs w i) ∙ rw (a.get-right (f (p.get w) xs) w))

  pub local-Independent : Independent lis Inv k l
  local-Independent = record {
    swap = λ xs ys w i. rw (left-after xs ys w i, right-after xs ys w i) (sym (a.put-swap _ _ w));
    left = λ xs ys w i. rw (left-after xs ys w i, h.receives xs w i);
    right = λ xs ys w i. rw (right-after xs ys w i, h'.receives ys w i);
  }
