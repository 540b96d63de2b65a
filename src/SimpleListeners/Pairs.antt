-- ===== src/SimpleListeners/Pairs.antt =====
-- src/simple_listeners.rs: a pair of listeners, and `NullListener`, as listeners that keep the
-- requirements.
use nosy.Prelude.{
  ◌≡◌, refl, sym, ap, ap₂, ◌∙◌, ◌⊎◌, inl, inr, Bool, false, ◌||◌, List, [], ◌++◌, arith,
}
use nosy.Exec.{Exec, ok, ◌>>◌}
use nosy.Listener.{Listener, IsLawful, Independent, answered}
use nosy.Notifier.Delivery.{answer}
use nosy.SimpleListeners.{null_listener, both, receive_both}

pub null_listener-IsLawful :
    {W M : Type 0} (Inv : W → Type 0) → IsLawful (null_listener {M = M}) Inv tt
null_listener-IsLawful Inv = record {
  keeps = λ ms w i. i;
  total = λ ms w i. (false, refl);
  empty = λ w i. refl;
  batch = λ xs ys w i. refl;
  dead = λ xs w i e ys. refl;
}

-- Listeners of either of two types.
module _ {W K L M : Type 0} (lis : Listener W K M) (lis' : Listener W L M) where
  abbrev either_receive : K ⊎ L → List M → Exec W Bool
  either_receive (inl k) = lis.receive k
  either_receive (inr l) = lis'.receive l

  abbrev pub either : Listener W (K ⊎ L) M
  either = record { receive = either_receive }

or_false : (a b : Bool) → ok (a || b) ≡ ok false → (a ≡ false) × (b ≡ false)
or_false a b e = ground arith

module _ {W L M : Type 0} (lis : Listener W L M) (Inv : W → Type 0) (l : L)
    (h : IsLawful lis Inv l) where
  open lis use {receive}

  answers :
      (ms : List M) (w : W) → Inv w → receive l ms w ≡ (ok (answer lis l ms w), (receive l ms w).1)
  answers ms w i =
      let (alive, q) = h.total ms w i in
      ap (λ r. (r, (receive l ms w).1)) (q ∙ ap ok (sym (ap answered q)))

  in_turn :
      (xs ys : List M) (w : W) → Inv w → receive l (xs ++ ys) w ≡ receive l ys (receive l xs w).1
  in_turn xs ys w i = h.batch xs ys w i ∙ rw (answers xs w i) refl

module _ {W K L M : Type 0} (lis : Listener W K M) (lis' : Listener W L M) (Inv : W → Type 0)
    (k : K) (l : L) (h : IsLawful lis Inv k) (h' : IsLawful lis' Inv l)
    (a : Independent (either lis lis') Inv (inl k) (inr l)) where
  open lis use {receive}
  open lis' use {receive as receive'}

  -- The world after both have received.
  abbrev after : List M → W → W
  after ms w = (receive' l ms (receive k ms w).1).1

  after-Inv : (ms : List M) (w : W) → Inv w → Inv (after ms w)
  after-Inv ms w i = h'.keeps ms _ (h.keeps ms w i)

  received :
      (ms : List M) (w : W)
      → Inv w
      → receive_both lis lis' (k, l) ms w
        ≡ (ok (answer lis k ms w || answer lis' l ms w), after ms w)
  unfolding receive_both
  received ms w i = rw (answers lis Inv k h ms w i) (
      rw (answers lis' Inv l h' ms (receive k ms w).1 (h.keeps ms w i))
        (ap (λ r. (ok (answer lis k ms w || answered r), after ms w)) (a.right ms ms w i)))

  -- What one of them has received does not matter to the other.
  after-swap : (ms : List M) (w : W) → Inv w → after ms w ≡ (receive k ms (receive' l ms w).1).1
  after-swap ms w i = a.swap ms ms w i

  answer-left :
      (xs ys : List M) (w : W)
      → Inv w
      → answer lis k ys (after xs w) ≡ answer lis k ys (receive k xs w).1
  answer-left xs ys w i = ap answered (a.left ys xs (receive k xs w).1 (h.keeps xs w i))

  answer-right :
      (xs ys : List M) (w : W)
      → Inv w
      → answer lis' l ys (after xs w) ≡ answer lis' l ys (receive' l xs w).1
  answer-right xs ys w i =
      ap (answer lis' l ys) (after-swap xs w i)
      ∙ ap answered (a.right xs ys (receive' l xs w).1 (h'.keeps xs w i))

  after-append : (xs ys : List M) (w : W) → Inv w → after (xs ++ ys) w ≡ after ys (after xs w)
  after-append xs ys w i =
      let u = (receive k xs w).1 in
      let j = h.keeps xs w i in
      ap (λ r. (receive' l (xs ++ ys) r.1).1) (in_turn lis Inv k h xs ys w i)
      ∙ ap (λ r. r.1) (in_turn lis' Inv l h' xs ys (receive k ys u).1 (h.keeps ys u j))
      ∙ ap (λ v. (receive' l ys v).1) (a.swap ys xs u j)

  pair-batch :
      (xs ys : List M) (w : W)
      → Inv w
      → receive_both lis lis' (k, l) (xs ++ ys) w
        ≡ (receive_both lis lis' (k, l) xs >> receive_both lis lis' (k, l) ys) w
  pair-batch xs ys w i =
      received (xs ++ ys) w i
      ∙ ap₂ (λ b v. (ok b, v))
          (ap₂ (λ r s. answered r.0 || answered s.0) (in_turn lis Inv k h xs ys w i)
              (in_turn lis' Inv l h' xs ys w i)
            ∙ sym (ap₂ ◌||◌ (answer-left xs ys w i) (answer-right xs ys w i)))
          (after-append xs ys w i)
      ∙ rw (received xs w i) (sym (received ys (after xs w) (after-Inv xs w i)))

  -- When both are dead, neither changes anything any more.
  settled :
      (xs ys : List M) (w : W)
      → Inv w
      → receive k ys (receive k xs w).1 ≡ (ok false, (receive k xs w).1)
      → receive' l ys (receive' l xs w).1 ≡ (ok false, (receive' l xs w).1)
      → after ys (after xs w) ≡ after xs w
  settled xs ys w i gone gone' =
      ap (λ v. (receive' l ys v).1)
        (sym (a.swap ys xs (receive k xs w).1 (h.keeps xs w i))
          ∙ ap (λ r. (receive' l xs r.1).1) gone
          ∙ after-swap xs w i)
      ∙ a.swap xs ys (receive' l xs w).1 (h'.keeps xs w i)
      ∙ ap (λ r. (receive k xs r.1).1) gone'
      ∙ sym (after-swap xs w i)

  pair-dead :
      (xs : List M) (w : W)
      → Inv w
      → (receive_both lis lis' (k, l) xs w).0 ≡ ok false
      → (ys : List M)
      → receive_both lis lis' (k, l) ys (receive_both lis lis' (k, l) xs w).1
        ≡ (ok false, (receive_both lis lis' (k, l) xs w).1)
  pair-dead xs w i e ys =
      let (f, g) =
        or_false (answer lis k xs w) (answer lis' l xs w)
          (sym (ap (λ r. r.0) (received xs w i)) ∙ e) in
      let gone = h.dead xs w i (ap (λ r. r.0) (answers lis Inv k h xs w i) ∙ ap ok f) ys in
      let gone' = h'.dead xs w i (ap (λ r. r.0) (answers lis' Inv l h' xs w i) ∙ ap ok g) ys in
      rw (received xs w i) (
        received ys (after xs w) (after-Inv xs w i)
        ∙ ap₂ (λ b v. (ok b, v))
            (ap₂ ◌||◌ (answer-left xs ys w i ∙ ap (λ r. answered r.0) gone)
              (answer-right xs ys w i ∙ ap (λ r. answered r.0) gone'))
            (settled xs ys w i gone gone'))

  -- A pair of listeners keeps the requirements of `Listener` if both do and they do not touch each
  -- other.
  pub both-IsLawful : IsLawful (both lis lis') Inv (k, l)
  both-IsLawful = record {
    keeps = λ ms w i. rw (received ms w i) (after-Inv ms w i);
    total = λ ms w i. (_, ap (λ r. r.0) (received ms w i));
    empty = λ w i. ap (λ r. r.1) (received [] w i) ∙ h'.empty _ (h.keeps [] w i) ∙ h.empty w i;
    batch = pair-batch;
    dead = pair-dead;
  }
