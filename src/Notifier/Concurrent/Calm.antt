-- ===== src/Notifier/Concurrent/Calm.antt =====
-- Listeners that do not bring another one back to life.
use mathlib.Core.Path.{subst}
use mathlib.Core.Option.{some-injective}
use nosy.Prelude.{
  ℕ, zero, suc, ◌≡◌, refl, sym, ap, ap₂, ◌∙◌, Bool, false, some, List, [], ◌∷◌, All, arith,
}
use nosy.Exec.{ok}
use nosy.Listener.{Listener, IsLawful, Independent}
use nosy.Notifier.Raw.{NotifierEntry, get_elem?}
use nosy.Notifier.Delivery.{AllLawful, AllApart}
use nosy.Notifier.Concurrent.{fetch_and}

pub All-get_elem? :
    {A : Type 0} (P : A → Type 0) (xs : List A) (i : ℕ) (x : A)
    → All P xs
    → get_elem? xs i ≡ some x
    → P x
All-get_elem? P [] i x h g = absurd (grind arith)
All-get_elem? P (y ∷ xs) zero x h g = subst P (some-injective _ _ g) h.0
All-get_elem? P (y ∷ xs) (suc i) x h g = All-get_elem? P xs i x h.1 g

module _ {L : Type 0} where
  -- Marking an entry leaves the listeners where they are.
  pub get_elem?-fetch_and :
      (i j : ℕ) (b : Bool) (es : List (NotifierEntry L)) (e : NotifierEntry L)
      → get_elem? (fetch_and j b es) i ≡ some e
      → (e' : NotifierEntry L) × (get_elem? es i ≡ some e') × (e'.listener ≡ e.listener)
  unfolding fetch_and
  get_elem?-fetch_and i j b [] e g = (e, g, refl)
  get_elem?-fetch_and zero zero b (x ∷ es) e g =
      (x, refl, ap (λ y. y.listener) (some-injective _ _ g))
  get_elem?-fetch_and zero (suc j) b (x ∷ es) e g = (e, g, refl)
  get_elem?-fetch_and (suc i) zero b (x ∷ es) e g = (e, g, refl)
  get_elem?-fetch_and (suc i) (suc j) b (x ∷ es) e g = get_elem?-fetch_and i j b es e g

module _ {W L M : Type 0} (lis : Listener W L M) (Inv : W → Type 0) where
  open lis use {receive}

  -- A listener that answers `false` from now on, and on which no message has an effect.
  pub record Dead (l : L) (w : W) : Type 0 where
    pub inv : Inv w
    pub answers : (ms : List M) → receive l ms w ≡ (ok false, w)

  -- A lawful listener that does not bring `l` back to life.
  pub record Calm (l x : L) : Type 0 where
    pub lawful : IsLawful lis Inv x
    pub keeps_dead : (ms : List M) (w : W) → Dead l w → Dead l (receive x ms w).1

  same-Calm : (l : L) → IsLawful lis Inv l → Calm l l
  same-Calm l h = record {
    lawful = h;
    keeps_dead = λ ms w d. subst (Dead l) (sym (ap (λ r. r.1) (d.answers ms))) d;
  }

  left-Calm : (l x : L) → IsLawful lis Inv x → Independent lis Inv x l → Calm l x
  left-Calm l x h a = record {
    lawful = h;
    keeps_dead = λ ms w d. record {
      inv = h.keeps ms w d.inv;
      answers = λ ys.
          ap₂ (λ r v. (r, v)) (a.right ms ys w d.inv ∙ ap (λ r. r.0) (d.answers ys))
            (a.swap ms ys w d.inv ∙ ap (λ r. (receive x ms r.1).1) (d.answers ys));
    };
  }

  right-Calm : (l x : L) → IsLawful lis Inv x → Independent lis Inv l x → Calm l x
  right-Calm l x h a = record {
    lawful = h;
    keeps_dead = λ ms w d. record {
      inv = h.keeps ms w d.inv;
      answers = λ ys.
          ap₂ (λ r v. (r, v)) (a.left ys ms w d.inv ∙ ap (λ r. r.0) (d.answers ys))
            (sym (a.swap ys ms w d.inv) ∙ ap (λ r. (receive x ms r.1).1) (d.answers ys));
    };
  }

  pub entries-Calm :
      (es : List (NotifierEntry L)) (k i : ℕ) (b e : NotifierEntry L)
      → AllLawful lis Inv es
      → AllApart lis Inv es
      → get_elem? es k ≡ some b
      → get_elem? es i ≡ some e
      → Calm b.listener e.listener
  entries-Calm [] k i b e h a g f = absurd (grind arith)
  entries-Calm (x ∷ es) zero zero b e h a g f =
      subst (λ y. Calm b.listener y.listener) (sym (some-injective _ _ g) ∙ some-injective _ _ f)
        (same-Calm b.listener (subst (λ y. IsLawful lis Inv y.listener) (some-injective _ _ g) h.0))
  entries-Calm (x ∷ es) zero (suc i) b e h a g f =
      subst (λ y. Calm y.listener e.listener) (some-injective _ _ g)
        (right-Calm x.listener e.listener
          (All-get_elem? (λ y. IsLawful lis Inv y.listener) es i e h.1 f)
          (All-get_elem? (λ y. Independent lis Inv x.listener y.listener) es i e a.0 f))
  entries-Calm (x ∷ es) (suc k) zero b e h a g f =
      subst (λ y. Calm b.listener y.listener) (some-injective _ _ f)
        (left-Calm b.listener x.listener h.0
          (All-get_elem? (λ y. Independent lis Inv x.listener y.listener) es k b a.0 g))
  entries-Calm (x ∷ es) (suc k) (suc i) b e h a g f = entries-Calm es k i b e h.1 a.1 g f
