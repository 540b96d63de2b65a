-- ===== src/Memory/Within.antt =====
-- A part of what lies at a place, such as a field of a record, is a place too.
use nosy.Prelude.{◌≡◌, sym, ap, ◌∙◌}
use nosy.Exec.{Exec}
use nosy.Memory.{Place, Apart, Framed}

module _ {W S : Type 0} (p : Place W S) where
  -- What is written again after a write depends on the first one alone.
  pub put_again :
      (f : S → S) (s : S) (w : W) → p.put (f (p.get (p.put s w))) (p.put s w) ≡ p.put (f s) w
  put_again f s w = ap (λ x. p.put (f x) (p.put s w)) (p.get-put s w) ∙ p.put-put (f s) s w

module _ {W S T : Type 0} (p : Place W S) (part : Place S T) where
  unfoldable pub within : Place W T
  within = record {
    get = λ w. part.get (p.get w);
    put = λ t w. p.put (part.put t (p.get w)) w;
    get-put = λ t w. ap part.get (p.get-put _ w) ∙ part.get-put t (p.get w);
    put-get = λ w. ap (λ s. p.put s w) (part.put-get (p.get w)) ∙ p.put-get w;
    put-put = λ t u w.
        put_again p (part.put t) (part.put u (p.get w)) w
        ∙ ap (λ s. p.put s w) (part.put-put t u (p.get w));
  }

-- Two parts that have nothing in common lie apart.
module _ {W S T U : Type 0} (p : Place W S) {part : Place S T} {other : Place S U}
    (a : Apart part other) where
  pub within-Apart : Apart (within p part) (within p other)
  unfolding within
  within-Apart = record {
    get-left = λ u w. ap part.get (p.get-put _ w) ∙ a.get-left u (p.get w);
    get-right = λ t w. ap other.get (p.get-put _ w) ∙ a.get-right t (p.get w);
    put-swap = λ t u w.
        put_again p (part.put t) (other.put u (p.get w)) w
        ∙ ap (λ s. p.put s w) (a.put-swap t u (p.get w))
        ∙ sym (put_again p (other.put u) (part.put t (p.get w)) w);
  }

-- An action that leaves a place alone leaves its parts alone.
module _ {W S A : Type 0} (p : Place W S) {m : Exec W A} (f : Framed p m) where
  open p use {get, put, get-put, put-get}

  untouched : (w : W) → get (m w).1 ≡ get w
  untouched w =
      let e : m w ≡ ((m w).0, put (get w) (m w).1) =
        ap m (sym (put-get w)) ∙ f.commutes (get w) w in
      ap (λ r. get r.1) e ∙ get-put (get w) (m w).1

  pub part-commutes :
      (change : S → S) (w : W)
      → m (put (change (get w)) w) ≡ ((m w).0, put (change (get (m w).1)) (m w).1)
  part-commutes change w =
      f.commutes (change (get w)) w
      ∙ ap (λ s. ((m w).0, put (change s) (m w).1)) (sym (untouched w))
