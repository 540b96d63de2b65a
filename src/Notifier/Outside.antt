-- ===== src/Notifier/Outside.antt =====
-- Listeners that leave a place of the world alone, such as the notifier that calls them: what they
-- receive and answer does not depend on it, and they do not change it.
use nosy.Prelude.{◌≡◌, refl, ap, inl, inr, ◌∙◌, List, [], ◌∷◌, All}
use nosy.Exec.{Exec, Result-cases}
use nosy.Listener.{Listener, answered}
use nosy.Memory.{Place, Shared, inside, Framed}
use nosy.Memory.Within.{part-commutes}
use nosy.Notifier.Raw.{NotifierEntry, deliver}
use nosy.Notifier.Delivery.{answer, deliver-ok, deliver-panic, world, marked}

module _ {W L M S : Type 0} (lis : Listener W L M) (p : Place W S) where
  open lis use {receive}
  open p use {put}

  -- A listener that does not touch a place of the world.
  abbrev pub Outside : L → Type 0
  Outside l = (ms : List M) → Framed p (receive l ms)

  abbrev pub AllOutside : List (NotifierEntry L) → Type 0
  AllOutside = All (λ e. Outside e.listener)

  pub answer-put :
      (l : L) (ms : List M) (s : S) (w : W)
      → Outside l
      → answer lis l ms (put s w) ≡ answer lis l ms w
  answer-put l ms s w o = ap (λ r. answered r.0) ((o ms).commutes s w)

  pub world-put :
      (es : List (NotifierEntry L)) (ms : List M) (s : S) (w : W)
      → AllOutside es
      → world lis es ms (put s w) ≡ put s (world lis es ms w)
  world-put [] ms s w o = refl
  world-put (e ∷ es) ms s w o =
      rw ((o.0 ms).commutes s w) (world-put es ms s (receive e.listener ms w).1 o.1)

  pub marked-put :
      (es : List (NotifierEntry L)) (ms : List M) (s : S) (w : W)
      → AllOutside es
      → marked lis es ms (put s w) ≡ marked lis es ms w
  marked-put [] ms s w o = refl
  marked-put (e ∷ es) ms s w o = rw (answer-put e.listener ms s w o.0, marked-put es ms s w o.1)

  pub deliver-put :
      (es : List (NotifierEntry L)) (ms : List M) (s : S) (w : W)
      → AllOutside es
      → deliver lis es ms (put s w) ≡ (let r = deliver lis es ms w in (r.0, (r.1.0, put s r.1.1)))
  unfolding deliver
  deliver-put [] ms s w o = refl
  deliver-put (e ∷ es) ms s w o = elim (Result-cases (receive e.listener ms w).0) [
    | inl (alive, q) ↦
        let v = (receive e.listener ms w).1 in
        rw
          (deliver-ok lis e es ms alive (put s v) (put s w)
            ((o.0 ms).commutes s w ∙ ap (λ r. (r, put s v)) q))
          (rw (deliver-ok lis e es ms alive v w (ap (λ r. (r, v)) q))
            (rw (deliver-put es ms s v o.1)))
    | inr (x, q) ↦
        let v = (receive e.listener ms w).1 in
        rw
          (deliver-panic lis e es ms x (put s v) (put s w)
            ((o.0 ms).commutes s w ∙ ap (λ r. (r, put s v)) q))
          (rw (deliver-panic lis e es ms x v w (ap (λ r. (r, v)) q)))
  ]

-- Leaving a shared allocation alone is leaving its value alone.
pub inside-Framed :
    {W T A : Type 0} (p : Place W (Shared T)) {m : Exec W A} → Framed p m → Framed (inside p) m
unfolding inside
inside-Framed p f = record { commutes = λ v. part-commutes p f (λ s. record s { value = v }) }

module _ {W L M T : Type 0} (lis : Listener W L M) (p : Place W (Shared T)) where
  pub AllOutside-inside :
      (es : List (NotifierEntry L)) → AllOutside lis p es → AllOutside lis (inside p) es
  AllOutside-inside [] o = tt
  AllOutside-inside (e ∷ es) o = (λ ms. inside-Framed p (o.0 ms), AllOutside-inside es o.1)
