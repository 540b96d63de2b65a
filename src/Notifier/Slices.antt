-- ===== src/Notifier/Slices.antt =====
-- A batch against its parts: listeners that keep the requirements, each with its own state, cannot
-- tell a slice from its two halves.
use nosy.Prelude.{◌≡◌, refl, sym, ap, ap₂, ◌∙◌, Bool, true, false, ◌&&◌, List, [], ◌∷◌, ◌++◌}
use nosy.Exec.{ok, ◌>>◌, continue}
use nosy.Listener.{Listener, IsLawful, answered}
use nosy.Notifier.Raw.{NotifierEntry, RawNotifier, notify_many}
use nosy.Notifier.Delivery.{
  answer, world, marked, world-marked, AllLawful, AllApart, world-Inv, marked-Independent,
  world-Independent, answer-world, ApartFrom-marked, AllLawful-marked, AllApart-marked,
  notify_many_lem,
}

module _ {W L M : Type 0} (lis : Listener W L M) (Inv : W → Type 0) where
  open lis use {receive}

  -- One listener: the two halves of a slice, one after the other.
  pub receive-append :
      (l : L) (xs ys : List M) (w : W)
      → Inv w
      → IsLawful lis Inv l
      → receive l (xs ++ ys) w ≡ receive l ys (receive l xs w).1
  receive-append l xs ys w i h =
      let (alive, q) = h.total xs w i in h.batch xs ys w i ∙ rw (q, continue)

  -- A listener that answers that it is dead gives no other answer later.
  answer_stays :
      (l : L) (xs ys : List M) (w : W)
      → Inv w
      → IsLawful lis Inv l
      → answer lis l xs w && answer lis l ys (receive l xs w).1 ≡ answer lis l ys (receive l xs w).1
  answer_stays l xs ys w i h = let (alive, q) = h.total xs w i in rw (q, answered) (stays alive q)
    where
      stays :
          (alive : Bool)
          → (receive l xs w).0 ≡ ok alive
          → alive && answer lis l ys (receive l xs w).1 ≡ answer lis l ys (receive l xs w).1
      stays true q = refl
      stays false q = rw (h.dead xs w i q ys)

  pub world-append :
      (es : List (NotifierEntry L)) (xs ys : List M) (w : W)
      → Inv w
      → AllLawful lis Inv es
      → AllApart lis Inv es
      → world lis es (xs ++ ys) w ≡ world lis es ys (world lis es xs w)
  world-append [] xs ys w i h a = refl
  world-append (e ∷ es) xs ys w i h a =
      let k = e.listener in
      let v = (receive k xs w).1 in
      let iv = h.0.keeps xs w i in
      rw (receive-append k xs ys w i h.0) (
        world-append es xs ys (receive k ys v).1 (h.0.keeps ys v iv) h.1 a.1
        ∙ ap (world lis es ys) (world-Independent lis Inv k es ys xs v iv h.1 a.0))

  answer-append :
      (b : Bool) (e : NotifierEntry L) (es : List (NotifierEntry L)) (xs ys : List M) (w : W)
      → Inv w
      → AllLawful lis Inv (e ∷ es)
      → AllApart lis Inv (e ∷ es)
      → b && answer lis e.listener (xs ++ ys) w
        ≡ (b && answer lis e.listener xs w)
          && answer lis e.listener ys (world lis es xs (receive e.listener xs w).1)
  answer-append false e es xs ys w i h a = refl
  answer-append true e es xs ys w i h a =
      let k = e.listener in
      rw (receive-append k xs ys w i h.0) (
        rw (answer-world lis Inv k es ys xs (receive k xs w).1 (h.0.keeps xs w i) h.1 a.0)
          (sym (answer_stays k xs ys w i h.0)))

  pub marked-append :
      (es : List (NotifierEntry L)) (xs ys : List M) (w : W)
      → Inv w
      → AllLawful lis Inv es
      → AllApart lis Inv es
      → marked lis es (xs ++ ys) w ≡ marked lis (marked lis es xs w) ys (world lis es xs w)
  marked-append [] xs ys w i h a = refl
  marked-append (e ∷ es) xs ys w i h a =
      let k = e.listener in
      ap₂ (λ alive rest. record { listener = k; was_alive = alive } ∷ rest)
        (answer-append e.was_alive e es xs ys w i h a)
        (rw (world-Independent lis Inv k es xs xs w i h.1 a.0) (
          marked-append es xs ys w i h.1 a.1
          ∙ sym (
              marked-Independent lis Inv k (marked lis es xs w) xs ys (world lis es xs w)
                (world-Inv lis Inv es xs w i h.1) (ApartFrom-marked lis Inv k es xs w a.0))))

  -- When every listener keeps the requirements and its own state, a batch is delivered as if its
  -- parts had been sent one after the other: the notifier and the world end up the same.
  pub notify_many-append :
      (raw : RawNotifier L) (xs ys : List M) (w : W)
      → Inv w
      → AllLawful lis Inv raw.listeners
      → AllApart lis Inv raw.listeners
      → notify_many lis (xs ++ ys) (raw, w) ≡ (notify_many lis xs >> notify_many lis ys) (raw, w)
  notify_many-append raw xs ys w i h a =
      let es = raw.listeners in
      let v = world lis es xs w in
      rw (notify_many_lem lis Inv raw xs w i h a) (
        rw (notify_many_lem lis Inv raw (xs ++ ys) w i h a) (
          rw
            (notify_many_lem lis Inv (record raw { listeners = marked lis es xs w }) ys v
              (world-Inv lis Inv es xs w i h) (AllLawful-marked lis Inv es xs w h)
              (AllApart-marked lis Inv es xs w a))
            (rw (
              marked-append es xs ys w i h a,
              world-append es xs ys w i h a,
              world-marked lis es xs ys w v,
            ))))
