-- ===== src/Notifier/Delivery.antt =====
-- What a delivery by `RawNotifier` does when every listener keeps the documented requirements.
use nosy.Prelude.{◌≡◌, refl, sym, ap, ap₂, ◌∙◌, Bool, ◌&&◌, List, [], ◌∷◌, All, Pairs}
use nosy.Exec.{Panic, ok, panic}
use nosy.Listener.{Listener, IsLawful, Independent, answered}
use nosy.Notifier.Raw.{NotifierEntry, RawNotifier, deliver, notify_many}

module _ {W L M : Type 0} (lis : Listener W L M) where
  open lis use {receive}

  -- The answer of a listener that does not panic.
  abbrev pub answer : L → List M → W → Bool
  answer l ms w = answered (receive l ms w).0

  -- The world after each entry has received the whole slice, in order.
  abbrev pub world : List (NotifierEntry L) → List M → W → W
  world [] ms w = w
  world (e ∷ es) ms w = world es ms (receive e.listener ms w).1

  -- The entries with their bits joined to the answers that their listeners give in the world `w`.
  abbrev pub marked : List (NotifierEntry L) → List M → W → List (NotifierEntry L)
  marked [] ms w = []
  marked (e ∷ es) ms w =
      record e { was_alive = e.was_alive && answer e.listener ms w } ∷ marked es ms w

  pub deliver-ok :
      (e : NotifierEntry L) (es : List (NotifierEntry L)) (ms : List M) (alive : Bool) (v w : W)
      → receive e.listener ms w ≡ (ok alive, v)
      → deliver lis (e ∷ es) ms w ≡ (
          let r = deliver lis es ms v in
          (r.0, (record e { was_alive = e.was_alive && alive } ∷ r.1.0, r.1.1)))
  unfolding deliver
  deliver-ok e es ms alive v w q = rw (ap (λ r. r.0) q, deliver) (rw (ap (λ r. r.1) q))

  pub deliver-panic :
      (e : NotifierEntry L) (es : List (NotifierEntry L)) (ms : List M) (x : Panic) (v w : W)
      → receive e.listener ms w ≡ (panic x, v)
      → deliver lis (e ∷ es) ms w ≡ (panic x, (e ∷ es, v))
  unfolding deliver
  deliver-panic e es ms x v w q = rw (ap (λ r. r.0) q, deliver) (rw (ap (λ r. r.1) q))

  pub world-marked :
      (es : List (NotifierEntry L)) (xs ys : List M) (v w : W)
      → world (marked es xs v) ys w ≡ world es ys w
  world-marked [] xs ys v w = refl
  world-marked (e ∷ es) xs ys v w = world-marked es xs ys v (receive e.listener ys w).1

module _ {W L M : Type 0} (lis : Listener W L M) (Inv : W → Type 0) where
  open lis use {receive}

  abbrev pub AllLawful : List (NotifierEntry L) → Type 0
  AllLawful = All (λ e. IsLawful lis Inv e.listener)

  abbrev pub AllApart : List (NotifierEntry L) → Type 0
  AllApart = Pairs (λ e f. Independent lis Inv e.listener f.listener)

  -- Asking a lawful listener whether it is alive changes nothing.
  pub receive-nil :
      (l : L) (w : W) → Inv w → IsLawful lis Inv l → receive l [] w ≡ (ok (answer lis l [] w), w)
  receive-nil l w i h =
      let (alive, q) = h.total [] w i in
      ap₂ (λ r v. (r, v)) (q ∙ ap ok (sym (ap answered q))) (h.empty w i)

  pub world-Inv :
      (es : List (NotifierEntry L)) (ms : List M) (w : W)
      → Inv w
      → AllLawful es
      → Inv (world lis es ms w)
  world-Inv [] ms w i h = i
  world-Inv (e ∷ es) ms w i h = world-Inv es ms (receive e.listener ms w).1 (h.0.keeps ms w i) h.1

  module _ (k : L) where
    abbrev pub ApartFrom : List (NotifierEntry L) → Type 0
    ApartFrom = All (λ e. Independent lis Inv k e.listener)

    pub marked-Independent :
        (es : List (NotifierEntry L)) (xs ys : List M) (w : W)
        → Inv w
        → ApartFrom es
        → marked lis es ys (receive k xs w).1 ≡ marked lis es ys w
    marked-Independent [] xs ys w i a = refl
    marked-Independent (e ∷ es) xs ys w i a =
        ap₂ (λ alive rest. record e { was_alive = e.was_alive && answered alive } ∷ rest)
          (a.0.right xs ys w i) (marked-Independent es xs ys w i a.1)

    pub world-Independent :
        (es : List (NotifierEntry L)) (xs ys : List M) (w : W)
        → Inv w
        → AllLawful es
        → ApartFrom es
        → world lis es ys (receive k xs w).1 ≡ (receive k xs (world lis es ys w)).1
    world-Independent [] xs ys w i h a = refl
    world-Independent (e ∷ es) xs ys w i h a =
        rw (a.0.swap xs ys w i)
          (world-Independent es xs ys (receive e.listener ys w).1 (h.0.keeps ys w i) h.1 a.1)

    pub answer-world :
        (es : List (NotifierEntry L)) (xs ys : List M) (w : W)
        → Inv w
        → AllLawful es
        → ApartFrom es
        → answer lis k xs (world lis es ys w) ≡ answer lis k xs w
    answer-world [] xs ys w i h a = refl
    answer-world (e ∷ es) xs ys w i h a =
        answer-world es xs ys (receive e.listener ys w).1 (h.0.keeps ys w i) h.1 a.1
        ∙ ap answered (a.0.left xs ys w i)

    pub ApartFrom-marked :
        (es : List (NotifierEntry L)) (xs : List M) (v : W)
        → ApartFrom es
        → ApartFrom (marked lis es xs v)
    ApartFrom-marked [] xs v a = tt
    ApartFrom-marked (e ∷ es) xs v a = (a.0, ApartFrom-marked es xs v a.1)

  deliver_lem :
      (es : List (NotifierEntry L)) (ms : List M) (w : W)
      → Inv w
      → AllLawful es
      → AllApart es
      → deliver lis es ms w ≡ (ok tt, (marked lis es ms w, world lis es ms w))
  deliver_lem [] ms w i h a = unfold deliver in refl
  deliver_lem (e ∷ es) ms w i h a =
      let (alive, q) = h.0.total ms w i in
      let v = (receive e.listener ms w).1 in
      deliver-ok lis e es ms alive v w (ap (λ r. (r, v)) q)
      ∙ rw (deliver_lem es ms v (h.0.keeps ms w i) h.1 a.1)
          (rw (marked-Independent e.listener es ms ms w i a.0) (rw q))

  pub AllLawful-marked :
      (es : List (NotifierEntry L)) (xs : List M) (v : W)
      → AllLawful es
      → AllLawful (marked lis es xs v)
  AllLawful-marked [] xs v h = tt
  AllLawful-marked (e ∷ es) xs v h = (h.0, AllLawful-marked es xs v h.1)

  pub AllApart-marked :
      (es : List (NotifierEntry L)) (xs : List M) (v : W)
      → AllApart es
      → AllApart (marked lis es xs v)
  AllApart-marked [] xs v a = tt
  AllApart-marked (e ∷ es) xs v a =
      (ApartFrom-marked e.listener es xs v a.0, AllApart-marked es xs v a.1)

  -- When every listener keeps the requirements of `Listener` and its own state,
  -- `RawNotifier::notify_many` does not panic, each listener receives the whole slice once, in the
  -- order of the entries, and its own answer is joined to its own bit.
  pub notify_many_lem :
      (raw : RawNotifier L) (ms : List M) (w : W)
      → Inv w
      → AllLawful raw.listeners
      → AllApart raw.listeners
      → notify_many lis ms (raw, w) ≡ (
        ok tt,
        (record raw { listeners = marked lis raw.listeners ms w }, world lis raw.listeners ms w),
      )
  unfolding notify_many
  notify_many_lem raw ms w i h a = rw (deliver_lem raw.listeners ms w i h a)
