-- ===== src/Buffer/Notifiers.antt =====
-- `RawBuffer` in front of a `RawNotifier`, and `Buffer` in front of a `Notifier`.
use nosy.Prelude.{ℕ, ◌<◌, ◌≡◌, sym, ap, ◌∙◌, List, [], ◌∷◌, ◌++◌}
use nosy.Exec.{ok, ◌>>◌}
use nosy.Listener.{Listener}
use nosy.Memory.{Place}
use nosy.ArrayVec.{ArrayVec}
use nosy.Notifier.Raw
use nosy.Notifier.Raw.{NotifierEntry, RawNotifier}
use nosy.Notifier.Delivery.{
  AllLawful, AllApart, marked, world, notify_many_lem, AllLawful-marked, AllApart-marked,
  world-marked, world-Inv,
}
use nosy.Notifier.Slices.{notify_many-append, marked-append, world-append}
use nosy.Notifier.Locked
use nosy.Notifier.Locked.{Notifier}
use nosy.Notifier.Outside.{AllOutside}
use nosy.Notifier.Shared.{idle, notify_many-opened}
use nosy.Buffer.{push_all, drop}
use nosy.Buffer.Batches.{Batching, send_each, push_all-drop}

module _ {W L M : Type 0} (lis : Listener W L M) (Inv : W → Type 0) where
  -- Listeners that keep the requirements, each with its own state.
  abbrev pub Good : RawNotifier L × W → Type 0
  Good s = Inv s.1 × AllLawful lis Inv s.0.listeners × AllApart lis Inv s.0.listeners

  raw-returns :
      (ms : List M) (s : RawNotifier L × W) → Good s → (Raw.notify_many lis ms s).0 ≡ ok tt
  raw-returns ms (raw, w) g = ap (λ r. r.0) (notify_many_lem lis Inv raw ms w g.0 g.1 g.2)

  raw-keeps : (ms : List M) (s : RawNotifier L × W) → Good s → Good (Raw.notify_many lis ms s).1
  raw-keeps ms (raw, w) g = rw (notify_many_lem lis Inv raw ms w g.0 g.1 g.2) (
    world-Inv lis Inv raw.listeners ms w g.0 g.1,
    AllLawful-marked lis Inv raw.listeners ms w g.1,
    AllApart-marked lis Inv raw.listeners ms w g.2,
  )

  raw-Batching : Batching Good (Raw.notify_many lis)
  raw-Batching = record {
    returns = raw-returns;
    keeps = raw-keeps;
    append = λ xs ys s g. notify_many-append lis Inv s.0 xs ys s.1 g.0 g.1 g.2;
  }

  -- Messages pushed through a `RawBuffer` of at least one message that is then dropped reach the
  -- listeners, which keep the requirements and do not touch each other, as if each had been sent by
  -- itself, without a panic, and the buffer is empty.
  pub raw_buffer_lem :
      {Buf : Type 0} {capacity : ℕ} (av : ArrayVec Buf M capacity) (ms : List M)
      (raw : RawNotifier L) (w : W)
      → 0 < capacity
      → Inv w
      → AllLawful lis Inv raw.listeners
      → AllApart lis Inv raw.listeners
      → (b : Buf) × ((push_all av (Raw.notify_many lis) ms >> drop av (Raw.notify_many lis))
            (av.new, (raw, w))
          ≡ (ok tt, (b, send_each (Raw.notify_many lis) ms (raw, w))))
        × (av.as_slice b ≡ [])
  raw_buffer_lem av ms raw w c i h a =
      push_all-drop (Raw.notify_many lis) raw-Batching av c ms (raw, w) (i, h, a)

module _ {W L M : Type 0} (lis : Listener W L M) (Inv : W → Type 0) (p : Place W (Notifier L))
    (unaffected : (s : Notifier L) (w : W) → Inv w → Inv (p.put s w)) where
  -- An open notifier that nobody holds, with such listeners, none of which reaches back into it.
  abbrev pub Ready : W → Type 0
  Ready w =
      (raw : RawNotifier L) × (p.get w ≡ idle lis p raw)
      × Inv w
      × AllLawful lis Inv raw.listeners
      × AllApart lis Inv raw.listeners
      × AllOutside lis p raw.listeners

  put_self : (raw : RawNotifier L) (w : W) → p.get w ≡ idle lis p raw → p.put (idle lis p raw) w ≡ w
  put_self raw w e = rw (← e) (p.put-get w)

  AllOutside-marked :
      (es : List (NotifierEntry L)) (ms : List M) (v : W)
      → AllOutside lis p es
      → AllOutside lis p (marked lis es ms v)
  AllOutside-marked [] ms v o = tt
  AllOutside-marked (e ∷ es) ms v o = (o.0, AllOutside-marked es ms v o.1)

  ready_lem :
      (ms : List M) (w : W) (r : Ready w)
      → Locked.notify_many lis p ms w ≡ (
        ok tt,
        p.put
            (idle lis p (record r.0 { listeners = marked lis r.0.listeners ms w }))
            (world lis r.0.listeners ms w),
      )
  ready_lem ms w (raw, e, i, h, a, o) =
      ap (Locked.notify_many lis p ms) (sym (put_self raw w e))
      ∙ notify_many-opened lis Inv p unaffected raw ms w i h a o

  shared-keeps : (ms : List M) (w : W) → Ready w → Ready (Locked.notify_many lis p ms w).1
  shared-keeps ms w r = rw (ready_lem ms w r) (
    record r.0 { listeners = marked lis r.0.listeners ms w },
    p.get-put _ (world lis r.0.listeners ms w),
    unaffected _ (world lis r.0.listeners ms w) (world-Inv lis Inv r.0.listeners ms w r.2 r.3),
    AllLawful-marked lis Inv r.0.listeners ms w r.3,
    AllApart-marked lis Inv r.0.listeners ms w r.4,
    AllOutside-marked r.0.listeners ms w r.5,
  )

  shared-append :
      (xs ys : List M) (w : W)
      → Ready w
      → Locked.notify_many lis p (xs ++ ys) w
        ≡ (Locked.notify_many lis p xs >> Locked.notify_many lis p ys) w
  shared-append xs ys w r =
      let es = r.0.listeners in
      let v = world lis es xs w in
      rw (ready_lem xs w r) (
        ready_lem (xs ++ ys) w r
        ∙ rw
            (
              marked-append lis Inv es xs ys w r.2 r.3 r.4,
              world-append lis Inv es xs ys w r.2 r.3 r.4,
            )
            (sym (
              notify_many-opened lis Inv p unaffected
                (record r.0 { listeners = marked lis es xs w }) ys v
                (world-Inv lis Inv es xs w r.2 r.3) (AllLawful-marked lis Inv es xs w r.3)
                (AllApart-marked lis Inv es xs w r.4) (AllOutside-marked es xs w r.5)
              ∙ rw (world-marked lis es xs ys w v))))

  shared-Batching : Batching Ready (Locked.notify_many lis p)
  shared-Batching = record {
    returns = λ ms w r. ap (λ s. s.0) (ready_lem ms w r);
    keeps = shared-keeps;
    append = shared-append;
  }

  -- Messages pushed through a `Buffer` of at least one message that is then dropped reach the
  -- listeners of an open notifier, which keep the requirements, do not touch each other and do not
  -- reach back, as if each had been sent by itself, without a panic, and the buffer is empty.
  pub buffer_lem :
      {Buf : Type 0} {capacity : ℕ} (av : ArrayVec Buf M capacity) (ms : List M) (w : W)
      → 0 < capacity
      → Ready w
      → (b : Buf) × ((push_all av (Locked.notify_many lis p) ms
              >> drop av (Locked.notify_many lis p))
            (av.new, w)
          ≡ (ok tt, (b, send_each (Locked.notify_many lis p) ms w)))
        × (av.as_slice b ≡ [])
  buffer_lem av ms w c r = push_all-drop (Locked.notify_many lis p) shared-Batching av c ms w r
