-- ===== src/Notifier/Forwarder.antt =====
-- What a `NotifierForwarder` does: to an open notifier, to a closed one, and to one that is gone.
use mathlib.Core.Path.{subst}
use nosy.Prelude.{ℕ, suc, ◌+◌, ◌≡◌, ap, sym, ◌∙◌, List, false, true}
use nosy.Exec.{ok, panic, closed, continue}
use nosy.Listener.{Listener}
use nosy.Memory.{Place, Shared, shared, inside, with_upgraded_alive, with_upgraded_dead}
use nosy.Notifier.Locked.{Notifier, shut, notify_many, forward}
use nosy.Notifier.Outside.{AllOutside, world-put, marked-put, AllOutside-inside}
use nosy.Notifier.Raw.{RawNotifier}
use nosy.Notifier.Delivery.{AllLawful, AllApart, world, marked}
use nosy.Notifier.Shared.{idle, notify_many-closed, notify_many-opened}

module _ {W L M : Type 0} (lis : Listener W L M) (p : Place W (Shared (Notifier L))) where
  open p use {put, get-put, put-put}

  abbrev pub no_listeners : Notifier L
  no_listeners = record { readers = 0; writing = false; value = shut }

  inside-again :
      (n : ℕ) (c : Notifier L) (w : W)
      → (inside p).put c (put (shared p n c) w) ≡ put (shared p n c) w
  unfolding inside
  inside-again n c w = rw (get-put (shared p n c) w) (put-put _ (shared p n c) w)

  inside-closed :
      (n : ℕ) (ms : List M) (w : W)
      → notify_many lis (inside p) ms (put (shared p n no_listeners) w)
        ≡ (panic closed, put (shared p n no_listeners) w)
  inside-closed n ms w =
      let v = put (shared p n no_listeners) w in
      subst (λ u. notify_many lis (inside p) ms u ≡ (panic closed, u))
        (inside-again n no_listeners w) (notify_many-closed lis (inside p) ms v)

  -- A forwarder to a closed notifier that has an owner and is not held panics, whatever the slice,
  -- and a forwarder to a notifier without an owner answers that it is dead. Neither changes
  -- anything.
  pub forward_lem :
      (n : ℕ) (c : Notifier L) (ms : List M) (w : W)
      → (forward lis p ms (put (shared p (suc n) no_listeners) w)
          ≡ (panic closed, put (shared p (suc n) no_listeners) w))
        × (forward lis p ms (put (shared p 0 c) w) ≡ (ok false, put (shared p 0 c) w))
  unfolding forward
  forward_lem n c ms w = (
    rw (
        with_upgraded_alive p _ (panic closed) n no_listeners no_listeners w w
          (ap (λ r. continue r.0 (λ _ v. (ok true, v)) r.1) (inside-closed (suc n + 1) ms w))),
    rw (with_upgraded_dead p _ c w),
  )

  inside-put :
      (n : ℕ) (c c' : Notifier L) (w : W)
      → (inside p).put c' (put (shared p n c) w) ≡ put (shared p n c') w
  unfolding inside
  inside-put n c c' w = rw (get-put (shared p n c) w) (put-put _ (shared p n c) w)

module _ {W L M : Type 0} (lis : Listener W L M) (Inv : W → Type 0)
    (p : Place W (Shared (Notifier L)))
    (unaffected : (s : Shared (Notifier L)) (w : W) → Inv w → Inv (p.put s w)) where
  open p use {put, get}

  -- The notifier at `p` with `n` owners, open, when nobody holds its lock.
  abbrev pub opened_at : ℕ → RawNotifier L → W → W
  opened_at n raw = put (shared p n (idle lis (inside p) raw))

  inside_unaffected : (s : Notifier L) (w : W) → Inv w → Inv ((inside p).put s w)
  unfolding inside
  inside_unaffected s w i = unaffected (record (get w) { value = s }) w i

  inside-opened :
      (n : ℕ) (raw : RawNotifier L) (ms : List M) (w : W)
      → Inv w
      → AllLawful lis Inv raw.listeners
      → AllApart lis Inv raw.listeners
      → AllOutside lis p raw.listeners
      → notify_many lis (inside p) ms (opened_at n raw w) ≡ (
        ok tt,
        opened_at n
            (record raw { listeners = marked lis raw.listeners ms w })
            (world lis raw.listeners ms w),
      )
  inside-opened n raw ms w i h a o =
      let q = inside p in
      let c = idle lis q raw in
      let v = opened_at n raw w in
      let es = raw.listeners in
      ap (notify_many lis q ms) (sym (inside-again lis p n c w))
      ∙ notify_many-opened lis Inv q inside_unaffected raw ms v (unaffected (shared p n c) w i) h a
          (AllOutside-inside lis p es o)
      ∙ rw (marked-put lis p es ms (shared p n c) w o, world-put lis p es ms (shared p n c) w o)
          (ap (λ u. (ok tt, u)) (inside-put lis p n c _ (world lis es ms w)))

  -- A forwarder to an open notifier that has an owner and is not held, and whose listeners keep the
  -- requirements, do not touch each other and leave the notifier alone, delivers the slice to each
  -- of them once and answers that it is alive; the notifier has as many owners as before.
  pub forward-opened :
      (n : ℕ) (raw : RawNotifier L) (ms : List M) (w : W)
      → Inv w
      → AllLawful lis Inv raw.listeners
      → AllApart lis Inv raw.listeners
      → AllOutside lis p raw.listeners
      → forward lis p ms (opened_at (suc n) raw w) ≡ (
        ok true,
        opened_at
            (suc n)
            (record raw { listeners = marked lis raw.listeners ms w })
            (world lis raw.listeners ms w),
      )
  unfolding forward
  forward-opened n raw ms w i h a o =
      let c = idle lis (inside p) raw in
      let c' = idle lis (inside p) (record raw { listeners = marked lis raw.listeners ms w }) in
      rw (
        with_upgraded_alive p _ (ok true) n c c' w (world lis raw.listeners ms w) (
          ap (λ r. continue r.0 (λ _ v. (ok true, v)) r.1)
            (inside-opened (suc n + 1) raw ms w i h a o)))
