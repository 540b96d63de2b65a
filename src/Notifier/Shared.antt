-- ===== src/Notifier/Shared.antt =====
-- What the methods of `Notifier` do behind its lock, when no listener reaches back into the
-- notifier that calls it.
use nosy.Prelude.{ℕ, suc, ◌≡◌, refl, ap, ◌∙◌, Bool, true, false, ◌&&◌, List, [], ◌∷◌, arith}
use nosy.Exec.{ok, panic, closed, lock_conflict}
use nosy.Listener.{Listener}
use nosy.Memory.{Place}
use nosy.MaybeSync.{read, end_read, write, end_write}
use nosy.Notifier.Raw
use nosy.Notifier.Raw.{NotifierEntry, RawNotifier}
use nosy.Notifier.Delivery.{answer, world, marked, AllLawful, AllApart, notify_many_lem}
use nosy.Notifier.Outside.{AllOutside, world-put, marked-put, deliver-put}
use nosy.Notifier.Locked.{
  State, opened, shut, Notifier, and_bits, close, end_notify, notify_state, notify_many, listen_raw,
  count,
}

module _ {W L M : Type 0} (lis : Listener W L M) (p : Place W (Notifier L)) where
  open lis use {receive}
  open p use {get, put, get-put, put-get, put-put}

  pub and_again : (a b : Bool) → a && (a && b) ≡ a && b
  and_again false b = refl
  and_again true b = refl

  and_bits-marked :
      (es : List (NotifierEntry L)) (ms : List M) (w : W)
      → and_bits es (marked lis es ms w) ≡ marked lis es ms w
  unfolding and_bits
  and_bits-marked [] ms w = refl
  and_bits-marked (e ∷ es) ms w =
      rw (and_again e.was_alive (answer lis e.listener ms w), and_bits-marked es ms w)

  -- The lock of an open notifier that nobody holds.
  abbrev pub idle : RawNotifier L → Notifier L
  idle raw = record { readers = 0; writing = false; value = opened raw }

  abbrev held : RawNotifier L → Notifier L
  held raw = record { readers = 1; writing = false; value = opened raw }

  read-idle :
      (raw : RawNotifier L) (w : W)
      → read p (put (idle raw) w) ≡ (ok (opened raw), put (held raw) w)
  unfolding read
  read-idle raw w = rw (get-put (idle raw) w) (rw (put-put (held raw) (idle raw) w))

  pub end_notify-held :
      (raw r : RawNotifier L) (w : W)
      → end_notify p r (put (held raw) w)
        ≡ put (idle (record raw { listeners = and_bits raw.listeners r.listeners })) w
  unfolding end_notify end_read
  end_notify-held raw r w =
      let raw' : RawNotifier L = record raw { listeners = and_bits raw.listeners r.listeners } in
      rw (get-put (held raw) w) (
        rw (put-put (held raw') (held raw) w)
          (rw (get-put (held raw') w, end_read) (put-put _ _ w)))

  abbrev pub closed_idle : Notifier L
  closed_idle = record { readers = 0; writing = false; value = shut }

  -- `close` leaves an open notifier that nobody holds closed, whatever listeners it had, and
  -- changes nothing else.
  pub close-idle :
      (raw : RawNotifier L) (w : W) → close p (put (idle raw) w) ≡ (ok tt, put closed_idle w)
  unfolding close write end_write
  close-idle raw w =
      let s : Notifier L = record (idle raw) { writing = true } in
      rw (get-put (idle raw) w, write)
        (rw (put-put s (idle raw) w) (rw (get-put s w, end_write) (rw (put-put closed_idle s w))))

  close_read :
      (w : W) → read p (put closed_idle w) ≡ (ok shut, put (record closed_idle { readers = 1 }) w)
  unfolding read
  close_read w = rw (get-put closed_idle w) (rw (put-put _ closed_idle w))

  close_write :
      (w : W)
      → write p (put closed_idle w) ≡ (ok shut, put (record closed_idle { writing = true }) w)
  unfolding write
  close_write w = rw (get-put closed_idle w) (rw (put-put _ closed_idle w))

  reopened_read :
      (w : W) → end_read p (put (record closed_idle { readers = 1 }) w) ≡ put closed_idle w
  unfolding end_read
  reopened_read w = rw (get-put (record closed_idle { readers = 1 }) w, end_read) (put-put _ _ w)

  reopened_write :
      (w : W) → end_write p shut (put (record closed_idle { writing = true }) w) ≡ put closed_idle w
  unfolding end_write
  reopened_write w =
      rw (get-put (record closed_idle { writing = true }) w, end_write) (put-put _ _ w)

  pub notify_many-closed :
      (ms : List M) (w : W)
      → notify_many lis p ms (put closed_idle w) ≡ (panic closed, put closed_idle w)
  unfolding notify_many
  notify_many-closed ms w = rw (close_read w) (ap (λ v. (panic closed, v)) (reopened_read w))

  -- A closed notifier that nobody holds panics when a message is sent, does not add a listener, and
  -- counts none. The lock is free after each, and nothing else changes, but for what the listener
  -- does when it is dropped, which is left out here.
  pub closed_lem :
      (grow : ℕ → ℕ) (l : L) (ms : List M) (w : W)
      → (notify_many lis p ms (put closed_idle w) ≡ (panic closed, put closed_idle w))
        × (listen_raw lis p grow l (put closed_idle w) ≡ (ok tt, put closed_idle w))
        × (count lis p (put closed_idle w) ≡ (ok 0, put closed_idle w))
  unfolding listen_raw count
  closed_lem grow l ms w = (
    notify_many-closed ms w,
    rw (close_write w) (ap (λ v. (ok tt, v)) (reopened_write w)),
    rw (close_write w) (ap (λ v. (ok 0, v)) (reopened_write w)),
  )

  pub write_held :
      (n : ℕ) (state : State L) (w : W)
      → get w ≡ record { readers = suc n; writing = false; value = state }
      → write p w ≡ (panic lock_conflict, w)
  unfolding write
  write_held n state w e = rw e (ground arith)

  -- While the notifier is borrowed for a delivery, a listener that closes the notifier, counts it
  -- or adds a listener to it meets the held lock, and nothing changes.
  pub reentrant_lem :
      (n : ℕ) (state : State L) (grow : ℕ → ℕ) (l : L) (w : W)
      → get w ≡ record { readers = suc n; writing = false; value = state }
      → (close p w ≡ (panic lock_conflict, w))
        × (listen_raw lis p grow l w ≡ (panic lock_conflict, w))
        × (count lis p w ≡ (panic lock_conflict, w))
  unfolding close listen_raw count
  reentrant_lem n state grow l w e =
      let held_lock = write_held n state w e in (rw held_lock, rw held_lock, rw held_lock)

  -- What a delivery through an open notifier leaves.
  pub notify_many-world :
      (raw : RawNotifier L) (ms : List M) (w : W)
      → AllOutside lis p raw.listeners
      → (let r = Raw.deliver lis raw.listeners ms w in
          notify_many lis p ms (put (idle raw) w)
          ≡ (r.0, put (idle (record raw { listeners = and_bits raw.listeners r.1.0 })) r.1.1))
  unfolding notify_many notify_state Raw.notify_many
  notify_many-world raw ms w o =
      let r = Raw.deliver lis raw.listeners ms w in
      rw (read-idle raw w) (
        rw (deliver-put lis p raw.listeners ms (held raw) w o)
          (ap (λ v. (r.0, v)) (end_notify-held raw (record raw { listeners = r.1.0 }) r.1.1)))

  -- Nobody holds the lock after a delivery through an open notifier that was not held, also when a
  -- listener panicked in the middle of it, and the notifier is still open, when no listener reaches
  -- back into the notifier.
  pub notify_many-idle :
      (raw : RawNotifier L) (ms : List M) (w : W)
      → AllOutside lis p raw.listeners
      → (raw' : RawNotifier L) × (get (notify_many lis p ms (put (idle raw) w)).1 ≡ idle raw')
  notify_many-idle raw ms w o = (_, ap (λ r. get r.1) (notify_many-world raw ms w o) ∙ get-put _ _)

module _ {W L M : Type 0} (lis : Listener W L M) (Inv : W → Type 0) (p : Place W (Notifier L))
    (unaffected : (s : Notifier L) (w : W) → Inv w → Inv (p.put s w)) where
  open p use {put}

  -- A delivery through an open notifier that nobody holds, to listeners that keep the requirements,
  -- each with its own state, and do not reach back into the notifier: each receives the batch once,
  -- the bits are joined to the answers, nobody holds the lock afterwards, and nothing else changes.
  pub notify_many-opened :
      (raw : RawNotifier L) (ms : List M) (w : W)
      → Inv w
      → AllLawful lis Inv raw.listeners
      → AllApart lis Inv raw.listeners
      → AllOutside lis p raw.listeners
      → notify_many lis p ms (put (idle lis p raw) w) ≡ (
        ok tt,
        put
            (idle lis p (record raw { listeners = marked lis raw.listeners ms w }))
            (world lis raw.listeners ms w),
      )
  unfolding notify_many notify_state
  notify_many-opened raw ms w i h a o = rw (read-idle lis p raw w) (
      rw
        (notify_many_lem lis Inv raw ms (put (held lis p raw) w) (unaffected (held lis p raw) w i) h
          a)
        (rw
          (
            marked-put lis p raw.listeners ms (held lis p raw) w o,
            world-put lis p raw.listeners ms (held lis p raw) w o,
          )
          (ap (λ v. (ok tt, v)) (end_notify-held lis p raw _ (world lis raw.listeners ms w))
            ∙ rw (and_bits-marked lis p raw.listeners ms w))))
