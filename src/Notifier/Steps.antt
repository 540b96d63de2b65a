-- ===== src/Notifier/Steps.antt =====
-- What each method does to a `Notifier` that is open or closed and whose lock is free.
use nosy.Prelude.{ℕ, ◌<◌, ◌≡◌, refl, sym, ap, ◌∙◌, true, List, arith}
use nosy.Exec.{Exec, Result, ok, ◌>>=◌, ◌>>◌}
use nosy.Listener.{Listener, IsLawful}
use nosy.Memory.{Place}
use nosy.MaybeSync.{write, end_write}
use nosy.Notifier.Raw
use nosy.Notifier.Raw.{RawNotifier, count_approximate}
use nosy.Notifier.Delivery.{AllLawful}
use nosy.Notifier.Listen.{Fits, listen_raw-Fits}
use nosy.Notifier.Kept.{All-and_bits, length-and_bits, deliver_end, drop_dead_kept, listen_raw_kept}
use nosy.Notifier.Outside.{Outside, AllOutside}
use nosy.Notifier.Locked.{
  opened, Notifier, and_bits, close, notify_many, listen_raw, count, write_state,
}
use nosy.Notifier.Shared.{idle, closed_idle, close-idle, notify_many-world}

module _ {W L M : Type 0} (lis : Listener W L M) (Inv : W → Type 0) (p : Place W (Notifier L))
    (unaffected : (s : Notifier L) (w : W) → Inv w → Inv (p.put s w)) where
  open p use {put, get-put, put-put}

  -- An open notifier whose lock is free, whose vector is within its capacity, and whose listeners
  -- keep the requirements and do not reach back into it.
  pub record Open (w : W) : Type 0 where
    pub raw : RawNotifier L
    pub rest : W
    pub at : w ≡ put (idle lis p raw) rest
    pub inv : Inv rest
    pub fits : Fits raw
    pub lawful : AllLawful lis Inv raw.listeners
    pub outside : AllOutside lis p raw.listeners

  -- A closed one whose lock is free.
  pub record Shut (w : W) : Type 0 where
    pub rest : W
    pub at : w ≡ put (closed_idle lis p) rest
    pub inv : Inv rest

  abbrev pub written : RawNotifier L → Notifier L
  written raw = record { readers = 0; writing = true; value = opened raw }

  pub behind_write {κ} :
      {A : Type κ} (a : A) (m : Exec (RawNotifier L × W) A) (r : Result A)
      (raw raw' : RawNotifier L) (v : W)
      → m (raw, put (written raw) v) ≡ (r, (raw', put (written raw) v))
      → (do state ← write p; write_state lis p a m state) (put (idle lis p raw) v)
        ≡ (r, put (idle lis p raw') v)
  unfolding write end_write write_state
  behind_write a m r raw raw' v e = rw (get-put (idle lis p raw) v) (
      rw (put-put (written raw) (idle lis p raw) v) (
        rw e
          (rw (get-put (written raw) v, end_write) (ap (λ u. (r, u)) (put-put _ (written raw) v)))))

  module _ (grow : ℕ → ℕ) (larger : (n : ℕ) → n < grow n) where
    pub step_listening :
        (l : L) (w : W)
        → Open w
        → IsLawful lis Inv l
        → Outside lis p l
        → ((listen_raw lis p grow l w).0 ≡ ok tt) × Open (listen_raw lis p grow l w).1
    unfolding listen_raw
    step_listening l w o hl kl =
        let v = put (written o.raw) o.rest in
        let i = unaffected (written o.raw) o.rest o.inv in
        let (raw', e, k) =
          listen_raw_kept lis Inv (Outside lis p) o.raw v i o.lawful o.outside grow l hl kl in
        let (raw'', e', k') =
          listen_raw_kept lis Inv (IsLawful lis Inv) o.raw v i o.lawful o.lawful grow l hl hl in
        let same : raw'' ≡ raw' = ap (λ r. r.1.0) (sym e' ∙ e) in
        let f = listen_raw-Fits lis Inv grow l o.raw v i larger hl o.lawful o.fits in
        let done = behind_write tt (Raw.listen_raw lis grow l) (ok tt) o.raw raw' o.rest e in
        (
          ap (λ u. (listen_raw lis p grow l u).0) o.at ∙ ap (λ r. r.0) done,
          record {
            raw = raw';
            rest = o.rest;
            at = ap (λ u. (listen_raw lis p grow l u).1) o.at ∙ ap (λ r. r.1) done;
            inv = o.inv;
            fits = rw e at f;
            lawful = rw same at k';
            outside = k;
          },
        )

    pub step_notifying :
        (ms : List M) (w : W)
        → Open w
        → ((notify_many lis p ms w).0 ≡ ok tt) × Open (notify_many lis p ms w).1
    step_notifying ms w o =
        let r = Raw.deliver lis o.raw.listeners ms o.rest in
        let (ended, i) = deliver_end lis Inv o.raw.listeners ms o.rest o.inv o.lawful in
        let done = notify_many-world lis p o.raw ms o.rest o.outside in
        (
          ap (λ u. (notify_many lis p ms u).0) o.at ∙ ap (λ x. x.0) done ∙ ended,
          record {
            raw = record o.raw { listeners = and_bits o.raw.listeners r.1.0 };
            rest = r.1.1;
            at = ap (λ u. (notify_many lis p ms u).1) o.at ∙ ap (λ x. x.1) done;
            inv = i;
            fits = record {
              fits = omega (arith, o.fits.fits, length-and_bits o.raw.listeners r.1.0);
            };
            lawful = All-and_bits (IsLawful lis Inv) o.raw.listeners r.1.0 o.lawful;
            outside = All-and_bits (Outside lis p) o.raw.listeners r.1.0 o.outside;
          },
        )

    pub step_counting : (w : W) → Open w → Open (count lis p w).1
    unfolding count
    step_counting w o =
        let v = put (written o.raw) o.rest in
        let i = unaffected (written o.raw) o.rest o.inv in
        let (es, e, k, n) = drop_dead_kept lis Inv (Outside lis p) o.raw v i o.lawful o.outside in
        let (es', e', k', _) =
          drop_dead_kept lis Inv (IsLawful lis Inv) o.raw v i o.lawful o.lawful in
        let same : es' ≡ es = ap (λ r. r.1.0.listeners) (sym e' ∙ e) in
        let left : RawNotifier L = record o.raw { listeners = es } in
        let done =
          behind_write 0 (do Raw.drop_dead_listeners lis; λ s. (ok (count_approximate s.0), s))
            (ok (count_approximate left)) o.raw left o.rest (rw e refl) in
        record {
          raw = left;
          rest = o.rest;
          at = ap (λ u. (count lis p u).1) o.at ∙ ap (λ r. r.1) done;
          inv = o.inv;
          fits = record { fits = omega (arith, o.fits.fits, n) };
          lawful = rw same at k';
          outside = k;
        }

    pub counted_ok : (w : W) → Open w → (n : ℕ) × ((count lis p w).0 ≡ ok n)
    unfolding count
    counted_ok w o =
        let v = put (written o.raw) o.rest in
        let i = unaffected (written o.raw) o.rest o.inv in
        let (es, e, k, n) = drop_dead_kept lis Inv (Outside lis p) o.raw v i o.lawful o.outside in
        let left : RawNotifier L = record o.raw { listeners = es } in
        let done =
          behind_write 0 (do Raw.drop_dead_listeners lis; λ s. (ok (count_approximate s.0), s))
            (ok (count_approximate left)) o.raw left o.rest (rw e refl) in
        (count_approximate left, ap (λ u. (count lis p u).0) o.at ∙ ap (λ r. r.0) done)

    pub closed_by : (w : W) → Open w → ((close p w).0 ≡ ok tt) × Shut (close p w).1
    closed_by w o =
        let done = close-idle lis p o.raw o.rest in
        (
          ap (λ u. (close p u).0) o.at ∙ ap (λ r. r.0) done,
          record {
            rest = o.rest;
            at = ap (λ u. (close p u).1) o.at ∙ ap (λ r. r.1) done;
            inv = o.inv;
          },
        )

    pub close_again :
        (v : W) → close p (put (closed_idle lis p) v) ≡ (ok tt, put (closed_idle lis p) v)
    unfolding close write end_write
    close_again v =
        let s : Notifier L = record (closed_idle lis p) { writing = true } in
        rw (get-put (closed_idle lis p) v, write)
          (rw (put-put s (closed_idle lis p) v)
            (rw (get-put s v, end_write) (rw (put-put (closed_idle lis p) s v))))

    pub count_shut :
        (v : W) → count lis p (put (closed_idle lis p) v) ≡ (ok 0, put (closed_idle lis p) v)
    unfolding count write end_write
    count_shut v =
        let s : Notifier L = record (closed_idle lis p) { writing = true } in
        rw (get-put (closed_idle lis p) v, write)
          (rw (put-put s (closed_idle lis p) v)
            (rw (get-put s v, end_write) (rw (put-put (closed_idle lis p) s v))))
