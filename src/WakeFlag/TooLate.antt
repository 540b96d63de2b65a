-- ===== src/WakeFlag/TooLate.antt =====
-- A `WakeFlag` that listens to a notifier which has been closed: its listener is dropped.
use nosy.Prelude.{ℕ, ◌≡◌, refl, ap, ◌∙◌, sym, Bool, true, false, List}
use nosy.Exec.{ok}
use nosy.Listener.{Listener}
use nosy.Memory.{Place, Shared, Apart, shared}
use nosy.Notifier.Locked.{Notifier}
use nosy.Notifier.Shared.{closed_idle}
use nosy.Notifier.Drops.{listen_raw_or_drop, listen_raw_or_drop-closed}
use nosy.WakeFlag.{AtomicWaker, WakeFlagShared, ready, new, poll, drop_listener, receive}
use nosy.WakeFlag.Listening.{listening, wait, drop_at, at, fresh, wait_at, drop_listener_at}

module _ {W L M Waker Task : Type 0} (aw : AtomicWaker Waker Task) (lis : Listener W L M)
    (p : Place W (Notifier L)) (q : Place W (Shared (WakeFlagShared Waker Task))) (a : Apart p q)
    (f : L) (same : (ms : List M) → lis.receive f ms ≡ receive aw q ms) where
  abbrev closed_at : WakeFlagShared Waker Task → W → W
  closed_at = at aw lis p q a f same (closed_idle lis p)

  abbrev start : Bool → WakeFlagShared Waker Task
  start = fresh aw lis p q a f same

  listening_closed :
      (b : Bool) (grow : ℕ → ℕ) (w : W)
      → listening aw q b
          (listen_raw_or_drop lis (λ l. drop_at aw q) p grow f)
          (p.put (closed_idle lis p) w)
        ≡ (ok tt, closed_at (drop_listener aw (start b)) w)
  unfolding listening new
  listening_closed b grow w =
      let n = closed_idle lis p in
      ap (listen_raw_or_drop lis (λ l. drop_at aw q) p grow f)
        (sym (a.put-swap n (shared q 1 (start b)) w))
      ∙ listen_raw_or_drop-closed lis (λ l. drop_at aw q) p grow f (q.put (shared q 1 (start b)) w)
      ∙ ap (λ v. (ok tt, v)) (drop_listener_at aw lis p q a f same n (start b) w)

  poll_ended : (b : Bool) (t : Task) → (poll aw t (drop_listener aw (start b))).0 ≡ ready b
  unfolding poll drop_listener
  poll_ended true t = refl
  poll_ended false t = refl

  poll_again :
      (b : Bool) (t u : Task)
      → (poll aw u (poll aw t (drop_listener aw (start b))).1).0 ≡ ready false
  unfolding poll drop_listener
  poll_again true t u = refl
  poll_again false t u = refl

  -- A flag that is made to listen to a notifier which is closed and which nobody holds, and to
  -- whose listener the notifier does not matter, has lost its listener: a task that waits is told
  -- at once that there will be no more messages, but with `wake_immediately` it is first told of
  -- one. The notifier stays closed and free.
  pub too_late_lem :
      (b : Bool) (grow : ℕ → ℕ) (t u : Task) (w : W)
      → (let w1 =
            (listening aw q b
              (listen_raw_or_drop lis (λ l. drop_at aw q) p grow f)
              (p.put (closed_idle lis p) w)).1 in
          let (outcome, w2) = wait aw q t w1 in
          (outcome ≡ ok (ready b))
          × ((wait aw q u w2).0 ≡ ok (ready false))
          × (p.get w2 ≡ closed_idle lis p))
  too_late_lem b grow t u w =
      let n = closed_idle lis p in
      let s = drop_listener aw (start b) in
      rw (listening_closed b grow w) (
        rw (wait_at aw lis p q a f same t n s w) (
          ap (λ x. ok x) (poll_ended b t),
          ap (λ r. r.0) (wait_at aw lis p q a f same u n (poll aw t s).1 w)
              ∙ ap (λ x. ok x) (poll_again b t u),
          p.get-put n _,
        ))
