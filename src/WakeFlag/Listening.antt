-- ===== src/WakeFlag/Listening.antt =====
-- A `WakeFlag` that listens to a `Notifier`: the task that waits for it hears of the messages, and
-- of the end of the notifier.
use nosy.Prelude.{ℕ, suc, ◌+◌, ◌≡◌, refl, sym, ap, ◌∙◌, Bool, true, false, List, [], ◌∷◌}
use nosy.Exec.{Exec, ok}
use nosy.Listener.{Listener}
use nosy.Memory.{Place, Shared, Apart, shared, inside, with_upgraded, with_upgraded_alive}
use nosy.MaybeSync.{write, end_write}
use nosy.Notifier.Raw
use nosy.Notifier.Raw.{NotifierEntry, RawNotifier}
use nosy.Notifier.Locked
use nosy.Notifier.Locked.{Notifier, notify_many, listen_raw}
use nosy.Notifier.Delivery.{deliver-ok}
use nosy.Notifier.Outside.{Outside}
use nosy.Notifier.Shared.{idle, closed_idle, notify_many-world}
use nosy.Notifier.Steps.{behind_write, written}
use nosy.Notifier.Drops.{close_and_drop}
use nosy.WakeFlag.{
  AtomicWaker, WakeFlagShared, Poll, ready, pending, new, poll, future_poll, drop_listener, receive,
}
use nosy.WakeFlag.Waking.{told, receive_lem, flag_of, poll_lem, drop_listener_lem}

module _ {W Waker Task : Type 0} (aw : AtomicWaker Waker Task)
    (q : Place W (Shared (WakeFlagShared Waker Task))) where
  -- `WakeFlag::listening`, at a place for the new allocation; `listen` is `source.listen(listener)`.
  unfoldable pub listening : Bool → Exec W (Unit {0}) → Exec W (Unit {0})
  unfolding new
  listening wake_immediately listen w = listen (q.put (new aw wake_immediately) w)

  -- `WakeFlag::wait`, as it is polled for the first time.
  unfoldable pub wait : Task → Exec W (Poll Bool)
  unfolding future_poll inside
  wait t w =
      let outcome = future_poll aw t (false, (inside q).get w) in
      (outcome.0, (inside q).put outcome.1.1 w)

  abbrev drop_inside : Exec W (Unit {0})
  drop_inside w = (ok tt, (inside q).put (drop_listener aw ((inside q).get w)) w)

  -- `Drop` for `WakeFlagListener`, whose flag may be gone.
  unfoldable pub drop_at : W → W
  unfolding with_upgraded inside drop_listener
  drop_at w = (with_upgraded q drop_inside w).1

  drop_at-lem :
      (n : ℕ) (s : WakeFlagShared Waker Task) (w : W)
      → drop_at (q.put (shared q (suc n) s) w) ≡ q.put (shared q (suc n) (drop_listener aw s)) w
  unfolding drop_at inside
  drop_at-lem n s w =
      ap (λ r. r.1)
        (with_upgraded_alive q drop_inside (ok tt) n s (drop_listener aw s) w w
          (rw (q.get-put (shared q (suc n + 1) s) w) (ap (λ u. (ok tt, u)) (q.put-put _ _ w))))

  wait-lem :
      (n : ℕ) (t : Task) (s : WakeFlagShared Waker Task) (w : W)
      → wait t (q.put (shared q n s) w) ≡ (ok (poll aw t s).0, q.put (shared q n (poll aw t s).1) w)
  unfolding wait inside future_poll
  wait-lem n t s w =
      ap
        (λ x.
          let o = future_poll aw t (false, x.value) in
          (o.0, q.put (record x { value = o.1.1 }) (q.put (shared q n s) w)))
        (q.get-put (shared q n s) w)
      ∙ ap (λ u. (ok (poll aw t s).0, u)) (q.put-put _ _ w)

-- A notifier at a place apart, to whose listeners `f` belongs, which is the listener of the flag.
module _ {W L M Waker Task : Type 0} (aw : AtomicWaker Waker Task) (lis : Listener W L M)
    (p : Place W (Notifier L)) (q : Place W (Shared (WakeFlagShared Waker Task))) (a : Apart p q)
    (f : L) (same : (ms : List M) → lis.receive f ms ≡ receive aw q ms) where
  -- The flag has one owner.
  abbrev pub at : Notifier L → WakeFlagShared Waker Task → W → W
  at n s w = p.put n (q.put (shared q 1 s) w)

  receive_at :
      (n : Notifier L) (s : WakeFlagShared Waker Task) (ms : List M) (w : W)
      → lis.receive f ms (at n s w) ≡ (ok true, at n (told aw q s ms) w)
  receive_at n s ms w =
      ap (λ g. g (at n s w)) (same ms)
      ∙ ap (receive aw q ms) (a.put-swap n (shared q 1 s) w)
      ∙ receive_lem aw q 0 s ms (p.put n w)
      ∙ ap (λ u. (ok true, u)) (sym (a.put-swap n (shared q 1 (told aw q s ms)) w))

  pub wait_at :
      (t : Task) (n : Notifier L) (s : WakeFlagShared Waker Task) (w : W)
      → wait aw q t (at n s w) ≡ (ok (poll aw t s).0, at n (poll aw t s).1 w)
  wait_at t n s w =
      ap (wait aw q t) (a.put-swap n (shared q 1 s) w)
      ∙ wait-lem aw q 1 t s (p.put n w)
      ∙ ap (λ u. (ok (poll aw t s).0, u)) (sym (a.put-swap n (shared q 1 (poll aw t s).1) w))

  pub drop_listener_at :
      (n : Notifier L) (s : WakeFlagShared Waker Task) (w : W)
      → drop_at aw q (at n s w) ≡ at n (drop_listener aw s) w
  drop_listener_at n s w =
      ap (drop_at aw q) (a.put-swap n (shared q 1 s) w)
      ∙ drop_at-lem aw q 0 s (p.put n w)
      ∙ sym (a.put-swap n (shared q 1 (drop_listener aw s)) w)

  -- The notifier with the one listener.
  abbrev joined : (ℕ → ℕ) → RawNotifier L
  joined grow = record {
    listeners = record { listener = f; was_alive = true } ∷ [];
    capacity = grow 0;
  }

  raw_listen :
      (grow : ℕ → ℕ) (n : Notifier L) (s : WakeFlagShared Waker Task) (w : W)
      → Raw.listen_raw lis grow f (Raw.new, at n s w) ≡ (ok tt, (joined grow, at n s w))
  unfolding Raw.listen_raw Raw.new Raw.push_entry
  raw_listen grow n s w = rw (receive_at n s [] w) refl

  abbrev pub fresh : Bool → WakeFlagShared Waker Task
  fresh b = flag_of aw b 1 aw.new []

  listening_at :
      (b : Bool) (grow : ℕ → ℕ) (w : W)
      → listening aw q b (listen_raw lis p grow f) (p.put Locked.new w)
        ≡ (ok tt, at (idle lis p (joined grow)) (fresh b) w)
  unfolding listening listen_raw Locked.new
  listening_at b grow w =
      let v = q.put (shared q 1 (fresh b)) w in
      ap (listen_raw lis p grow f) (sym (a.put-swap Locked.new (shared q 1 (fresh b)) w))
      ∙ behind_write lis (λ _. Unit {0}) p (λ s u i. tt) tt (Raw.listen_raw lis grow f) (ok tt)
          Raw.new (joined grow) v
          (raw_listen grow (written lis (λ _. Unit {0}) p (λ s u i. tt) Raw.new) (fresh b) w)

  deliver_at :
      (grow : ℕ → ℕ) (s : WakeFlagShared Waker Task) (ms : List M) (w : W)
      → Raw.deliver lis (joined grow).listeners ms (q.put (shared q 1 s) w)
        ≡ (ok tt, ((joined grow).listeners, q.put (shared q 1 (told aw q s ms)) w))
  unfolding Raw.deliver
  deliver_at grow s ms w =
      let v = q.put (shared q 1 s) w in
      deliver-ok lis (record { listener = f; was_alive = true }) [] ms true
        (q.put (shared q 1 (told aw q s ms)) w) v
        (ap (λ g. g v) (same ms) ∙ receive_lem aw q 0 s ms w)

  notified_at :
      (grow : ℕ → ℕ) (s : WakeFlagShared Waker Task) (ms : List M) (w : W)
      → Outside lis p f
      → notify_many lis p ms (at (idle lis p (joined grow)) s w)
        ≡ (ok tt, at (idle lis p (joined grow)) (told aw q s ms) w)
  unfolding Locked.and_bits
  notified_at grow s ms w o =
      notify_many-world lis p (joined grow) ms (q.put (shared q 1 s) w) (o, tt)
      ∙ rw (deliver_at grow s ms w) refl

  closed_at :
      (grow : ℕ → ℕ) (s : WakeFlagShared Waker Task) (w : W)
      → close_and_drop (λ l. drop_at aw q) p (at (idle lis p (joined grow)) s w)
        ≡ (ok tt, at (closed_idle lis p) (drop_listener aw s) w)
  unfolding close_and_drop write end_write
  closed_at grow s w =
      let v = q.put (shared q 1 s) w in
      let i = idle lis p (joined grow) in
      let held : Notifier L = record i { writing = true } in
      rw (p.get-put i v, write)
        (rw (p.put-put held i v) (
          rw (drop_listener_at held s w) (
            let v' = q.put (shared q 1 (drop_listener aw s)) w in
            rw (p.get-put held v', end_write) (rw (p.put-put (closed_idle lis p) held v')))))

  flag_at : (n : Notifier L) (s : WakeFlagShared Waker Task) (w : W) → (inside q).get (at n s w) ≡ s
  unfolding inside
  flag_at n s w =
      ap (λ x. x.value) (a.get-right n (q.put (shared q 1 s) w) ∙ q.get-put (shared q 1 s) w)

  -- A task that waits for a flag which is made, without `wake_immediately`, to listen to a new
  -- notifier, and to whose listener the notifier does not matter, waits until a message is sent
  -- through the notifier or the notifier is closed. Either wakes it, and then it is told which of
  -- the two it was. With `wake_immediately` the first wait is over at once, without a message, and
  -- then all is as without.
  pub listening_lem :
      (grow : ℕ → ℕ) (t u : Task) (m : M) (ms : List M) (w : W)
      → Outside lis p f
      → (let w0 = (listening aw q true (listen_raw lis p grow f) (p.put Locked.new w)).1 in
          let w1 = (listening aw q false (listen_raw lis p grow f) (p.put Locked.new w)).1 in
          let (outcome, w2) = wait aw q t w1 in
          let w3 = (notify_many lis p (m ∷ ms) w2).1 in
          let w4 = (close_and_drop (λ l. drop_at aw q) p w2).1 in
          (wait aw q t w0 ≡ (ok (ready true), w1))
          × (outcome ≡ ok pending)
          × (((inside q).get w3).woken ≡ t ∷ [])
          × ((wait aw q t w3).0 ≡ ok (ready true))
          × (((inside q).get w4).woken ≡ t ∷ [])
          × ((wait aw q u w4).0 ≡ ok (ready false)))
  unfolding poll
  listening_lem grow t u m ms w o =
      let n = idle lis p (joined grow) in
      let s = (poll aw t (fresh false)).1 in
      let heard = poll_lem aw t 0 aw.new [] in
      let ended = drop_listener_lem aw t u aw.new [] in
      rw (listening_at true grow w, listening_at false grow w)
        (rw (wait_at t n (fresh false) w) (
          rw (notified_at grow s (m ∷ ms) w o, closed_at grow s w)
            (
              wait_at t n (fresh true) w,
              ap (λ x. ok x) heard.0,
              ap (λ x. x.woken) (flag_at n (told aw q s (m ∷ ms)) w) ∙ heard.1,
              ap (λ r. r.0) (wait_at t n (told aw q s (m ∷ ms)) w) ∙ ap (λ x. ok x) heard.2,
              ap (λ x. x.woken) (flag_at (closed_idle lis p) (drop_listener aw s) w) ∙ ended.0,
              ap (λ r. r.0) (wait_at u (closed_idle lis p) (drop_listener aw s) w)
                  ∙ ap (λ x. ok x) ended.1,
            )))
