-- ===== src/WakeFlag/Senders/Wakeups.antt =====
-- No wake-up of a `WakeFlag` is lost, however many messages are sent to it during a poll.
use nosy.Prelude.{
  ℕ, zero, suc, ◌≡◌, ◌⊎◌, refl, ap, ◌∙◌, Bool, true, false, Option, none, some, List, [], ◌∷◌, All,
  inl, inr, arith,
}
use nosy.WakeFlag.{AtomicWaker, WakeFlagShared, ready, pending, cons_task, wake, get_and_clear}
use nosy.WakeFlag.Interleaving.{
  Poller, start, registering, rechecking, finished, Sender, storing, waking, sent, poll_step,
  send_step,
}
use nosy.Notifier.Raw.{get_elem?}
use nosy.Notifier.Concurrent.Calm.{All-get_elem?}
use nosy.Notifier.Threads.Ongoing.{All-set}
use nosy.WakeFlag.Senders.{Crowd, Turn, polling, sending, messages, send_at, turn, run}

module _ {Waker Task : Type 0} (aw : AtomicWaker Waker Task) (t : Task) where
  -- The task is registered, or has been woken after it was.
  abbrev Called : WakeFlagShared Waker Task → Type 0
  Called s = (ts : List Task) × (s.woken ≡ t ∷ ts) × ((aw.take s.waker).0 ≡ none)

  abbrev Listed : WakeFlagShared Waker Task → Type 0
  Listed s = ((aw.take s.waker).0 ≡ some t) ⊎ Called s

  -- What holds between the operations, for each sender.
  Safe : WakeFlagShared Waker Task → Poller → Sender → Type 0
  Safe s start storing = Unit
  Safe s start y = s.notified ≡ true
  Safe s registering storing = Unit
  Safe s registering y = s.notified ≡ true
  Safe s rechecking storing = Listed s
  Safe s rechecking y = s.notified ≡ true
  Safe s (finished (ready a)) y = Unit
  Safe s (finished pending) storing = Listed s
  Safe s (finished pending) waking = Listed s
  Safe s (finished pending) sent = Called s

  woken_by : (s : WakeFlagShared Waker Task) → Listed s → Called (wake aw s)
  unfolding wake
  woken_by s (inl e) =
      (s.woken, ap (λ o. cons_task aw o s.woken) e, ap (λ r. r.0) (aw.take-take s.waker))
  woken_by s (inr (ts, w, e)) =
      (ts, ap (λ o. cons_task aw o s.woken) e ∙ w, ap (λ r. r.0) (aw.take-take s.waker))

  notified_wake : (s : WakeFlagShared Waker Task) → (wake aw s).notified ≡ s.notified
  unfolding wake
  notified_wake s = refl

  -- A wake-up keeps what holds for each sender.
  wake-Safe :
      (s : WakeFlagShared Waker Task) (x : Poller) (y : Sender) → Safe s x y → Safe (wake aw s) x y
  unfolding Safe
  wake-Safe s start storing h = tt
  wake-Safe s start waking h = notified_wake s ∙ h
  wake-Safe s start sent h = notified_wake s ∙ h
  wake-Safe s registering storing h = tt
  wake-Safe s registering waking h = notified_wake s ∙ h
  wake-Safe s registering sent h = notified_wake s ∙ h
  wake-Safe s rechecking storing h = inr (woken_by s h)
  wake-Safe s rechecking waking h = notified_wake s ∙ h
  wake-Safe s rechecking sent h = notified_wake s ∙ h
  wake-Safe s (finished (ready a)) y h = tt
  wake-Safe s (finished pending) storing h = inr (woken_by s h)
  wake-Safe s (finished pending) waking h = inr (woken_by s h)
  wake-Safe s (finished pending) sent h = woken_by s (inr h)

  -- So does a message that is stored.
  store-Safe :
      (s : WakeFlagShared Waker Task) (x : Poller) (y : Sender)
      → Safe s x y
      → Safe (record s { notified = true }) x y
  unfolding Safe
  store-Safe s start storing h = tt
  store-Safe s start waking h = refl
  store-Safe s start sent h = refl
  store-Safe s registering storing h = tt
  store-Safe s registering waking h = refl
  store-Safe s registering sent h = refl
  store-Safe s rechecking storing h = h
  store-Safe s rechecking waking h = refl
  store-Safe s rechecking sent h = refl
  store-Safe s (finished (ready a)) y h = tt
  store-Safe s (finished pending) storing h = h
  store-Safe s (finished pending) waking h = h
  store-Safe s (finished pending) sent h = h

  -- The sender's own step, and what it does to the others.
  own-Safe :
      (s : WakeFlagShared Waker Task) (x : Poller) (y : Sender)
      → Safe s x y
      → Safe (send_step aw t y s).1 x (send_step aw t y s).0
  unfolding Safe send_step wake
  own-Safe s start storing h = refl
  own-Safe s start waking h = h
  own-Safe s start sent h = h
  own-Safe s registering storing h = refl
  own-Safe s registering waking h = h
  own-Safe s registering sent h = h
  own-Safe s rechecking storing h = refl
  own-Safe s rechecking waking h = h
  own-Safe s rechecking sent h = h
  own-Safe s (finished (ready a)) y h = tt
  own-Safe s (finished pending) storing h = h
  own-Safe s (finished pending) waking h = woken_by s h
  own-Safe s (finished pending) sent h = h

  other-Safe :
      (s : WakeFlagShared Waker Task) (x : Poller) (y z : Sender)
      → Safe s x z
      → Safe (send_step aw t y s).1 x z
  unfolding send_step
  other-Safe s x storing z h = store-Safe s x z h
  other-Safe s x waking z h = wake-Safe s x z h
  other-Safe s x sent z h = h

  others-Safe :
      (s : WakeFlagShared Waker Task) (x : Poller) (y : Sender) (zs : List Sender)
      → All (Safe s x) zs
      → All (Safe (send_step aw t y s).1 x) zs
  others-Safe s x y [] h = tt
  others-Safe s x y (z ∷ zs) h = (other-Safe s x y z h.0, others-Safe s x y zs h.1)

  send_at-Safe :
      (o : Option Sender) (i : ℕ) (c : Crowd Waker Task)
      → get_elem? c.senders i ≡ o
      → All (Safe c.flag c.poller) c.senders
      → (let c' = send_at aw t o i c in All (Safe c'.flag c'.poller) c'.senders)
  send_at-Safe none i c e h = h
  send_at-Safe (some y) i c e h =
      All-set (Safe (send_step aw t y c.flag).1 c.poller) c.senders i (send_step aw t y c.flag).0
        (own-Safe c.flag c.poller y (All-get_elem? (Safe c.flag c.poller) c.senders i y h e))
        (others-Safe c.flag c.poller y c.senders h)

  checked-Safe :
      (b : Bool) (n : ℕ) (k : Waker) (ts : List Task) (y : Sender)
      → (let s : WakeFlagShared Waker Task = record {
        notified = b;
        listeners_alive = n;
        waker = k;
        woken = ts;
      } in
          (Safe s start y → Safe (poll_step aw t start s).1 (poll_step aw t start s).0 y)
          × (Safe s rechecking y
              → Safe (poll_step aw t rechecking s).1 (poll_step aw t rechecking s).0 y))
  unfolding Safe poll_step get_and_clear
  checked-Safe true n k ts y = (λ h. tt, λ h. tt)
  checked-Safe false zero k ts y = (λ h. tt, λ h. tt)
  checked-Safe false (suc n) k ts storing = (λ h. tt, λ h. h)
  checked-Safe false (suc n) k ts waking = (λ h. absurd (grind arith), λ h. absurd (grind arith))
  checked-Safe false (suc n) k ts sent = (λ h. absurd (grind arith), λ h. absurd (grind arith))

  poll_step-Safe :
      (s : WakeFlagShared Waker Task) (x : Poller) (y : Sender)
      → Safe s x y
      → Safe (poll_step aw t x s).1 (poll_step aw t x s).0 y
  unfolding Safe poll_step
  poll_step-Safe s start y h = (checked-Safe s.notified s.listeners_alive s.waker s.woken y).0 h
  poll_step-Safe s registering storing h = inl (aw.take-register t s.waker)
  poll_step-Safe s registering waking h = h
  poll_step-Safe s registering sent h = h
  poll_step-Safe s rechecking y h =
      (checked-Safe s.notified s.listeners_alive s.waker s.woken y).1 h
  poll_step-Safe s (finished outcome) y h = h

  polled-Safe :
      (s : WakeFlagShared Waker Task) (x : Poller) (ys : List Sender)
      → All (Safe s x) ys
      → All (Safe (poll_step aw t x s).1 (poll_step aw t x s).0) ys
  polled-Safe s x [] h = tt
  polled-Safe s x (y ∷ ys) h = (poll_step-Safe s x y h.0, polled-Safe s x ys h.1)

  turn-Safe :
      (d : Turn) (c : Crowd Waker Task)
      → All (Safe c.flag c.poller) c.senders
      → (let c' = turn aw t d c in All (Safe c'.flag c'.poller) c'.senders)
  unfolding turn
  turn-Safe polling c h = polled-Safe c.flag c.poller c.senders h
  turn-Safe (sending i) c h = send_at-Safe (get_elem? c.senders i) i c refl h

  run-Safe :
      (schedule : List Turn) (c : Crowd Waker Task)
      → All (Safe c.flag c.poller) c.senders
      → (let c' = run aw t schedule c in All (Safe c'.flag c'.poller) c'.senders)
  unfolding run
  run-Safe [] c h = h
  run-Safe (d ∷ schedule) c h = run-Safe schedule (turn aw t d c) (turn-Safe d c h)

  -- Nothing is asked before the first steps.
  start-Safe : (s : WakeFlagShared Waker Task) (n : ℕ) → All (Safe s start) (messages n)
  unfolding Safe messages
  start-Safe s zero = tt
  start-Safe s (suc n) = (tt, start-Safe s n)

  -- In whatever order the operations of a poll and of any number of messages come, if the poll is
  -- done and has answered that the task must wait, and some message is done, then that task has
  -- been woken.
  pub no_wakeup_is_lost :
      (schedule : List Turn) (s : WakeFlagShared Waker Task) (n i : ℕ) (c : Crowd Waker Task)
      → run aw t schedule (record { poller = start; senders = messages n; flag = s }) ≡ c
      → c.poller ≡ finished pending
      → get_elem? c.senders i ≡ some sent
      → (ts : List Task) × (c.flag.woken ≡ t ∷ ts)
  unfolding Safe
  no_wakeup_is_lost schedule s n i c e p q =
      let h =
        run-Safe schedule (record { poller = start; senders = messages n; flag = s })
          (start-Safe s n) in
      let h' = rw e at h in
      let g = All-get_elem? (Safe c.flag c.poller) c.senders i sent h' q in
      let g' = rw p at g in (g'.0, g'.1)
