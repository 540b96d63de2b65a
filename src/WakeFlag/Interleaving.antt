-- ===== src/WakeFlag/Interleaving.antt =====
-- `WakeFlag` polled by one thread while another one sends it a message. The atomic operations of
-- the two, on the flag and on the waker, follow each other in any order.
use nosy.Prelude.{
  ℕ, zero, suc, ◌≡◌, refl, ap, Bool, true, false, Option, none, some, List, [], ◌∷◌, arith,
}
use nosy.WakeFlag.{
  AtomicWaker, WakeFlagShared, Poll, ready, pending, cons_task, wake, notify_message, get_and_clear,
  register, poll, or_pending,
}

-- Where `WakeFlagShared::poll` has got to.
pub data Poller : Type 0 where
  start : Poller
  registering : Poller
  rechecking : Poller
  finished : Poll Bool → Poller

-- Where `WakeFlagShared::notify_message` has got to.
pub data Sender : Type 0 where
  storing : Sender
  waking : Sender
  sent : Sender

pub record Threads (Waker Task : Type 0) : Type 0 where
  pub poller : Poller
  pub sender : Sender
  pub flag : WakeFlagShared Waker Task

module _ {Waker Task : Type 0} (aw : AtomicWaker Waker Task) (t : Task) where
  abbrev after_check : Option Bool → Poller
  after_check (some a) = finished (ready a)
  after_check none = registering

  -- The next operation of `poll`. (The load of the number of listeners is one with the swap: the
  -- sender holds a listener, so it is never zero here.)
  unfoldable pub poll_step : Poller → WakeFlagShared Waker Task → Poller × WakeFlagShared Waker Task
  unfolding get_and_clear
  poll_step start s = (after_check (get_and_clear aw s).0, (get_and_clear aw s).1)
  poll_step registering s = (rechecking, register aw t s)
  poll_step rechecking s = (finished (or_pending aw (get_and_clear aw s).0), (get_and_clear aw s).1)
  poll_step (finished outcome) s = (finished outcome, s)

  -- The next operation of `notify_message`.
  unfoldable pub send_step : Sender → WakeFlagShared Waker Task → Sender × WakeFlagShared Waker Task
  unfolding wake
  send_step storing s = (waking, record s { notified = true })
  send_step waking s = (sent, wake aw s)
  send_step sent s = (sent, s)

  -- `true` is a step of the poller.
  unfoldable pub run : List Bool → Threads Waker Task → Threads Waker Task
  unfolding poll_step send_step
  run [] th = th
  run (true ∷ schedule) th =
      let next = poll_step th.poller th.flag in
      run schedule (record th { poller = next.0; flag = next.1 })
  run (false ∷ schedule) th =
      let next = send_step th.sender th.flag in
      run schedule (record th { sender = next.0; flag = next.1 })

  -- The operations of one thread by itself are the method.
  poll-steps :
      (b : Bool) (n : ℕ) (k : Waker) (ts : List Task) (x : Sender)
      → (let s : WakeFlagShared Waker Task = record {
        notified = b;
        listeners_alive = n;
        waker = k;
        woken = ts;
      } in
          run (true ∷ true ∷ true ∷ []) (record { poller = start; sender = x; flag = s })
          ≡ record { poller = finished (poll aw t s).0; sender = x; flag = (poll aw t s).1 })
  unfolding run poll get_and_clear
  poll-steps true n k ts x = refl
  poll-steps false zero k ts x = refl
  poll-steps false (suc n) k ts x = refl

  send-steps :
      (s : WakeFlagShared Waker Task) (x : Poller)
      → run (false ∷ false ∷ []) (record { poller = x; sender = storing; flag = s })
        ≡ record { poller = x; sender = sent; flag = notify_message aw s }
  unfolding run notify_message
  send-steps s x = refl

  abbrev Registered : WakeFlagShared Waker Task → Type 0
  Registered s = (aw.take s.waker).0 ≡ some t

  abbrev Woken : WakeFlagShared Waker Task → Type 0
  Woken s = (ts : List Task) × (s.woken ≡ t ∷ ts)

  -- What holds between the steps.
  Safe : Poller → Sender → WakeFlagShared Waker Task → Type 0
  Safe start storing s = Unit
  Safe start x s = s.notified ≡ true
  Safe registering storing s = Unit
  Safe registering x s = s.notified ≡ true
  Safe rechecking storing s = Registered s
  Safe rechecking waking s = (s.notified ≡ true) × Registered s
  Safe rechecking sent s = s.notified ≡ true
  Safe (finished (ready a)) x s = Unit
  Safe (finished pending) storing s = Registered s
  Safe (finished pending) waking s = Registered s
  Safe (finished pending) sent s = Woken s

  send_step-Safe :
      (x : Poller) (y : Sender) (s : WakeFlagShared Waker Task)
      → Safe x y s
      → Safe x (send_step y s).0 (send_step y s).1
  unfolding Safe send_step wake
  send_step-Safe start storing s h = refl
  send_step-Safe start waking s h = h
  send_step-Safe start sent s h = h
  send_step-Safe registering storing s h = refl
  send_step-Safe registering waking s h = h
  send_step-Safe registering sent s h = h
  send_step-Safe rechecking storing s h = (refl, h)
  send_step-Safe rechecking waking s h = h.0
  send_step-Safe rechecking sent s h = h
  send_step-Safe (finished (ready a)) y s h = tt
  send_step-Safe (finished pending) storing s h = h
  send_step-Safe (finished pending) waking s h = (s.woken, ap (λ o. cons_task aw o s.woken) h)
  send_step-Safe (finished pending) sent s h = h

  start-Safe :
      (b : Bool) (n : ℕ) (k : Waker) (ts : List Task) (y : Sender)
      → (let s : WakeFlagShared Waker Task = record {
        notified = b;
        listeners_alive = n;
        waker = k;
        woken = ts;
      } in
          Safe start y s → Safe (poll_step start s).0 y (poll_step start s).1)
  unfolding Safe poll_step
  start-Safe true n k ts y h = tt
  start-Safe false zero k ts y h = tt
  start-Safe false (suc n) k ts storing h = tt
  start-Safe false (suc n) k ts waking h = absurd (grind arith)
  start-Safe false (suc n) k ts sent h = absurd (grind arith)

  recheck-Safe :
      (b : Bool) (n : ℕ) (k : Waker) (ts : List Task) (y : Sender)
      → (let s : WakeFlagShared Waker Task = record {
        notified = b;
        listeners_alive = n;
        waker = k;
        woken = ts;
      } in
          Safe rechecking y s → Safe (poll_step rechecking s).0 y (poll_step rechecking s).1)
  unfolding Safe poll_step
  recheck-Safe true n k ts y h = tt
  recheck-Safe false zero k ts y h = tt
  recheck-Safe false (suc n) k ts storing h = h
  recheck-Safe false (suc n) k ts waking (b, r) = absurd (grind arith)
  recheck-Safe false (suc n) k ts sent h = absurd (grind arith)

  poll_step-Safe :
      (x : Poller) (y : Sender) (s : WakeFlagShared Waker Task)
      → Safe x y s
      → Safe (poll_step x s).0 y (poll_step x s).1
  unfolding Safe poll_step
  poll_step-Safe start y s h = start-Safe s.notified s.listeners_alive s.waker s.woken y h
  poll_step-Safe registering storing s h = aw.take-register t s.waker
  poll_step-Safe registering waking s h = (h, aw.take-register t s.waker)
  poll_step-Safe registering sent s h = h
  poll_step-Safe rechecking y s h = recheck-Safe s.notified s.listeners_alive s.waker s.woken y h
  poll_step-Safe (finished outcome) y s h = h

  run-Safe :
      (schedule : List Bool) (th : Threads Waker Task)
      → Safe th.poller th.sender th.flag
      → (let th' = run schedule th in Safe th'.poller th'.sender th'.flag)
  unfolding run
  run-Safe [] th h = h
  run-Safe (true ∷ schedule) th h =
      let next = poll_step th.poller th.flag in
      run-Safe schedule (record th { poller = next.0; flag = next.1 })
        (poll_step-Safe th.poller th.sender th.flag h)
  run-Safe (false ∷ schedule) th h =
      let next = send_step th.sender th.flag in
      run-Safe schedule (record th { sender = next.0; flag = next.1 })
        (send_step-Safe th.poller th.sender th.flag h)

  -- In whatever order the operations of a poll and of a message come, if both are done and the poll
  -- has answered that the task must wait, then that task has been woken.
  pub no_lost_wakeup :
      (schedule : List Bool) (s : WakeFlagShared Waker Task) (th : Threads Waker Task)
      → run schedule (record { poller = start; sender = storing; flag = s }) ≡ th
      → th.poller ≡ finished pending
      → th.sender ≡ sent
      → (ts : List Task) × (th.flag.woken ≡ t ∷ ts)
  unfolding Safe
  no_lost_wakeup schedule s th e p q =
      let h = run-Safe schedule (record { poller = start; sender = storing; flag = s }) tt in
      let h' = rw e at h in rw (p, q) at h'
