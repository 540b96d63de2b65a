-- ===== src/WakeFlag/Progress.antt =====
-- A poll of `WakeFlag` and a message to it, each given its turns, both come to an end, and the
-- task is told or woken.
use nosy.Prelude.{
  ℕ, zero, suc, ◌-◌, ◌≤◌, ◌≡◌, ◌⊎◌, inl, inr, refl, Bool, true, false, List, [], ◌∷◌, arith,
}
use nosy.WakeFlag.{AtomicWaker, WakeFlagShared, ready, pending, get_and_clear}
use nosy.WakeFlag.Interleaving.{
  Poller, Sender, Threads, start, registering, rechecking, finished, storing, waking, sent,
  poll_step, send_step, run, no_lost_wakeup,
}

-- The turns that each thread has in a schedule.
abbrev pub polls : List Bool → ℕ
polls [] = 0
polls (true ∷ schedule) = suc (polls schedule)
polls (false ∷ schedule) = polls schedule

abbrev pub sends : List Bool → ℕ
sends [] = 0
sends (true ∷ schedule) = sends schedule
sends (false ∷ schedule) = suc (sends schedule)

-- The operations that each thread has left, at most.
abbrev poller_left : Poller → ℕ
poller_left start = 3
poller_left registering = 2
poller_left rechecking = 1
poller_left (finished outcome) = 0

abbrev sender_left : Sender → ℕ
sender_left storing = 2
sender_left waking = 1
sender_left sent = 0

sender_done : (y : Sender) → sender_left y ≤ 0 → y ≡ sent
sender_done storing h = absurd (omega arith)
sender_done waking h = absurd (omega arith)
sender_done sent h = refl

poller_done :
    (x : Poller)
    → poller_left x ≤ 0
    → ((a : Bool) × (x ≡ finished (ready a))) ⊎ (x ≡ finished pending)
poller_done start h = absurd (omega arith)
poller_done registering h = absurd (omega arith)
poller_done rechecking h = absurd (omega arith)
poller_done (finished (ready a)) h = inl (a, refl)
poller_done (finished pending) h = inr refl

module _ {Waker Task : Type 0} (aw : AtomicWaker Waker Task) (t : Task) where
  checked_left :
      (b : Bool) (n : ℕ) (k : Waker) (ts : List Task)
      → (let s : WakeFlagShared Waker Task = record {
        notified = b;
        listeners_alive = n;
        waker = k;
        woken = ts;
      } in
          poller_left (poll_step aw t start s).0 ≤ 2)
  unfolding poll_step get_and_clear
  checked_left true n k ts = omega arith
  checked_left false zero k ts = omega arith
  checked_left false (suc n) k ts = omega arith

  poll_left :
      (x : Poller) (s : WakeFlagShared Waker Task)
      → poller_left (poll_step aw t x s).0 ≤ poller_left x - 1
  unfolding poll_step
  poll_left start s = checked_left s.notified s.listeners_alive s.waker s.woken
  poll_left registering s = omega arith
  poll_left rechecking s = omega arith
  poll_left (finished outcome) s = omega arith

  send_left :
      (y : Sender) (s : WakeFlagShared Waker Task)
      → sender_left (send_step aw t y s).0 ≤ sender_left y - 1
  unfolding send_step
  send_left storing s = omega arith
  send_left waking s = omega arith
  send_left sent s = omega arith

  run_left :
      (schedule : List Bool) (th : Threads Waker Task)
      → (let th' = run aw t schedule th in
          (poller_left th'.poller ≤ poller_left th.poller - polls schedule)
          × (sender_left th'.sender ≤ sender_left th.sender - sends schedule))
  unfolding run
  run_left [] th = (omega arith, omega arith)
  run_left (true ∷ schedule) th =
      let next = poll_step aw t th.poller th.flag in
      let (a, b) = run_left schedule (record th { poller = next.0; flag = next.1 }) in
      (omega (arith, a, poll_left th.poller th.flag), omega (arith, b))
  run_left (false ∷ schedule) th =
      let next = send_step aw t th.sender th.flag in
      let (a, b) = run_left schedule (record th { sender = next.0; flag = next.1 }) in
      (omega (arith, a), omega (arith, b, send_left th.sender th.flag))

  -- How a poll ends: with an answer, or with the task woken.
  unfoldable pub Told : Threads Waker Task → Type 0
  Told th =
      ((a : Bool) × (th.poller ≡ finished (ready a)))
      ⊎ ((th.poller ≡ finished pending) × ((ts : List Task) × (th.flag.woken ≡ t ∷ ts)))

  -- A poll that is given three turns and a message that is given two, in whatever order, are both
  -- done, and the poll has answered at once or the task has been woken.
  pub run-Told :
      (schedule : List Bool) (s : WakeFlagShared Waker Task)
      → 3 ≤ polls schedule
      → 2 ≤ sends schedule
      → (let th = run aw t schedule (record { poller = start; sender = storing; flag = s }) in
          (th.sender ≡ sent) × Told th)
  unfolding Told
  run-Told schedule s m n =
      let both : Threads Waker Task = record { poller = start; sender = storing; flag = s } in
      let (a, b) = run_left schedule both in
      let done = sender_done (run aw t schedule both).sender (omega (arith, b)) in
      (
        done,
        elim (poller_done (run aw t schedule both).poller (omega (arith, a))) [
          | inl answered ↦ inl answered
          | inr e ↦ inr (e, no_lost_wakeup aw t schedule s (run aw t schedule both) refl e done)
        ],
      )
