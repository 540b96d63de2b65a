-- ===== src/Tests/Wakers.antt =====
-- `WakeFlag` with a waker that is a task's number, or nothing.
use nosy.Prelude.{
  ℕ, zero, suc, ◌≡◌, refl, Bool, true, false, Option, none, some, List, [], ◌∷◌, arith,
}
use nosy.Exec.{ok}
use nosy.Listener.{Listener}
use nosy.Memory.{Place, Shared, Apart, inside}
use nosy.MaybeSync.{new_rw_lock}
use nosy.Notifier.Locked
use nosy.Notifier.Locked.{Notifier, shut, notify_many, listen_raw}
use nosy.Notifier.Outside.{Outside}
use nosy.Notifier.Drops.{close_and_drop, listen_raw_or_drop}
use nosy.WakeFlag.Listening.{listening, wait, drop_at, listening_lem}
use nosy.WakeFlag.{receive, AtomicWaker, WakeFlagShared, ready, pending, wake, poll}
use nosy.WakeFlag.TooLate.{too_late_lem}
use nosy.WakeFlag.Waking.{wake_flag_listener}
use nosy.WakeFlag.Interleaving.{Threads, start, storing, finished, sent, waking, run}
use nosy.WakeFlag.Senders
use nosy.WakeFlag.Senders.{Crowd, polling, sending, messages}
use nosy.WakeFlag.Senders.Wakeups.{no_wakeup_is_lost}
use nosy.WakeFlag.Progress.{Told, run-Told}

abbrev pub waker : AtomicWaker (Option ℕ) ℕ
waker = record {
  new = none;
  register = λ t k. some t;
  take = λ k. (k, none);
  take-register = λ t k. refl;
  take-take = λ k. refl;
}

abbrev pub clear : WakeFlagShared (Option ℕ) ℕ
clear = record { notified = false; listeners_alive = 1; waker = none; woken = [] }

-- The message is stored between the second check of the poll and its end.
abbrev schedule : List Bool
schedule = true ∷ true ∷ true ∷ false ∷ false ∷ []

abbrev both_done : Threads (Option ℕ) ℕ
both_done = record {
  poller = finished pending;
  sender = sent;
  flag = record { notified = true; listeners_alive = 1; waker = none; woken = 7 ∷ [] };
}

run_test :
    run waker 7 schedule (record { poller = start; sender = storing; flag = clear }) ≡ both_done
unfolding run
run_test = refl

-- The second of three messages comes after the last check of the poll, and the first is stored.
abbrev crowd_schedule : List Senders.Turn
crowd_schedule = polling ∷ polling ∷ polling ∷ sending 0 ∷ sending 1 ∷ sending 1 ∷ []

abbrev crowd : Crowd (Option ℕ) ℕ
crowd = record {
  poller = finished pending;
  senders = waking ∷ sent ∷ storing ∷ [];
  flag = record { notified = true; listeners_alive = 1; waker = none; woken = 7 ∷ [] };
}

crowd_test :
    Senders.run waker 7 crowd_schedule
      (record { poller = start; senders = messages 3; flag = clear })
    ≡ crowd
unfolding Senders.run messages
crowd_test = refl

no_wakeup_is_lost_example : (ts : List ℕ) × (7 ∷ [] ≡ 7 ∷ ts)
no_wakeup_is_lost_example =
    no_wakeup_is_lost waker 7 crowd_schedule clear 3 1 crowd crowd_test refl refl

run-Told_example :
    (let th = run waker 7 schedule (record { poller = start; sender = storing; flag = clear }) in
      (th.sender ≡ sent) × Told waker 7 th)
run-Told_example = run-Told waker 7 schedule clear (omega arith) (omega arith)

-- A listener's drop wakes the task while that listener still counts. If the task is polled before
-- the count goes down, it waits again, and nothing wakes it after that.
drop_race_test :
    (let (outcome, s) = poll waker 7 (wake waker (poll waker 7 clear).1) in
      (outcome ≡ pending)
      × ((record s { listeners_alive = 0 }).woken ≡ 7 ∷ [])
      × ((record s { listeners_alive = 0 }).waker ≡ some 7))
unfolding poll wake
drop_race_test = (refl, refl, refl)

-- A notifier and a flag whose listener it holds.
record Net : Type 0 where
  notifier : Notifier (Unit {0})
  flag : Shared (WakeFlagShared (Option ℕ) ℕ)

abbrev net_notifier : Place Net (Notifier (Unit {0}))
net_notifier = record {
  get = λ w. w.notifier;
  put = λ s w. record w { notifier = s };
  get-put = λ s w. refl;
  put-get = λ w. refl;
  put-put = λ s t w. refl;
}

abbrev net_flag : Place Net (Shared (WakeFlagShared (Option ℕ) ℕ))
net_flag = record {
  get = λ w. w.flag;
  put = λ s w. record w { flag = s };
  get-put = λ s w. refl;
  put-get = λ w. refl;
  put-put = λ s t w. refl;
}

net-Apart : Apart net_notifier net_flag
net-Apart = record { get-left = λ t w. refl; get-right = λ s w. refl; put-swap = λ s t w. refl }

net-commutes :
    (ms : List ℕ) (s : Notifier (Unit {0})) (n : ℕ) (v : WakeFlagShared (Option ℕ) ℕ) (w : Net)
    → (let u : Net = record w { flag = record { strong = n; value = v } } in
        receive waker net_flag ms (net_notifier.put s u)
        ≡ ((receive waker net_flag ms u).0, net_notifier.put s (receive waker net_flag ms u).1))
unfolding receive
net-commutes ms s zero v w = refl
net-commutes [] s (suc n) v w = refl
net-commutes (m ∷ ms) s (suc n) v w = refl

abbrev net_listener : Listener Net (Unit {0}) ℕ
net_listener = wake_flag_listener waker net_flag

net-Outside : Outside net_listener net_notifier tt
net-Outside ms = record { commutes = λ s w. net-commutes ms s w.flag.strong w.flag.value w }

abbrev net : Net
net = record { notifier = new_rw_lock shut; flag = record { strong = 0; value = clear } }

listening_lem_example :
    (let w0 =
        (listening waker net_flag true
          (listen_raw net_listener net_notifier suc tt)
          (net_notifier.put Locked.new net)).1 in
      let w1 =
        (listening waker net_flag false
          (listen_raw net_listener net_notifier suc tt)
          (net_notifier.put Locked.new net)).1 in
      let (outcome, w2) = wait waker net_flag 7 w1 in
      let w3 = (notify_many net_listener net_notifier (5 ∷ []) w2).1 in
      let w4 = (close_and_drop (λ l. drop_at waker net_flag) net_notifier w2).1 in
      (wait waker net_flag 7 w0 ≡ (ok (ready true), w1))
      × (outcome ≡ ok pending)
      × (((inside net_flag).get w3).woken ≡ 7 ∷ [])
      × ((wait waker net_flag 7 w3).0 ≡ ok (ready true))
      × (((inside net_flag).get w4).woken ≡ 7 ∷ [])
      × ((wait waker net_flag 8 w4).0 ≡ ok (ready false)))
listening_lem_example =
    listening_lem waker net_listener net_notifier net_flag net-Apart tt (λ ms. refl) suc 7 8 5 []
      net net-Outside

too_late_lem_example :
    (let w1 =
        (listening waker net_flag true
          (listen_raw_or_drop net_listener (λ l. drop_at waker net_flag) net_notifier suc tt)
          (net_notifier.put (new_rw_lock shut) net)).1 in
      let (outcome, w2) = wait waker net_flag 7 w1 in
      (outcome ≡ ok (ready true))
      × ((wait waker net_flag 8 w2).0 ≡ ok (ready false))
      × (net_notifier.get w2 ≡ new_rw_lock shut))
too_late_lem_example =
    too_late_lem waker net_listener net_notifier net_flag net-Apart tt (λ ms. refl) true suc 7 8 net
