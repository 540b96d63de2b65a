-- ===== src/WakeFlag/Waking.antt =====
-- What a task that waits for a `WakeFlag` is told, and that its listener keeps the requirements of
-- `Listener`.
use nosy.Prelude.{ℕ, zero, suc, ◌+◌, ◌≡◌, refl, sym, ap, Bool, true, false, List, [], ◌∷◌, ◌++◌}
use nosy.Exec.{ok, continue, ◌>>◌}
use nosy.Listener.{Listener, IsLawful}
use nosy.Listener.Weak.{IsWeak, weak_update, weak-IsLawful}
use nosy.Memory.{Place, Shared, shared, with_upgraded_alive, with_upgraded_dead}
use nosy.WakeFlag.{
  AtomicWaker, WakeFlagShared, ready, pending, cons_task, wake, notify_message, get_and_clear, poll,
  drop_listener, notify, receive,
}

module _ {Waker Task : Type 0} (aw : AtomicWaker Waker Task) where
  abbrev pub flag_of : Bool → ℕ → Waker → List Task → WakeFlagShared Waker Task
  flag_of b n k ts = record { notified = b; listeners_alive = n; waker = k; woken = ts }

  -- A task that polls a flag that is not set, with a listener left, waits. The next message wakes
  -- it, and it is told then that there was one; the flag is clear again afterwards.
  pub poll_lem :
      (t : Task) (n : ℕ) (k : Waker) (ts : List Task)
      → (let (outcome, s) = poll aw t (flag_of false (suc n) k ts) in
          (outcome ≡ pending)
          × ((notify_message aw s).woken ≡ t ∷ ts)
          × ((poll aw t (notify_message aw s)).0 ≡ ready true)
          × ((poll aw t (poll aw t (notify_message aw s)).1).0 ≡ pending))
  unfolding poll notify_message get_and_clear wake
  poll_lem t n k ts = (refl, ap (λ o. cons_task aw o ts) (aw.take-register t k), refl, refl)

  -- When the last listener goes while a task waits, that task is woken, and is told that there will
  -- be no more messages, as is any other task, then and later.
  pub drop_listener_lem :
      (t u : Task) (k : Waker) (ts : List Task)
      → (let s = drop_listener aw (poll aw t (flag_of false 1 k ts)).1 in
          (s.woken ≡ t ∷ ts)
          × ((poll aw u s).0 ≡ ready false)
          × ((poll aw u (poll aw t s).1).0 ≡ ready false))
  unfolding poll drop_listener get_and_clear wake
  drop_listener_lem t u k ts = (ap (λ o. cons_task aw o ts) (aw.take-register t k), refl, refl)

  -- A second message right after another one changes nothing.
  notify_message-twice :
      (s : WakeFlagShared Waker Task)
      → notify_message aw (notify_message aw s) ≡ notify_message aw s
  unfolding notify_message wake
  notify_message-twice s = rw (aw.take-take s.waker)

module _ {W Waker Task : Type 0} (aw : AtomicWaker Waker Task)
    (p : Place W (Shared (WakeFlagShared Waker Task))) where
  open p use {put, get-put, put-put}

  notify_lem :
      (n : ℕ) (s : WakeFlagShared Waker Task) (w : W)
      → notify aw p (put (shared p n s) w) ≡ (ok tt, put (shared p n (notify_message aw s)) w)
  unfolding notify
  notify_lem n s w = rw (get-put (shared p n s) w) (ap (λ u. (ok tt, u)) (put-put _ _ w))

module _ {W Waker Task M : Type 0} (aw : AtomicWaker Waker Task)
    (p : Place W (Shared (WakeFlagShared Waker Task))) where
  open p use {get, put}

  -- What a slice does to a flag.
  abbrev pub told : WakeFlagShared Waker Task → List M → WakeFlagShared Waker Task
  told s [] = s
  told s (m ∷ ms) = notify_message aw s

  told-append :
      (s : WakeFlagShared Waker Task) (xs ys : List M) → told s (xs ++ ys) ≡ told (told s xs) ys
  told-append s [] ys = refl
  told-append s (x ∷ xs) [] = refl
  told-append s (x ∷ xs) (y ∷ ys) = sym (notify_message-twice aw s)

  pub receive_lem :
      (n : ℕ) (s : WakeFlagShared Waker Task) (ms : List M) (w : W)
      → receive aw p ms (put (shared p (suc n) s) w)
        ≡ (ok true, put (shared p (suc n) (told s ms)) w)
  unfolding receive
  receive_lem n s [] w = rw (with_upgraded_alive p _ (ok true) n s s w w refl)
  receive_lem n s (m ∷ ms) w = rw (
      with_upgraded_alive p (do notify aw p; λ v. (ok true, v)) (ok true) n s (notify_message aw s)
        w w (ap (λ r. continue r.0 (λ _ v. (ok true, v)) r.1) (notify_lem aw p (suc n + 1) s w)))

  receive_dead :
      (s : WakeFlagShared Waker Task) (ms : List M) (w : W)
      → receive aw p ms (put (shared p 0 s) w) ≡ (ok false, put (shared p 0 s) w)
  unfolding receive
  receive_dead s ms w = rw (with_upgraded_dead p _ s w)

  abbrev pub wake_flag_listener : Listener W (Unit {0}) M
  wake_flag_listener = record { receive = λ _. receive aw p }

  -- `Inv` is whatever holds of the world that no delivery to this flag breaks.
  module _ (Inv : W → Type 0)
      (kept : (n : ℕ) (s : WakeFlagShared Waker Task) (w : W)
        → Inv w
        → Inv (put (shared p n s) w)) where
    keeps_at :
        (n : ℕ) (s : WakeFlagShared Waker Task) (ms : List M) (w : W)
        → Inv w
        → Inv (put (weak_update told n s ms) w)
    keeps_at zero s ms w i = kept 0 s w i
    keeps_at (suc n) s ms w i = kept (suc n) (told s ms) w i

    -- The listener of a wake flag keeps the requirements of `Listener`, in the worlds of an
    -- invariant that no delivery to this flag breaks.
    pub wake_flag-IsLawful : IsLawful wake_flag_listener Inv tt
    wake_flag-IsLawful = weak-IsLawful weak
      where
        weak : IsWeak wake_flag_listener Inv p (λ _. Unit) told tt
        weak = record {
          ready = λ w i. tt;
          alive = λ n s ms w r. receive_lem n s ms w;
          gone = receive_dead;
          keeps = λ ms w i. keeps_at (get w).strong (get w).value ms w i;
          empty = λ s. refl;
          batch = told-append;
        }
