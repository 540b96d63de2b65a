-- ===== src/WakeFlag.antt =====
-- src/future.rs: `WakeFlag`, which wakes an async task when its listener receives a message. The
-- `AtomicWaker` of the crate `futures-util` is a parameter.
pub mod Waking
pub mod Interleaving
pub mod Progress
pub mod Listening
pub mod Senders
pub mod TooLate
use nosy.Prelude.{
  ℕ, zero, suc, ◌+◌, ◌-◌, ◌≡◌, Bool, true, false, Option, none, some, List, [], ◌∷◌, if◌then◌else◌,
}
use nosy.Exec.{Exec, Result, ok, panic, pure, already_done, ◌>>=◌, ◌>>◌}
use nosy.Listener.{Listener}
use nosy.Memory.{Place, Shared, inside, with_upgraded, upgraded_or_dead}
use nosy.Store.{is_empty}

-- `AtomicWaker`, for tasks of type `Task`. `register` replaces the waker that is registered, and
-- `take` takes it out, if there is one.
pub record AtomicWaker (Waker Task : Type 0) : Type 0 where
  pub new : Waker
  pub register : Task → Waker → Waker
  pub take : Waker → Option Task × Waker
  pub take-register : (t : Task) (k : Waker) → (take (register t k)).0 ≡ some t
  pub take-take : (k : Waker) → take (take k).1 ≡ (none, (take k).1)

-- `WakeFlagShared`. The weak reference `listeners_alive` is seen as the number of strong ones, one
-- in each listener. `woken` is the history of the tasks that were woken, the last one first.
pub record WakeFlagShared (Waker Task : Type 0) : Type 0 where
  pub notified : Bool
  pub listeners_alive : ℕ
  pub waker : Waker
  pub woken : List Task

pub data Poll (A : Type 0) : Type 0 where
  ready : A → Poll A
  pending : Poll A

module _ {Waker Task : Type 0} (aw : AtomicWaker Waker Task) where
  -- `WakeFlag::new`, which returns one listener.
  unfoldable pub new : Bool → Shared (WakeFlagShared Waker Task)
  new wake_immediately = record {
    strong = 1;
    value = record { notified = wake_immediately; listeners_alive = 1; waker = aw.new; woken = [] };
  }

  abbrev pub cons_task : Option Task → List Task → List Task
  cons_task none ts = ts
  cons_task (some t) ts = t ∷ ts

  -- `AtomicWaker::wake`
  unfoldable pub wake : WakeFlagShared Waker Task → WakeFlagShared Waker Task
  wake s =
      let taken = aw.take s.waker in record s { waker = taken.1; woken = cons_task taken.0 s.woken }

  unfoldable pub notify_message : WakeFlagShared Waker Task → WakeFlagShared Waker Task
  unfolding wake
  notify_message s = wake (record s { notified = true })

  abbrev pub answer : Bool → ℕ → Option Bool
  answer true n = some true
  answer false zero = some false
  answer false (suc n) = none

  unfoldable pub get_and_clear : WakeFlagShared Waker Task → Option Bool × WakeFlagShared Waker Task
  get_and_clear s = (answer s.notified s.listeners_alive, record s { notified = false })

  abbrev pub register : Task → WakeFlagShared Waker Task → WakeFlagShared Waker Task
  register t s = record s { waker = aw.register t s.waker }

  abbrev pub or_pending : Option Bool → Poll Bool
  or_pending (some a) = ready a
  or_pending none = pending

  unfoldable pub poll : Task → WakeFlagShared Waker Task → Poll Bool × WakeFlagShared Waker Task
  unfolding get_and_clear
  poll t s = elim (get_and_clear s).0 [
    | some a ↦ (ready a, (get_and_clear s).1)
    | none ↦
        let again = get_and_clear (register t (get_and_clear s).1) in (or_pending again.0, again.1)
  ]

  -- `Drop` for `WakeFlagListener`, while the flag exists, and the drop of its fields after that.
  unfoldable pub drop_listener : WakeFlagShared Waker Task → WakeFlagShared Waker Task
  unfolding wake
  drop_listener s = let s' = wake s in record s' { listeners_alive = s'.listeners_alive - 1 }

  -- `WakeFlagListener::clone`
  unfoldable pub clone_listener : WakeFlagShared Waker Task → WakeFlagShared Waker Task
  clone_listener s = record s { listeners_alive = s.listeners_alive + 1 }

  abbrev pub is_ready : Poll Bool → Bool
  is_ready (ready a) = true
  is_ready pending = false

  -- `WakeFlagFuture::poll`: its `done` beside the shared state.
  unfoldable pub future_poll : Task → Exec (Bool × WakeFlagShared Waker Task) (Poll Bool)
  unfolding poll
  future_poll t (done, s) =
      let outcome = poll t s in
      if done
      then (panic already_done, (done, s))
      else (ok outcome.0, (is_ready outcome.0, outcome.1))

  abbrev item : Poll Bool → Poll (Option (Unit {0}))
  item (ready true) = ready (some tt)
  item (ready false) = ready none
  item pending = pending

  -- `Stream::poll_next`
  unfoldable pub poll_next :
      Task → WakeFlagShared Waker Task → Poll (Option (Unit {0})) × WakeFlagShared Waker Task
  unfolding poll
  poll_next t s = (item (poll t s).0, (poll t s).1)

module _ {W Waker Task : Type 0} (aw : AtomicWaker Waker Task)
    (p : Place W (Shared (WakeFlagShared Waker Task))) where
  -- `WakeFlag::notify`
  unfoldable pub notify : Exec W (Unit {0})
  unfolding inside notify_message
  notify w = (ok tt, (inside p).put (notify_message aw ((inside p).get w)) w)

  -- `WakeFlagListener::receive`
  unfoldable pub receive : {M : Type 0} → List M → Exec W Bool
  unfolding notify with_upgraded
  receive messages =
      upgraded_or_dead p (if is_empty messages then pure true else do notify; pure true)
