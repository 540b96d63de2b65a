-- ===== src/Tests/Debugging.antt =====
-- What `Debug` prints of listeners and of what they deliver to.
use nosy.Prelude.{ℕ, ◌≡◌, refl, Bool, true, Option, List, [], ◌∷◌}
use nosy.Exec.{ok, panic, lock_conflict}
use nosy.Memory.{Place, Shared}
use nosy.MaybeSync.{Mutex}
use nosy.Store.{vec_store}
use nosy.StoreLock.{listener_receive}
use nosy.SimpleListeners.{flag_receive}
use nosy.WakeFlag.{WakeFlagShared, receive}
use nosy.Debugging.{
  boolean, unquoted, unquote, debug_struct, field, finish, debug_flag_listener,
  debug_wake_flag_listener, debug_store_lock_listener, debug_log,
}
use nosy.Debugging.Alive.{Tells, alive_lem}
use nosy.Tests.Wakers.{waker, clear}

-- A world that is one allocation.
abbrev whole : {S : Type 0} → Place S S
whole = record {
  get = λ s. s;
  put = λ s t. s;
  get-put = λ s t. refl;
  put-get = λ s. refl;
  put-put = λ s t u. refl;
}

-- A log whose lock is held, which has no owner left.
abbrev held : Mutex (List ℕ)
held = record { locked = true; value = 3 ∷ [] }

abbrev flag : Shared Bool
flag = record { strong = 1; value = true }

abbrev wakers : Shared (WakeFlagShared (Option ℕ) ℕ)
wakers = record { strong = 1; value = clear }

abbrev log : Shared (Mutex (List ℕ))
log = record { strong = 1; value = held }

flag_test : debug_flag_listener whole flag ≡ (
  ok (
      debug_struct "FlagListener"
        (field "alive" (boolean true) (field "value" (boolean true) finish))),
  flag,
)
unfolding debug_flag_listener
flag_test = refl

-- Printing a log takes its lock.
log_test : debug_log whole (λ ms. unquoted "[3]") log ≡ (panic lock_conflict, log)
unfolding debug_log
log_test = refl

alive_lem_example :
    Tells
      (flag_receive whole {M = ℕ} [])
      (debug_flag_listener whole)
      (debug_struct "FlagListener")
      flag
    × Tells
        (receive waker whole {M = ℕ} [])
        (debug_wake_flag_listener whole)
        (debug_struct "WakeFlagListener")
        wakers
    × Tells
        (listener_receive vec_store whole [])
        (λ x. (ok (debug_store_lock_listener whole "Vec" x), x))
        (λ f. debug_struct "StoreLockListener" (field "type" (unquote "Vec") f))
        log
alive_lem_example =
    alive_lem waker vec_store whole whole whole "Vec" 1 true clear held flag wakers log
