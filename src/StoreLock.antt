-- ===== src/StoreLock.antt =====
-- src/store_lock.rs: `StoreLock`, a `Store` in a mutex, and its listener.
pub mod Delivery
use nosy.Prelude.{ℕ, Bool, true, false, Option, none, some, List, ltb, if◌then◌else◌}
use nosy.Exec.{Exec, Result, ok, panic, pure, ◌>>=◌, ◌>>◌}
use nosy.Memory.{Place, Shared, inside, strong_count, with_upgraded, upgraded_or_dead}
use nosy.MaybeSync.{Mutex, new_mutex, lock, unlock}
use nosy.Store.{Store, is_empty, locked_receive}

-- The allocation that a new `StoreLock` owns.
unfoldable pub new : {T : Type 0} → T → Shared (Mutex T)
new initial_state = record { strong = 1; value = new_mutex initial_state }

module _ {W T M : Type 0} (st : Store T M) (p : Place W (Shared (Mutex T))) where
  unfoldable pub receive_bare_mutex : List M → Exec W Bool
  unfolding inside locked_receive
  receive_bare_mutex messages = do locked_receive st (inside p) messages; pure true

  -- `StoreLock::receive`, by the owner.
  unfoldable pub receive : List M → Exec W (Unit {0})
  unfolding receive_bare_mutex
  receive messages = do receive_bare_mutex messages; pure tt

  -- `StoreLockListener::receive`
  unfoldable pub listener_receive : List M → Exec W Bool
  unfolding receive_bare_mutex with_upgraded
  listener_receive messages =
      upgraded_or_dead p (if is_empty messages then pure true else receive_bare_mutex messages)

module _ {W T : Type 0} (p : Place W (Shared (Mutex T))) where
  unfoldable pub alive : W → Bool
  alive w = ltb 0 (strong_count p w)

  -- `replacement` is `T::default()`.
  unfoldable pub take : T → Exec W T
  unfolding inside lock unlock
  take replacement = do state ← lock (inside p); λ w. (ok state, unlock (inside p) replacement w)
