-- ===== src/SimpleListeners.antt =====
-- src/simple_listeners.rs: `NullListener`, tuples of listeners, `Log` and `Flag`.
pub mod Delivery
pub mod Pairs
use nosy.Prelude.{Bool, true, false, ◌||◌, List, [], ◌∷◌, ◌++◌, if◌then◌else◌}
use nosy.Exec.{Exec, ok, pure, ◌>>=◌, ◌>>◌}
use nosy.Listener.{Listener}
use nosy.Memory.{Place, Shared, inside, with_upgraded, upgraded_or_dead, shared}
use nosy.MaybeSync.{Mutex}
use nosy.Store.{is_empty, vec_store}
use nosy.StoreLock

abbrev pub null_listener : {W M : Type 0} → Listener W (Unit {0}) M
null_listener = record { receive = λ _ _. pure false }

-- The listener `(L1, L2)`: both receive, whatever the first answers.
module _ {W K L M : Type 0} (lis : Listener W K M) (lis' : Listener W L M) where
  unfoldable pub receive_both : K × L → List M → Exec W Bool
  receive_both l messages = do
    first ← lis.receive l.0 messages
    second ← lis'.receive l.1 messages
    pure (first || second)

  abbrev pub both : Listener W (K × L) M
  both = record { receive = receive_both }

-- `Log`: a `StoreLock<Vec<M>>`.
unfoldable pub new_log : {M : Type 0} → Shared (Mutex (List M))
unfolding StoreLock.new
new_log = StoreLock.new []

module _ {W M : Type 0} (p : Place W (Shared (Mutex (List M)))) where
  -- `Log::drain`: the elements go to the caller, and the vector that stays is empty.
  unfoldable pub drain : Exec W (List M)
  unfolding StoreLock.take
  drain = StoreLock.take p []

  unfoldable pub log_receive : List M → Exec W Bool
  unfolding StoreLock.listener_receive
  log_receive = StoreLock.listener_receive vec_store p

-- `Flag`: a shared `AtomicBool`.
unfoldable pub new_flag : Bool → Shared Bool
new_flag value = record { strong = 1; value = value }

module _ {W : Type 0} (p : Place W (Shared Bool)) where
  -- `swap(false)`
  unfoldable pub get_and_clear : Exec W Bool
  unfolding inside
  get_and_clear w = let cell = inside p in (ok (cell.get w), cell.put false w)

  unfoldable pub set : Exec W (Unit {0})
  unfolding inside
  set w = let cell = inside p in (ok tt, cell.put true w)

  -- `FlagListener::receive`
  unfoldable pub flag_receive : {M : Type 0} → List M → Exec W Bool
  unfolding set with_upgraded
  flag_receive messages =
      upgraded_or_dead p (if is_empty messages then pure true else do set; pure true)

  -- `Flag::listening`: the new flag is at `p`, and `listen` is what the source does with its
  -- listener.
  unfoldable pub listening : Bool → Exec W (Unit {0}) → Exec W (Unit {0})
  unfolding new_flag
  listening value listen w = listen (p.put (new_flag value) w)
