-- ===== src/Debugging.antt =====
-- What `Debug` prints of listeners and of what they deliver to (src/simple_listeners.rs,
-- src/store_lock.rs, src/future.rs, src/gate.rs, src/filter.rs, src/source.rs, src/source/map.rs,
-- src/notifier.rs, src/util.rs), as the tree that is handed to the formatter of `core::fmt`.
pub mod Alive
use Prim.Native.String.{String}
use nosy.Prelude.{ℕ, Bool, true, false, Option, none, some}
use nosy.Exec.{Exec, Result, ok, panic, pure, ◌>>=◌, ◌>>◌}
use nosy.Memory.{Place, Shared, inside, with_upgraded}
use nosy.MaybeSync.{Mutex, lock, unlock}
use nosy.Notifier.Raw.{RawNotifier, count_approximate}
use nosy.StoreLock
use nosy.WakeFlag.{WakeFlagShared}

-- `debug_struct` and `debug_tuple`, with their names and fields, and `one_line` for what is printed
-- in parentheses by `write!`, never on several lines; what the type of a message or a
-- value prints of itself is a parameter.
mutual
  pub data Formatted : Type 0 where
    boolean : Bool → Formatted
    number : ℕ → Formatted
    unquoted : String → Formatted
    one_line : String → Formatted → Formatted
    debug_tuple : String → Formatted → Formatted
    debug_struct : String → Fields → Formatted

  pub data Fields : Type 0 where
    finish : Fields
    field : String → Formatted → Fields → Fields

-- `Debug` for `Unquote`, a name that is printed without quotes.
unfoldable pub unquote : String → Formatted
unquote name = unquoted name

-- The field of a weak reference: whether there is something to upgrade to, and its value then.
abbrev pub strong_fields : Option Bool → Fields
strong_fields none = field "alive" (boolean false) finish
strong_fields (some value) = field "alive" (boolean true) (field "value" (boolean value) finish)

module _ {W : Type 0} (p : Place W (Shared Bool)) where
  -- `Debug` for `Flag`
  unfoldable pub debug_flag : W → Formatted
  unfolding inside
  debug_flag w = one_line "Flag" (boolean ((inside p).get w))

  -- `Debug` for `FlagListener`
  unfoldable pub debug_flag_listener : Exec W Formatted
  unfolding with_upgraded inside
  debug_flag_listener = do
    strong ← with_upgraded p (λ w. (ok ((inside p).get w), w))
    pure (debug_struct "FlagListener" (strong_fields strong))

module _ {W Waker Task : Type 0} (p : Place W (Shared (WakeFlagShared Waker Task))) where
  -- `Debug` for `WakeFlag`
  unfoldable pub debug_wake_flag : W → Formatted
  unfolding inside
  debug_wake_flag w = debug_tuple "WakeFlag" (boolean ((inside p).get w).notified)

  -- `Debug` for `WakeFlagListener`
  unfoldable pub debug_wake_flag_listener : Exec W Formatted
  unfolding with_upgraded inside
  debug_wake_flag_listener = do
    strong ← with_upgraded p (λ w. (ok ((inside p).get w).notified, w))
    pure (debug_struct "WakeFlagListener" (strong_fields strong))

module _ {W T : Type 0} (p : Place W (Shared (Mutex T))) (show : T → Formatted) where
  -- What is printed under a lock: the guard is dropped when the formatter is done.
  unfoldable pub debug_locked : String → Exec W Formatted
  unfolding lock unlock inside
  debug_locked name = do
    state ← lock (inside p)
    λ w. (ok (debug_tuple name (show state)), unlock (inside p) state w)

  -- `Debug` for `StoreLock`
  unfoldable pub debug_store_lock : Exec W Formatted
  unfolding debug_locked
  debug_store_lock = debug_locked "StoreLock"

  -- `Debug` for `Log`
  unfoldable pub debug_log : Exec W Formatted
  unfolding debug_locked
  debug_log = debug_locked "Log"

module _ {W T : Type 0} (p : Place W (Shared (Mutex T))) where
  -- `Debug` for `StoreLockListener`; `type_name` is what the compiler calls the type.
  unfoldable pub debug_store_lock_listener : String → W → Formatted
  unfolding StoreLock.alive unquote
  debug_store_lock_listener type_name w =
      debug_struct "StoreLockListener"
        (field "type" (unquote type_name) (field "alive" (boolean (StoreLock.alive p w)) finish))

  -- `Debug` for `LogListener`
  unfoldable pub debug_log_listener : W → Formatted
  unfolding StoreLock.alive
  debug_log_listener w =
      debug_struct "LogListener" (field "alive" (boolean (StoreLock.alive p w)) finish)

-- `Debug` for `Gate`
unfoldable pub debug_gate : Formatted
debug_gate = unquoted "Gate"

-- `Debug` for `Filter`, with the name of the type of its function and what its target prints.
unfoldable pub debug_filter : String → Formatted → Formatted
unfolding unquote
debug_filter type_name target =
    debug_struct "Filter" (field "function" (unquote type_name) (field "target" target finish))

-- `Debug` for `Map`
unfoldable pub debug_map : String → Formatted → Formatted
unfolding unquote
debug_map type_name source =
    debug_struct "Map" (field "function" (unquote type_name) (field "source" source finish))

-- `Debug` for `Constant`
unfoldable pub debug_constant : {T : Type 0} → (T → Formatted) → T → Formatted
debug_constant show value = debug_tuple "Constant" (show value)

-- `Debug` for `RawNotifier`
unfoldable pub debug_raw_notifier : {L : Type 0} → RawNotifier L → Formatted
unfolding count_approximate
debug_raw_notifier raw = one_line "RawNotifier" (number (count_approximate raw))
