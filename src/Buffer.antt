-- ===== src/Buffer.antt =====
-- src/notifier.rs: `Buffer` and `RawBuffer`, which collect messages and send them in batches. The
-- two have the same code but for the notifier that they borrow, whose `notify_many` is a parameter
-- here. A buffer stands beside the state `S` that the notifier changes.
pub mod Batches
pub mod Notifiers
pub mod Closed
use nosy.Prelude.{ℕ, Bool, List, [], ◌∷◌, if◌then◌else◌}
use nosy.Exec.{Exec, Result, ok, panic, pure, ◌>>=◌, ◌>>◌}
use nosy.ArrayVec.{ArrayVec}

module _ {S M Buf : Type 0} {capacity : ℕ} (av : ArrayVec Buf M capacity)
    (notify_many : List M → Exec S (Unit {0})) where
  open av use {is_full, is_empty, clear, as_slice}

  unfoldable pub flush : Exec (Buf × S) (Unit {0})
  flush (buffer, s) = elim (notify_many (as_slice buffer) s).0 [
    | ok _ ↦ (ok tt, (clear buffer, (notify_many (as_slice buffer) s).1))
    | panic p ↦ (panic p, (buffer, (notify_many (as_slice buffer) s).1))
  ]

  unfoldable pub push : M → Exec (Buf × S) (Unit {0})
  unfolding flush
  push message (buffer, s) = elim (av.push buffer message) [
    | panic p ↦ (panic p, (buffer, s))
    | ok pushed ↦ if is_full pushed then flush (pushed, s) else (ok tt, (pushed, s))
  ]

  -- `Drop::drop`
  unfoldable pub drop : Exec (Buf × S) (Unit {0})
  unfolding flush
  drop (buffer, s) = if is_empty buffer then (ok tt, (buffer, s)) else flush (buffer, s)

  -- A caller's loop: a push for each message.
  unfoldable pub push_all : List M → Exec (Buf × S) (Unit {0})
  push_all [] = pure tt
  push_all (m ∷ ms) = do push m; push_all ms
