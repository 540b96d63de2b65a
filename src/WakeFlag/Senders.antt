-- ===== src/WakeFlag/Senders.antt =====
-- `WakeFlag` polled by one thread while any number of others send it messages.
pub mod Wakeups
use nosy.Prelude.{ℕ, zero, suc, Option, none, some, List, [], ◌∷◌, set}
use nosy.WakeFlag.{AtomicWaker, WakeFlagShared}
use nosy.WakeFlag.Interleaving.{Poller, Sender, storing, poll_step, send_step}
use nosy.Notifier.Raw.{get_elem?}

-- A poll, and the messages that are sent to the flag, each by a thread of its own.
pub record Crowd (Waker Task : Type 0) : Type 0 where
  pub poller : Poller
  pub senders : List Sender
  pub flag : WakeFlagShared Waker Task

-- Whose operation comes next.
pub data Turn : Type 0 where
  polling : Turn
  sending : ℕ → Turn

-- Some messages, none of them begun.
unfoldable pub messages : ℕ → List Sender
messages zero = []
messages (suc n) = storing ∷ messages n

module _ {Waker Task : Type 0} (aw : AtomicWaker Waker Task) (t : Task) where
  abbrev pub send_at : Option Sender → ℕ → Crowd Waker Task → Crowd Waker Task
  send_at none i c = c
  send_at (some y) i c =
      let next = send_step aw t y c.flag in
      record c { senders = set c.senders i next.0; flag = next.1 }

  unfoldable pub turn : Turn → Crowd Waker Task → Crowd Waker Task
  unfolding poll_step send_step
  turn polling c =
      let next = poll_step aw t c.poller c.flag in record c { poller = next.0; flag = next.1 }
  turn (sending i) c = send_at (get_elem? c.senders i) i c

  unfoldable pub run : List Turn → Crowd Waker Task → Crowd Waker Task
  unfolding turn
  run [] c = c
  run (x ∷ schedule) c = run schedule (turn x c)
