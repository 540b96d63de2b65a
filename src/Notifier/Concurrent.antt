-- ===== src/Notifier/Concurrent.antt =====
-- src/notifier.rs: deliveries by several threads at once. `notify_many` borrows the notifier for
-- reading only, so the threads' calls of the listeners and their `fetch_and` on the bits of the
-- entries follow each other in any order.
pub mod Bits
pub mod Marks
pub mod Progress
pub mod Once
pub mod Calls
pub mod Calm
pub mod Alive
use nosy.Prelude.{
  ℕ, zero, suc, ◌+◌, Bool, true, false, ◌&&◌, Option, none, some, List, [], ◌∷◌, ◌==◌,
  if◌then◌else◌,
}
use nosy.Exec.{Exec, Result, ok, panic}
use nosy.Listener.{Listener}
use nosy.Notifier.Raw.{NotifierEntry, get_elem?}

-- Where a thread is in the body of the loop: before it calls the listener, or between that and the
-- `fetch_and`, with the answer. A listener's panic ends it.
pub data Phase : Type 0 where
  calling : Phase
  marking : Bool → Phase
  stopped : Phase

pub record Delivery (M : Type 0) : Type 0 where
  pub index : ℕ
  pub phase : Phase
  pub messages : List M

abbrev pub begin : {M : Type 0} → List M → Delivery M
begin messages = record { index = 0; phase = calling; messages = messages }

-- `was_alive.fetch_and(alive)` on the entry at an index.
unfoldable pub fetch_and : {L : Type 0} → ℕ → Bool → List (NotifierEntry L) → List (NotifierEntry L)
fetch_and i alive [] = []
fetch_and zero alive (e ∷ es) = record e { was_alive = e.was_alive && alive } ∷ es
fetch_and (suc i) alive (e ∷ es) = e ∷ fetch_and i alive es

-- What the threads share.
pub record Common (W L : Type 0) : Type 0 where
  pub entries : List (NotifierEntry L)
  pub world : W

pub record Deliveries (W L M : Type 0) : Type 0 where
  pub threads : List (Delivery M)
  pub common : Common W L

abbrev pub after_call : Result Bool → Phase
after_call (ok alive) = marking alive
after_call (panic p) = stopped

module _ {W L M : Type 0} (lis : Listener W L M) where
  open lis use {receive}

  abbrev call_at : Delivery M → Common W L → Option (NotifierEntry L) → Delivery M × Common W L
  call_at t c none = (t, c)
  call_at t c (some e) =
      let done = receive e.listener t.messages c.world in
      (record t { phase = after_call done.0 }, record c { world = done.1 })

  abbrev advance_from : Phase → Delivery M → Common W L → Delivery M × Common W L
  advance_from calling t c = call_at t c (get_elem? c.entries t.index)
  advance_from (marking alive) t c = (
    record t { index = suc t.index; phase = calling },
    record c { entries = fetch_and t.index alive c.entries },
  )
  advance_from stopped t c = (t, c)

  -- The next operation of a thread; none is left behind the last entry.
  unfoldable pub advance : Delivery M → Common W L → Delivery M × Common W L
  unfolding fetch_and
  advance t c = advance_from t.phase t c

  -- A turn of the thread with the given number.
  unfoldable pub turn : ℕ → List (Delivery M) → Common W L → List (Delivery M) × Common W L
  unfolding advance
  turn i [] c = ([], c)
  turn zero (t ∷ ts) c = ((advance t c).0 ∷ ts, (advance t c).1)
  turn (suc i) (t ∷ ts) c = (t ∷ (turn i ts c).0, (turn i ts c).1)

  unfoldable pub run : List ℕ → Deliveries W L M → Deliveries W L M
  unfolding turn
  run [] d = d
  run (i ∷ schedule) d =
      let next = turn i d.threads d.common in
      run schedule (record { threads = next.0; common = next.1 })
