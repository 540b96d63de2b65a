-- ===== src/Notifier/Threads.antt =====
-- src/notifier.rs: one `Notifier` that several threads call. Each method holds the lock, for reading
-- in `notify_many` and for writing in the others, and the threads' operations follow each other in
-- any order. A thread whose lock is taken waits: its turn changes nothing. Under the lock for
-- writing nobody else gets at the notifier, so what a method does there is one operation. The lock is
-- not in the world of the listeners: they are listeners that do not reach back into the notifier.
pub mod Exclusion
pub mod Ongoing
pub mod Turns
pub mod Rounds
pub mod Lengths
pub mod Work
pub mod Additions
pub mod Progress
pub mod Deadlock
pub mod Finished
pub mod Lifted
pub mod Alone
pub mod Sequence
pub mod Asked
pub mod Heard
use nosy.Prelude.{
  ℕ, zero, suc, ◌+◌, ◌-◌, Bool, true, false, not, ◌||◌, Option, none, some, List, [], ◌∷◌, ◌++◌,
  set, ◌==◌, if◌then◌else◌,
}
use nosy.Listener.{Listener}
use nosy.MaybeSync.{RwLock}
use nosy.Notifier.Raw
use nosy.Notifier.Raw.{NotifierEntry, RawNotifier, get_elem?}
use nosy.Notifier.Locked.{State, opened, shut}
use nosy.Notifier.Calls.{Call, listening, notifying, counting, closing}
use nosy.Notifier.Concurrent.{Phase, calling, marking, stopped, Delivery, begin, advance}

abbrev pub listeners_of : {L : Type 0} → List (NotifierEntry L) → List L
listeners_of [] = []
listeners_of (e ∷ es) = e.listener ∷ listeners_of es

abbrev pub entries_of : {L : Type 0} → State L → List (NotifierEntry L)
entries_of (opened raw) = raw.listeners
entries_of shut = []

-- A delivery as it is seen from outside: its messages, the listeners that there were when the lock
-- was taken, and those that have been called so far.
pub record Round (L M : Type 0) : Type 0 where
  pub messages : List M
  pub present : List L
  pub called : List L
  pub panicked : Bool

-- Where a thread is: between two calls, in the loop of `notify_many` with the lock held for
-- reading, or in another method with the lock held for writing.
pub data Stage (L M : Type 0) : Type 0 where
  outside : Stage L M
  delivering : Round L M → Delivery M → Stage L M
  writing : Call L M → Stage L M

-- A thread, with the calls that it has still to make and the deliveries that it is through with.
pub record Client (L M : Type 0) : Type 0 where
  pub calls : List (Call L M)
  pub stage : Stage L M
  pub history : List (Round L M)

-- What the threads share.
pub record Shared (W L : Type 0) : Type 0 where
  pub lock : RwLock (State L)
  pub world : W

abbrev pub put_entries : {L : Type 0} → List (NotifierEntry L) → State L → State L
put_entries es (opened raw) = opened (record raw { listeners = es })
put_entries es shut = shut

abbrev pub hear : {L M : Type 0} → Round L M → NotifierEntry L → Round L M
hear r e = record r { called = r.called ++ e.listener ∷ [] }

abbrev pub free_to_read : {T : Type 0} → RwLock T → Bool
free_to_read l = not l.writing

abbrev pub free_to_write : {T : Type 0} → RwLock T → Bool
free_to_write l = not (l.writing || not (l.readers == 0))

module _ {W L M : Type 0} (lis : Listener W L M) (grow : ℕ → ℕ) where
  -- The next call is begun, if its lock is free.
  unfoldable pub enter :
      Call L M → List (Call L M) → Client L M → Shared W L → Client L M × Shared W L
  enter (notifying ms) cs c s =
      if free_to_read s.lock
      then (
        record c {
          calls = cs;
          stage =
              delivering
                (record {
                  messages = ms;
                  present = listeners_of (entries_of s.lock.value);
                  called = [];
                  panicked = false;
                })
                (begin ms);
        },
        record s { lock = record s.lock { readers = s.lock.readers + 1 } },
      )
      else (c, s)
  enter call cs c s =
      if free_to_write s.lock
      then (
        record c { calls = cs; stage = writing call },
        record s { lock = record s.lock { writing = true } },
      )
      else (c, s)

  -- What a method does while it holds the lock for writing.
  unfoldable pub body : Call L M → State L → W → State L × W
  unfolding Raw.listen_raw Raw.drop_dead_listeners
  body closing state w = (shut, w)
  body (listening l) shut w = (shut, w)
  body (listening l) (opened raw) w =
      let done = Raw.listen_raw lis grow l (raw, w) in (opened done.1.0, done.1.1)
  body counting shut w = (shut, w)
  body counting (opened raw) w =
      let done = Raw.drop_dead_listeners lis (raw, w) in (opened done.1.0, done.1.1)
  body (notifying ms) state w = (state, w)

  unfoldable pub finish_writing : Call L M → Client L M → Shared W L → Client L M × Shared W L
  unfolding body
  finish_writing call c s =
      let done = body call s.lock.value s.world in
      (
        record c { stage = outside },
        record s { lock = record s.lock { writing = false; value = done.0 }; world = done.1 },
      )

  -- The drop of the read guard, behind the last listener, after a panic, or at once if the notifier
  -- is closed.
  unfoldable pub leave : Round L M → Client L M → Shared W L → Client L M × Shared W L
  leave r c s = (
    record c { stage = outside; history = r ∷ c.history },
    record s { lock = record s.lock { readers = s.lock.readers - 1 } },
  )

  -- An operation of the loop of `notify_many` on the entry at which the thread is.
  unfoldable pub step_delivery :
      Round L M → Delivery M → Client L M → Shared W L → Client L M × Shared W L
  unfolding advance
  step_delivery r d c s =
      let next = advance lis d (record { entries = entries_of s.lock.value; world = s.world }) in
      (
        record c { stage = delivering r next.0 },
        record s {
          lock = record s.lock { value = put_entries next.1.entries s.lock.value };
          world = next.1.world;
        },
      )

  abbrev pub deliver_at :
      Option (NotifierEntry L)
      → Phase
      → Round L M
      → Delivery M
      → Client L M
      → Shared W L
      → Client L M × Shared W L
  deliver_at e stopped r d c s = leave (record r { panicked = true }) c s
  deliver_at e (marking alive) r d c s = step_delivery r d c s
  deliver_at none calling r d c s = leave r c s
  deliver_at (some e) calling r d c s = step_delivery (hear r e) d c s

  abbrev pub act : Stage L M → List (Call L M) → Client L M → Shared W L → Client L M × Shared W L
  act outside [] c s = (c, s)
  act outside (call ∷ cs) c s = enter call cs c s
  act (writing call) cs c s = finish_writing call c s
  act (delivering r d) cs c s =
      deliver_at (get_elem? (entries_of s.lock.value) d.index) d.phase r d c s

  -- A turn of a thread.
  unfoldable pub turn : Client L M → Shared W L → Client L M × Shared W L
  unfolding enter finish_writing leave step_delivery
  turn c s = act c.stage c.calls c s

  abbrev pub turn_of :
      Option (Client L M) → ℕ → List (Client L M) → Shared W L → List (Client L M) × Shared W L
  turn_of none i cs s = (cs, s)
  turn_of (some c) i cs s = let next = turn c s in (set cs i next.0, next.1)

  -- The turns of the threads in the order of a schedule.
  unfoldable pub run : List ℕ → List (Client L M) → Shared W L → List (Client L M) × Shared W L
  unfolding turn
  run [] cs s = (cs, s)
  run (i ∷ schedule) cs s = let next = turn_of (get_elem? cs i) i cs s in run schedule next.0 next.1
