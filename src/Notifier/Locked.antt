-- ===== src/Notifier/Locked.antt =====
-- src/notifier.rs: `Notifier`, a `RawNotifier` behind a lock that can be closed, and
-- `NotifierForwarder`. A notifier lies at a place of the world, since its owners share it.
use nosy.Prelude.{ℕ, Bool, true, ◌&&◌, Option, none, some, List, [], ◌∷◌}
use nosy.Exec.{Exec, Result, ok, closed, pure, raise, ◌>>=◌, ◌>>◌}
use nosy.Listener.{Listener}
use nosy.Memory.{Place, Shared, finally, inside, with_upgraded, upgraded_or_dead}
use nosy.MaybeSync.{RwLock, new_rw_lock, read, end_read, write, end_write, try_read}
use nosy.Notifier.Raw
use nosy.Notifier.Raw.{NotifierEntry, RawNotifier, count_approximate}

pub data State (L : Type 0) : Type 0 where
  opened : RawNotifier L → State L
  shut : State L

abbrev pub Notifier : Type 0 → Type 0
Notifier L = RwLock (State L)

unfoldable pub new : {L : Type 0} → Notifier L
unfolding Raw.new
new = new_rw_lock (opened Raw.new)

-- `fetch_and` on the bits of a notifier that is borrowed for reading.
unfoldable pub and_bits :
    {L : Type 0} → List (NotifierEntry L) → List (NotifierEntry L) → List (NotifierEntry L)
and_bits [] es = []
and_bits (d ∷ ds) [] = d ∷ ds
and_bits (d ∷ ds) (e ∷ es) = record d { was_alive = d.was_alive && e.was_alive } ∷ and_bits ds es

abbrev pub and_state : {L : Type 0} → State L → RawNotifier L → State L
and_state shut raw = shut
and_state (opened r) raw = opened (record r { listeners = and_bits r.listeners raw.listeners })

-- What `Debug` prints of a notifier: how many entries there are, that it is closed, or that it is
-- being written to.
pub data Shown : Type 0 where
  counted : ℕ → Shown
  shown_closed : Shown
  unknown : Shown

module _ {W L : Type 0} (p : Place W (Notifier L)) where
  open p use {get, put}

  unfoldable pub close : Exec W (Unit {0})
  unfolding write end_write
  close = do write p; λ w. (ok tt, end_write p shut w)

  -- The guard's drop behind `RawNotifier::notify_many`. While the notifier is borrowed for reading
  -- nobody looks at the bits, so what the delivery cleared is joined to them at the end.
  unfoldable pub end_notify : RawNotifier L → W → W
  unfolding end_read and_bits
  end_notify raw w = end_read p (put (record (get w) { value = and_state (get w).value raw }) w)

  abbrev show_state : Option (State L) → W → Result Shown × W
  show_state (some (opened raw)) w = (ok (counted (count_approximate raw)), end_read p w)
  show_state (some shut) w = (ok shown_closed, end_read p w)
  show_state none w = (ok unknown, w)

  unfoldable pub debug_fmt : Exec W Shown
  unfolding try_read end_read count_approximate
  debug_fmt = do state ← try_read p; show_state state

module _ {W L M : Type 0} (lis : Listener W L M) (p : Place W (Notifier L)) where
  unfoldable pub notify_state : List M → State L → Exec W (Unit {0})
  unfolding end_notify end_read
  notify_state ms shut w = finally (raise closed) (end_read p) w
  notify_state ms (opened raw) w =
      let done = Raw.notify_many lis ms (raw, w) in (done.0, end_notify p done.1.0 done.1.1)

  unfoldable pub notify_many : List M → Exec W (Unit {0})
  unfolding notify_state read
  notify_many ms = do state ← read p; notify_state ms state

  unfoldable pub notify : M → Exec W (Unit {0})
  unfolding notify_many
  notify m = notify_many (m ∷ [])

  -- A method of the `RawNotifier` behind the write guard; a closed notifier stays as it is.
  unfoldable pub write_state {κ} :
      {A : Type κ} → A → Exec (RawNotifier L × W) A → State L → Exec W A
  unfolding end_write
  write_state a m shut w = (ok a, end_write p shut w)
  write_state a m (opened raw) w =
      let done = m (raw, w) in (done.0, end_write p (opened done.1.0) done.1.1)

  -- What a listener does when a closed notifier drops it is in Notifier/Drops.
  unfoldable pub listen_raw : (ℕ → ℕ) → L → Exec W (Unit {0})
  unfolding write_state write
  listen_raw grow l = do state ← write p; write_state tt (Raw.listen_raw lis grow l) state

  unfoldable pub listen :
      {K : Type 0} (unconverted : Listener W K M) (into : K → L) → (ℕ → ℕ) → K → Exec W (Unit {0})
  unfolding write_state write
  listen unconverted into grow l = do
    state ← write p
    write_state tt (Raw.listen lis unconverted into grow l) state

  unfoldable pub count : Exec W ℕ
  unfolding write_state write count_approximate
  count = do
    state ← write p
    write_state 0 (do Raw.drop_dead_listeners lis; λ s. (ok (count_approximate s.0), s)) state

-- `NotifierForwarder` is a weak reference to a shared notifier.
module _ {W L M : Type 0} (lis : Listener W L M) (p : Place W (Shared (Notifier L))) where
  unfoldable pub forward : List M → Exec W Bool
  unfolding with_upgraded inside
  forward ms = upgraded_or_dead p (do notify_many lis (inside p) ms; pure true)

  -- The one forwarder of the notifier at `p`, as a listener.
  abbrev pub forwarder : Listener W (Unit {0}) M
  forwarder = record { receive = λ _. forward }
