-- ===== src/MaybeSync.antt =====
-- src/maybe_sync.rs: the locks behind `Notifier`, `StoreLock` and `Flatten`. A lock word says who
-- holds the lock. Taking a lock that is held ends in a panic here, as it does with the `RefCell`
-- that stands in for it without a feature; with a real lock the same call on one thread may also
-- hang. Poisoning is not modelled, since `unpoison` ignores it.
use nosy.Prelude.{
  ℕ, ◌+◌, ◌-◌, Bool, true, false, ◌||◌, not, Option, none, some, if◌then◌else◌, ◌==◌,
}
use nosy.Exec.{Exec, ok, panic, lock_conflict}
use nosy.Memory.{Place}

pub record RwLock (T : Type 0) : Type 0 where
  pub readers : ℕ
  pub writing : Bool
  pub value : T

pub record Mutex (T : Type 0) : Type 0 where
  pub locked : Bool
  pub value : T

abbrev pub new_rw_lock : {T : Type 0} → T → RwLock T
new_rw_lock v = record { readers = 0; writing = false; value = v }

abbrev pub new_mutex : {T : Type 0} → T → Mutex T
new_mutex v = record { locked = false; value = v }

module _ {W T : Type 0} (p : Place W (RwLock T)) where
  open p use {get, put}

  unfoldable pub read : Exec W T
  read w =
      let l = get w in
      if l.writing
      then (panic lock_conflict, w)
      else (ok l.value, put (record l { readers = l.readers + 1 }) w)

  -- The drop of a read guard.
  unfoldable pub end_read : W → W
  end_read w = put (record (get w) { readers = (get w).readers - 1 }) w

  unfoldable pub write : Exec W T
  write w =
      let l = get w in
      if l.writing || not (l.readers == 0)
      then (panic lock_conflict, w)
      else (ok l.value, put (record l { writing = true }) w)

  -- The drop of a write guard, behind which the value was last `v`.
  unfoldable pub end_write : T → W → W
  end_write v w = put (record (get w) { writing = false; value = v }) w

  unfoldable pub try_read : Exec W (Option T)
  try_read w =
      let l = get w in
      if l.writing
      then (ok none, w)
      else (ok (some l.value), put (record l { readers = l.readers + 1 }) w)

module _ {W T : Type 0} (p : Place W (Mutex T)) where
  open p use {get, put}

  unfoldable pub lock : Exec W T
  lock w =
      let l = get w in
      if l.locked
      then (panic lock_conflict, w)
      else (ok l.value, put (record l { locked = true }) w)

  -- The drop of a mutex guard, behind which the value was last `v`.
  unfoldable pub unlock : T → W → W
  unlock v w = put (record (get w) { locked = false; value = v }) w
