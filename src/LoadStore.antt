-- ===== src/LoadStore.antt =====
-- src/load_store.rs: the trait `LoadStore` and its implementations for `core::cell::Cell`,
-- `RefCell`, `Mutex`, `RwLock` and the atomic types.
use nosy.Prelude.{◌≡◌, ap, ◌∙◌, ◌⊎◌, inl, inr, Bool, true, false, if◌then◌else◌}
use nosy.Exec.{Exec, ok, ◌>>=◌}
use nosy.Memory.{Place}
use nosy.MaybeSync.{
  Mutex, new_mutex, lock, unlock, RwLock, new_rw_lock, read, end_read, write, end_write,
}

-- The old value is on the left of the sum, for `Ok`, and the new one on the right, for `Err`.
pub record LoadStore (W V : Type 0) : Type 0 where
  pub get : Exec W V
  pub replace : V → Exec W V
  pub replace_if_unequal : V → Exec W (V ⊎ V)

-- What a caller may rely on while nobody else is in the container: `idle v` is the state of the
-- container then, when it holds `v`, as `LoadStore::new` makes it, and `same` is the equality of
-- its values.
pub record IsLoadStore {W S V : Type 0} (same : V → V → Bool) (ls : LoadStore W V) (p : Place W S)
    (idle : V → S) : Type 0 where
  pub gets : (v : V) (w : W) → ls.get (p.put (idle v) w) ≡ (ok v, p.put (idle v) w)
  pub replaces :
      (v new : V) (w : W) → ls.replace new (p.put (idle v) w) ≡ (ok v, p.put (idle new) w)
  pub equal :
      (v new : V) (w : W)
      → same new v ≡ true
      → ls.replace_if_unequal new (p.put (idle v) w) ≡ (ok (inr new), p.put (idle v) w)
  pub unequal :
      (v new : V) (w : W)
      → same new v ≡ false
      → ls.replace_if_unequal new (p.put (idle v) w) ≡ (ok (inl v), p.put (idle new) w)

module _ {W V : Type 0} (same : V → V → Bool) (p : Place W V) where
  open p use {get, put, get-put, put-put}

  -- `core::cell::Cell`: the value is compared first, and replaced only if it differs.
  unfoldable pub cell : LoadStore W V
  cell = record {
    get = λ w. (ok (get w), w);
    replace = λ new w. (ok (get w), put new w);
    replace_if_unequal =
        λ new w. if same new (get w) then (ok (inr new), w) else (ok (inl (get w)), put new w);
  }

  -- The atomic types: the value is replaced first, and compared afterwards.
  unfoldable pub atomic : LoadStore W V
  atomic = record {
    get = λ w. (ok (get w), w);
    replace = λ new w. (ok (get w), put new w);
    replace_if_unequal = λ new w.
        if same (get w) new then (ok (inr new), put new w) else (ok (inl (get w)), put new w);
  }

  pub cell-IsLoadStore : IsLoadStore same cell p (λ v. v)
  unfolding cell
  cell-IsLoadStore = record {
    gets = λ v w. rw (get-put v w);
    replaces = λ v new w. rw (get-put v w, put-put new v w);
    equal = λ v new w e. rw (get-put v w) (rw e);
    unequal = λ v new w e. rw (get-put v w) (rw (e, put-put new v w));
  }

  -- The atomic types keep the same contract as a cell, though they write before they compare, when
  -- the equality of their values is symmetric and tells apart every two different values.
  pub atomic-IsLoadStore :
      ((a b : V) → same a b ≡ same b a)
      → ((a b : V) → same a b ≡ true → a ≡ b)
      → IsLoadStore same atomic p (λ v. v)
  unfolding atomic
  atomic-IsLoadStore symmetric exact = record {
    gets = λ v w. rw (get-put v w);
    replaces = λ v new w. rw (get-put v w, put-put new v w);
    equal = λ v new w e. rw (get-put v w) (
        rw (symmetric v new, e)
          (ap (λ u. (ok (inr new), u)) (put-put new v w ∙ ap (λ a. put a w) (exact new v e))));
    unequal = λ v new w e. rw (get-put v w) (rw (symmetric v new, e, put-put new v w));
  }

-- `RefCell` and `Mutex`: one at a time.
module _ {W V : Type 0} (same : V → V → Bool) (p : Place W (Mutex V)) where
  open p use {get, put, get-put, put-put}

  unfoldable mutex_get : Exec W V
  unfolding lock unlock
  mutex_get = do v ← lock p; λ w. (ok v, unlock p v w)

  unfoldable mutex_replace : V → Exec W V
  unfolding lock unlock
  mutex_replace new = do v ← lock p; λ w. (ok v, unlock p new w)

  unfoldable mutex_replace_if_unequal : V → Exec W (V ⊎ V)
  unfolding lock unlock
  mutex_replace_if_unequal new = do
    v ← lock p
    λ w. if same new v then (ok (inr new), unlock p v w) else (ok (inl v), unlock p new w)

  unfoldable pub mutex : LoadStore W V
  unfolding mutex_get mutex_replace mutex_replace_if_unequal
  mutex = record {
    get = mutex_get;
    replace = mutex_replace;
    replace_if_unequal = mutex_replace_if_unequal;
  }

  lock_idle :
      (v : V) (w : W)
      → lock p (put (new_mutex v) w) ≡ (ok v, put (record { locked = true; value = v }) w)
  unfolding lock
  lock_idle v w = rw (get-put (new_mutex v) w) (ap (λ u. (ok v, u)) (put-put _ _ w))

  unlock_held :
      (v new : V) (w : W)
      → unlock p new (put (record { locked = true; value = v }) w) ≡ put (new_mutex new) w
  unfolding unlock
  unlock_held v new w = put-put _ _ w

  pub mutex-IsLoadStore : IsLoadStore same mutex p new_mutex
  unfolding mutex
  mutex-IsLoadStore = record {
    gets = λ v w. rw (lock_idle v w) (ap (λ u. (ok v, u)) (unlock_held v v w));
    replaces = λ v new w. rw (lock_idle v w) (ap (λ u. (ok v, u)) (unlock_held v new w));
    equal =
        λ v new w e. rw (lock_idle v w) (rw e (ap (λ u. (ok (inr new), u)) (unlock_held v v w)));
    unequal =
        λ v new w e. rw (lock_idle v w) (rw e (ap (λ u. (ok (inl v), u)) (unlock_held v new w)));
  }

-- `RwLock`: reading shares the lock.
module _ {W V : Type 0} (same : V → V → Bool) (p : Place W (RwLock V)) where
  open p use {get, put, get-put, put-put}

  unfoldable rw_lock_get : Exec W V
  unfolding read end_read
  rw_lock_get = do v ← read p; λ w. (ok v, end_read p w)

  unfoldable rw_lock_replace : V → Exec W V
  unfolding write end_write
  rw_lock_replace new = do v ← write p; λ w. (ok v, end_write p new w)

  unfoldable rw_lock_replace_if_unequal : V → Exec W (V ⊎ V)
  unfolding write end_write
  rw_lock_replace_if_unequal new = do
    v ← write p
    λ w. if same new v then (ok (inr new), end_write p v w) else (ok (inl v), end_write p new w)

  unfoldable pub rw_lock : LoadStore W V
  unfolding rw_lock_get rw_lock_replace rw_lock_replace_if_unequal
  rw_lock = record {
    get = rw_lock_get;
    replace = rw_lock_replace;
    replace_if_unequal = rw_lock_replace_if_unequal;
  }

  write_idle :
      (v : V) (w : W)
      → write p (put (new_rw_lock v) w)
        ≡ (ok v, put (record { readers = 0; writing = true; value = v }) w)
  unfolding write
  write_idle v w = rw (get-put (new_rw_lock v) w) (ap (λ u. (ok v, u)) (put-put _ _ w))

  end_write_held :
      (v new : V) (w : W)
      → end_write p new (put (record { readers = 0; writing = true; value = v }) w)
        ≡ put (new_rw_lock new) w
  unfolding end_write
  end_write_held v new w =
      rw (get-put (record { readers = 0; writing = true; value = v }) w, end_write) (put-put _ _ w)

  read_idle : (v : V) (w : W) → rw_lock_get (put (new_rw_lock v) w) ≡ (ok v, put (new_rw_lock v) w)
  unfolding rw_lock_get read end_read
  read_idle v w =
      let one : RwLock V = record { readers = 1; writing = false; value = v } in
      rw (get-put (new_rw_lock v) w) (
        rw (put-put one (new_rw_lock v) w)
          (rw (get-put one w, end_read) (ap (λ u. (ok v, u)) (put-put _ one w))))

  pub rw_lock-IsLoadStore : IsLoadStore same rw_lock p new_rw_lock
  unfolding rw_lock
  rw_lock-IsLoadStore = record {
    gets = read_idle;
    replaces = λ v new w. rw (write_idle v w) (ap (λ u. (ok v, u)) (end_write_held v new w));
    equal = λ v new w e.
        rw (write_idle v w) (rw e (ap (λ u. (ok (inr new), u)) (end_write_held v v w)));
    unequal = λ v new w e.
        rw (write_idle v w) (rw e (ap (λ u. (ok (inl v), u)) (end_write_held v new w)));
  }
