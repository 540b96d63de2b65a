-- ===== src/Cell.antt =====
-- src/cell.rs: `Cell`, its source `CellSource`, and `CellWithLocal`. The cell and its sources share
-- one allocation: a container for the value, seen through its `LoadStore`, and a notifier at the
-- place `q`.
pub mod Allocation
pub mod Debugging
pub mod Updates
pub mod Sources
pub mod Local
use nosy.Prelude.{ℕ, ◌⊎◌, inl, inr}
use nosy.Exec.{Exec, ok, pure, ◌>>=◌, ◌>>◌}
use nosy.Listener.{Listener}
use nosy.Memory.{Place}
use nosy.LoadStore.{LoadStore}
use nosy.Notifier.Locked
use nosy.Notifier.Locked.{Notifier}

-- `Cell::new`: `store_new` is `LoadStore::new`.
module _ {W S V L : Type 0} (p : Place W S) (q : Place W (Notifier L)) (store_new : V → S) where
  unfoldable pub new : V → W → W
  unfolding Locked.new
  new value w = q.put Locked.new (p.put (store_new value) w)

module _ {W V L : Type 0} (lis : Listener W L (Unit {0})) (ls : LoadStore W V)
    (q : Place W (Notifier L)) where
  unfoldable pub get : Exec W V
  get = ls.get

  unfoldable pub set : V → Exec W (Unit {0})
  unfolding Locked.notify
  set value = do old_value ← ls.replace value; Locked.notify lis q tt

  abbrev after_replace : V ⊎ V → Exec W (Unit {0})
  after_replace (inl old_value) = Locked.notify lis q tt
  after_replace (inr new_value) = pure tt

  unfoldable pub set_if_unequal : V → Exec W (Unit {0})
  unfolding Locked.notify
  set_if_unequal value = do replaced ← ls.replace_if_unequal value; after_replace replaced

  unfoldable pub update_mut : (V → V) → Exec W (Unit {0})
  unfolding get set
  update_mut f = do value ← get; set (f value)

  -- `CellSource::listen_raw`
  unfoldable pub listen_raw : (ℕ → ℕ) → L → Exec W (Unit {0})
  unfolding Locked.listen_raw
  listen_raw grow listener = Locked.listen_raw lis q grow listener

-- `Drop` for `Cell`.
module _ {W L : Type 0} (q : Place W (Notifier L)) where
  unfoldable pub drop : Exec W (Unit {0})
  unfolding Locked.close
  drop = Locked.close q

-- `CellWithLocal`: the copy that its owner reads without a lock is at the place `local`.
module _ {W V L : Type 0} (lis : Listener W L (Unit {0})) (ls : LoadStore W V)
    (q : Place W (Notifier L)) (local : Place W V) where
  -- `CellWithLocal::new`: a clone of the value is kept beside the cell.
  unfoldable pub new_local : {S : Type 0} → Place W S → (V → S) → V → W → W
  unfolding new
  new_local p store_new value w = new p q store_new value (local.put value w)

  unfoldable pub set_local : V → Exec W (Unit {0})
  unfolding set
  set_local value w = set lis ls q value (local.put value w)

  unfoldable pub get_local : Exec W V
  get_local w = (ok (local.get w), w)
