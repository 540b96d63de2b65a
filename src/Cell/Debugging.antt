-- ===== src/Cell/Debugging.antt =====
-- What `Debug` does to a cell while a message of the cell is being delivered.
use nosy.Prelude.{ℕ, suc, ◌≡◌, refl, false, some}
use nosy.Exec.{ok, panic, lock_conflict}
use nosy.Listener.{Listener}
use nosy.Memory.{Place, Shared}
use nosy.MaybeSync.{try_read}
use nosy.LoadStore.{LoadStore}
use nosy.Cell
use nosy.Cell.Allocation.{
  CellSource, notifier, format_cell_metadata, debug_cell, debug_source, debug_local,
}
use nosy.Notifier.Raw.{RawNotifier, count_approximate}
use nosy.Notifier.Locked
use nosy.Notifier.Locked.{Notifier, opened, debug_fmt, counted}
use nosy.Notifier.Shared.{write_held}

module _ {W S V L : Type 0} (lis : Listener W L (Unit {0})) (ls : LoadStore W V)
    (r : Place W (Shared (CellSource S L))) where
  -- The notifier in the cell's allocation, borrowed by one delivery or more.
  abbrev borrowed : ℕ → RawNotifier L → Notifier L
  borrowed n raw = record { readers = suc n; writing = false; value = opened raw }

  count_held :
      (n : ℕ) (raw : RawNotifier L) (w : W)
      → (notifier r).get w ≡ borrowed n raw
      → Locked.count lis (notifier r) w ≡ (panic lock_conflict, w)
  unfolding Locked.count
  count_held n raw w e = rw (write_held lis (notifier r) n (opened raw) w e)

  metadata_held :
      (n : ℕ) (raw : RawNotifier L) (v : V) (w : W)
      → (notifier r).get w ≡ borrowed n raw
      → format_cell_metadata lis ls r v w ≡ (panic lock_conflict, w)
  unfolding format_cell_metadata
  metadata_held n raw v w e = rw (count_held n raw w e)

  try_read_held :
      (n : ℕ) (raw : RawNotifier L) (w : W)
      → (notifier r).get w ≡ borrowed n raw
      → (try_read (notifier r) w).0 ≡ ok (some (opened raw))
  unfolding try_read
  try_read_held n raw w e = rw e refl

  -- Printing a cell, its source or a cell with a local copy counts the listeners, for which the
  -- notifier is locked for writing: while a message of the cell is being delivered it meets the
  -- held lock, though the container can be read, and the notifier by itself can be printed then.
  pub debug_borrowed :
      (n : ℕ) (raw : RawNotifier L) (v : V) (local : Place W V) (w : W)
      → (notifier r).get w ≡ borrowed n raw
      → ls.get w ≡ (ok v, w)
      → (debug_cell lis ls r w ≡ (panic lock_conflict, w))
        × (debug_source lis ls r w ≡ (panic lock_conflict, w))
        × (debug_local lis ls r local w ≡ (panic lock_conflict, w))
        × ((debug_fmt (notifier r) w).0 ≡ ok (counted (count_approximate raw)))
  unfolding debug_cell debug_source debug_local debug_fmt Cell.get
  debug_borrowed n raw v local w e g = (
    rw g (metadata_held n raw v w e),
    rw g (rw (count_held n raw w e)),
    metadata_held n raw (local.get w) w e,
    rw (try_read_held n raw w e) refl,
  )
