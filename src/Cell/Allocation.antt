-- ===== src/Cell/Allocation.antt =====
-- src/cell.rs: the one allocation that a `Cell` shares with its sources, and what `Debug` shows of
-- it.
use nosy.Prelude.{ℕ, ◌≡◌, refl, ap}
use nosy.Exec.{Exec, pure, ◌>>=◌}
use nosy.Listener.{Listener}
use nosy.Memory.{Place, Shared, Apart, inside, retain, retain_lem, strong_count}
use nosy.Memory.Within.{within, within-Apart}
use nosy.LoadStore.{LoadStore}
use nosy.Notifier.Locked
use nosy.Notifier.Locked.{Notifier}
use nosy.Cell

pub record CellSource (S L : Type 0) : Type 0 where
  pub value_mutex : S
  pub notifier : Notifier L

module _ {S L : Type 0} where
  abbrev value_mutex_field : Place (CellSource S L) S
  value_mutex_field = record {
    get = λ c. c.value_mutex;
    put = λ s c. record c { value_mutex = s };
    get-put = λ s c. refl;
    put-get = λ c. refl;
    put-put = λ s t c. refl;
  }

  abbrev notifier_field : Place (CellSource S L) (Notifier L)
  notifier_field = record {
    get = λ c. c.notifier;
    put = λ n c. record c { notifier = n };
    get-put = λ n c. refl;
    put-get = λ c. refl;
    put-put = λ n m c. refl;
  }

  fields-Apart : Apart value_mutex_field notifier_field
  fields-Apart = record {
    get-left = λ n c. refl;
    get-right = λ s c. refl;
    put-swap = λ s n c. refl;
  }

-- The two places that the operations of a cell act on.
module _ {W S L : Type 0} (r : Place W (Shared (CellSource S L))) where
  unfoldable pub value_mutex : Place W S
  unfolding within inside
  value_mutex = within (inside r) value_mutex_field

  unfoldable pub notifier : Place W (Notifier L)
  unfolding within inside
  notifier = within (inside r) notifier_field

  pub cell-Apart : Apart value_mutex notifier
  unfolding value_mutex notifier
  cell-Apart = within-Apart (inside r) fields-Apart

  -- `Cell::new`: an allocation with one owner, the cell.
  unfoldable pub new : {V : Type 0} → (V → S) → V → W → W
  unfolding Locked.new
  new store_new value w =
      r.put
        (record {
          strong = 1;
          value = record { value_mutex = store_new value; notifier = Locked.new };
        })
        w

  -- `Cell::as_source` and `CellWithLocal::as_source`: one more owner.
  unfoldable pub as_source : W → W
  unfolding retain
  as_source = retain r

  -- A new cell's places hold the value and a new notifier, also when a source has been made.
  pub new-as_source :
      {V : Type 0} (store_new : V → S) (v : V) (w : W)
      → (let w' = as_source (new store_new v w) in
          (value_mutex.get w' ≡ store_new v)
          × (notifier.get w' ≡ Locked.new)
          × (strong_count r w' ≡ 2))
  unfolding new as_source value_mutex notifier within inside
  new-as_source store_new v w =
      let held = retain_lem r 1 (record { value_mutex = store_new v; notifier = Locked.new }) w in
      rw held (
        ap (λ s. s.value.value_mutex) (r.get-put _ w),
        ap (λ s. s.value.notifier) (r.get-put _ w),
        ap (λ s. s.strong) (r.get-put _ w),
      )

-- What `Debug` shows of a cell, of its source, and of a cell with a local copy.
pub record ShownCell (V : Type 0) : Type 0 where
  pub value : V
  pub owners : ℕ
  pub listeners : ℕ

pub record ShownSource (V : Type 0) : Type 0 where
  pub value : V
  pub listeners : ℕ

module _ {W S V L : Type 0} (lis : Listener W L (Unit {0})) (ls : LoadStore W V)
    (r : Place W (Shared (CellSource S L))) where
  unfoldable pub format_cell_metadata : V → Exec W (ShownCell V)
  unfolding Locked.count notifier
  format_cell_metadata v w =
      (do
        n ← Locked.count lis (notifier r)
        pure (record { value = v; owners = strong_count r w; listeners = n }))
        w

  unfoldable pub debug_cell : Exec W (ShownCell V)
  unfolding Cell.get format_cell_metadata notifier
  debug_cell = do v ← Cell.get lis ls (notifier r); format_cell_metadata v

  unfoldable pub debug_source : Exec W (ShownSource V)
  unfolding Cell.get Locked.count notifier
  debug_source = do
    v ← Cell.get lis ls (notifier r)
    n ← Locked.count lis (notifier r)
    pure (record { value = v; listeners = n })

  unfoldable pub debug_local : Place W V → Exec W (ShownCell V)
  unfolding format_cell_metadata
  debug_local local w = format_cell_metadata (local.get w) w
