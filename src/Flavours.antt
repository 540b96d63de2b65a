-- ===== src/Flavours.antt =====
-- src/lib.rs: the aliases of `sync`, for listeners that are shared between threads, and in
-- Flavours/Unsync those of `unsync`.
pub mod Unsync
use nosy.Prelude.{◌≡◌}
use nosy.Memory.{Place, Shared}
use nosy.MaybeSync.{Mutex}
use nosy.Convert
use nosy.Convert.{dyn_listener}
use nosy.Notifier.Locked
use nosy.Notifier.Raw
use nosy.Source.{Source, IsSource, pointer, pointer-IsSource}
use nosy.Source.Constant as Constants
use nosy.Source.Constant.{constant_source, constant-IsSource, into_inner}
use nosy.Cell.Allocation

module _ (W : Type 0) where
  abbrev pub DynListener : Type 0 → Type 0
  DynListener M = Convert.DynListener W M

  abbrev pub DynSource : Type 0 → Type 1
  DynSource T = Source W T (dyn_listener {W = W})

  abbrev pub Notifier : Type 0 → Type 0
  Notifier M = Locked.Notifier (DynListener M)

  abbrev pub RawNotifier : Type 0 → Type 0
  RawNotifier M = Raw.RawNotifier (DynListener M)

  -- A weak reference.
  abbrev pub NotifierForwarder : Type 0 → Type 0
  NotifierForwarder M = Place W (Shared (Notifier M))

  abbrev pub Constant : Type 0 → Type 0
  Constant T = Constants.Constant T

  -- What a cell's allocation holds.
  abbrev pub Cell : Type 0 → Type 0
  Cell T = Allocation.CellSource (Mutex T) (DynListener (Unit {0}))

  -- A cell's allocation, and the local copy.
  abbrev pub CellWithLocal : Type 0 → Type 0
  CellWithLocal T = Cell T × T

  abbrev pub CellSource : Type 0 → Type 0
  CellSource T = Place W (Shared (Cell T))

  unfoldable pub constant : {T : Type 0} → T → DynSource T
  unfolding Constants.new constant_source pointer
  constant value = pointer (constant_source dyn_listener (Constants.new value))

  pub constant_dyn-IsSource :
      {T : Type 0} (value : T) → IsSource (constant value) (λ v w. value ≡ v)
  unfolding constant Constants.new into_inner
  constant_dyn-IsSource value =
      pointer-IsSource (constant_source dyn_listener (Constants.new value)) _
        (constant-IsSource dyn_listener (Constants.new value))
