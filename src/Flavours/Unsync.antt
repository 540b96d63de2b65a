-- ===== src/Flavours/Unsync.antt =====
-- src/lib.rs: the aliases of `unsync`, for listeners that stay on one thread. `Rc` and `Arc` are the
-- same allocation in the model, and `RefCell` is a mutex that does not wait.
use nosy.Prelude.{◌≡◌}
use nosy.Memory.{Place, Shared}
use nosy.MaybeSync.{Mutex}
use nosy.Convert
use nosy.Convert.{dyn_listener}
use nosy.Notifier.Locked
use nosy.Notifier.Raw
use nosy.Source.{Source, IsSource, pointer, pointer-IsSource}
use nosy.Source.Constant as Constants
use nosy.Source.Constant.{constant_source, constant-IsSource, into_inner}
use nosy.Cell.Allocation

-- `RefCell`, whose borrow flag is the lock.
abbrev pub RefCell : Type 0 → Type 0
RefCell = Mutex

module _ (W : Type 0) where
  abbrev pub DynListener : Type 0 → Type 0
  DynListener M = Convert.DynListener W M

  abbrev pub DynSource : Type 0 → Type 1
  DynSource T = Source W T (dyn_listener {W = W})

  abbrev pub Notifier : Type 0 → Type 0
  Notifier M = Locked.Notifier (DynListener M)

  abbrev pub RawNotifier : Type 0 → Type 0
  RawNotifier M = Raw.RawNotifier (DynListener M)

  -- A weak reference.
  abbrev pub NotifierForwarder : Type 0 → Type 0
  NotifierForwarder M = Place W (Shared (Notifier M))

  abbrev pub Constant : Type 0 → Type 0
  Constant T = Constants.Constant T

  -- What a cell's allocation holds.
  abbrev pub Cell : Type 0 → Type 0
  Cell T = Allocation.CellSource (RefCell T) (DynListener (Unit {0}))

  -- A cell's allocation, and the local copy.
  abbrev pub CellWithLocal : Type 0 → Type 0
  CellWithLocal T = Cell T × T

  -- `Arc` here too.
  abbrev pub CellSource : Type 0 → Type 0
  CellSource T = Place W (Shared (Cell T))

  unfoldable pub constant : {T : Type 0} → T → DynSource T
  unfolding Constants.new constant_source pointer
  constant value = pointer (constant_source dyn_listener (Constants.new value))

  -- What `constant` returns keeps the contract of a source of that value.
  pub constant_unsync-IsSource :
      {T : Type 0} (value : T) → IsSource (constant value) (λ v w. value ≡ v)
  unfolding constant Constants.new into_inner
  constant_unsync-IsSource value =
      pointer-IsSource (constant_source dyn_listener (Constants.new value)) _
        (constant-IsSource dyn_listener (Constants.new value))
