-- ===== src/Lib.antt =====
-- A model of `nosy`, a library by which a program listens to changes: notifiers broadcast
-- messages to listeners, and cells and sources are values that notify when they change.
--
-- The parts, and how they meet. A `Notifier` owns its listeners (src/notifier.rs) and hands each
-- message to every one of them; a listener answers whether it is still alive, and the notifier
-- drops those that are not when its vector is full. A `Listener` (src/listener.rs) may stand in
-- front of another one, as `Filter` (src/filter.rs), `GateListener` (src/gate.rs), a tuple
-- (src/simple_listeners.rs) and `NotifierForwarder` (src/notifier.rs) do, or keep what it
-- receives: `Store` and `StoreRef` (src/store.rs), `StoreLock` (src/store_lock.rs), `Log` and
-- `Flag` (src/simple_listeners.rs), `WakeFlag` (src/future.rs). A `Cell` (src/cell.rs) is a
-- container (src/load_store.rs) with a notifier. A `Source` (src/source.rs) is a value that can
-- be read and listened to: a cell's source, a constant, another source read through a function
-- (`Map`, src/source/map.rs), or the source that another one holds (`Flatten`,
-- src/source/flatten.rs). Listeners are converted to the type that a notifier stores
-- (src/convert.rs). Locks are those of src/maybe_sync.rs.
--
-- How code is modelled. A method is a function of the state of the world, which returns its
-- result or the panic that ended it together with the world that it left (Exec). A shared
-- allocation is a `Place` of the world, which can be read and written, and `Arc`, `Rc` and
-- `Weak` are its count of strong references (Memory); the fields of a struct are places within
-- its place (Memory/Within). Deliveries call listeners, which change the world; the documented
-- requirements of `Listener::receive()` are the record `IsLawful` in Listener, relative to an
-- invariant of the world such as that a lock is free, and `Independent` says that two listeners
-- do not touch each other. A lock that is held makes the next caller panic, as `RefCell` does;
-- with a lock between threads the caller would wait. What threads do at the same time is a
-- schedule, a list that says whose atomic operation comes next.
--
-- Files.
-- - Prelude, Exec, Memory: shared types, results and panics, places.
-- - Listener, Listener/Local, Listener/Weak: `Listener`, and listeners whose state is one place.
-- - MaybeSync: `RwLock` and `Mutex`, with their guards.
-- - ArrayVec: what the code relies on of the crate `arrayvec`, as a parameter.
-- - Notifier/Raw: `RawNotifier`; Notifier/Locked: `Notifier` and `NotifierForwarder`;
--   Notifier/Delivery, Notifier/Slices, Notifier/SwapRemove, Notifier/DropDead, Notifier/Rounds,
--   Notifier/Listen, Notifier/Kept, Notifier/Outside, Notifier/Shared, Notifier/Forwarder,
--   Notifier/Conversion: their theorems; Notifier/Calls, Notifier/Steps and Notifier/Reachable:
--   calls in any order.
-- - Notifier/Concurrent: `notify_many` on several threads at once, with Concurrent/Bits and
--   Concurrent/Marks about the bits, Concurrent/Calm and Concurrent/Alive about dead listeners,
--   and Concurrent/Progress, Concurrent/Once and Concurrent/Calls about the calls.
-- - Notifier/Threads: threads that call any of the methods of one `Notifier`, with its lock:
--   Threads/Exclusion: who holds the lock; Threads/Ongoing, Threads/Turns and Threads/Rounds: whom
--   a delivery reaches; Threads/Asked and Threads/Heard: what the listeners have received; Threads/Lengths, Threads/Work, Threads/Additions, Threads/Progress,
--   Threads/Deadlock and Threads/Finished: that all calls come to an end; Threads/Lifted,
--   Threads/Alone and Threads/Sequence: a thread alone, against Notifier/Locked.
-- - Notifier/Drops: the listeners of a notifier that is closed, and one that comes too late.
-- - Convert: `FromListener`, `IntoListener` and `DynListener` (src/convert.rs, src/listener.rs).
-- - Source, with Source/Constant and Source/Map: the trait and its contract, constants, and
--   sources that are read through a function.
-- - Flavours, with Flavours/Unsync: the aliases of src/lib.rs.
-- - Debugging, with Debugging/Alive: what `Debug` prints of listeners and sources; for cells it is
--   in Cell/Allocation and Cell/Debugging, for `Notifier` in Notifier/Locked.
-- - Buffer, with Buffer/Batches, Buffer/Notifiers and Buffer/Closed: `Buffer` and `RawBuffer`.
-- - Filter, with Filter/Batches: `Filter`. Gate, with Gate/Delivery: `Gate` and `GateListener`.
-- - Store: `Store`, `StoreRef` and the weak references to one. StoreLock, with
--   StoreLock/Delivery.
-- - SimpleListeners, with SimpleListeners/Delivery and SimpleListeners/Pairs: `NullListener`,
--   tuples, `Log` and `Flag`.
-- - LoadStore: the trait and each implementation. Cell, with Cell/Allocation, Cell/Updates,
--   Cell/Sources and Cell/Local: `Cell`, `CellSource` and `CellWithLocal`.
-- - WakeFlag, with WakeFlag/Waking, WakeFlag/Interleaving and WakeFlag/Progress: `WakeFlag`, and
--   a poll that runs beside a message on another thread, one atomic operation at a time.
--   WakeFlag/Senders, with Senders/Wakeups: a poll beside any number of messages, each on a thread
--   of its own. WakeFlag/Listening and WakeFlag/TooLate: a flag that listens to a
--   notifier, which is open or closed.
--   `AtomicWaker` of the crate `futures-util` is a parameter.
-- - Flatten, with Flatten/Reading: what `Flatten` does to its state when it is read;
--   Flatten/Wiring, with Flatten/Forwarding and Flatten/Values: its two listeners and the whole,
--   over a source of sources.
-- - Tests: runs at concrete inputs.
--
-- Bounds. `RawNotifier::drop_dead_listeners` loops over an index; the model gives it as many
-- rounds as there are entries, which is enough since each round passes one entry or removes one.
-- The growth of a full `Vec` is a parameter. The turns of threads are counted in rounds, with a
-- bound on how many are enough in Threads/Finished.
--
-- Not modelled: `Pointer` output, which prints addresses; memory orderings; poisoning of locks;
-- several threads at once in any other operation than the methods of `Notifier` and the poll of a
-- `WakeFlag`, and there listeners that call the notifier which calls them; what a listener does
-- when it is dropped, except in Notifier/Drops: the listeners of a notifier that is closed, and one
-- that is added to a closed one; a function of a filter that panics or has effects; the test matrix
-- of src/xtask.

pub mod Prelude
pub mod Exec
pub mod Listener
pub mod Notifier
pub mod Memory
pub mod MaybeSync
pub mod ArrayVec
pub mod Filter
pub mod Buffer
pub mod Store
pub mod StoreLock
pub mod SimpleListeners
pub mod Gate
pub mod LoadStore
pub mod Cell
pub mod WakeFlag
pub mod Flatten
pub mod Convert
pub mod Source
pub mod Flavours
pub mod Debugging
pub mod Tests
