-- ===== src/Tests/Cells.antt =====
-- Cells, their sources and their local copies.
use nosy.Prelude.{ℕ, suc, ◌*◌, ◌≡◌, refl, Bool, false, ◌==◌}
use nosy.Exec.{ok, panic, lock_conflict, ◌>>◌}
use nosy.Memory.{Place, Shared}
use nosy.SimpleListeners.{null_listener}
use nosy.Notifier.Raw
use nosy.Notifier.Raw.{RawNotifier, count_approximate}
use nosy.Notifier.Locked.{opened, debug_fmt, counted}
use nosy.Cell.Allocation.{CellSource, value_mutex, notifier, debug_cell, debug_source, debug_local}
use nosy.Cell.Debugging.{debug_borrowed}
use nosy.Listener.{Listener}
use nosy.LoadStore.{LoadStore, IsLoadStore, cell, cell-IsLoadStore}
use nosy.Cell
use nosy.Cell.Updates.{Heard, told, holding, set_lem, set_if_unequal_lem, update_mut_lem, drop_lem}
use nosy.Cell.Sources.{as_source, set-get}
use nosy.Cell.Local.{Agrees, set_local-Agrees}
use nosy.Source.Map.{mapped}
use nosy.Notifier.Shared.{closed_idle}
use nosy.Tests.World.{
  World, Which, to_log, notifier_place, value_place, local_place, value_notifier-Apart,
  local_notifier-Apart, local_value-Apart, listeners, Free, two, start, two-AllLawful, two-AllApart,
  two-AllOutside, two-AllOutside_value, two-AllOutside_local,
}

abbrev same : ℕ → ℕ → Bool
same a b = a == b

-- The cell of a world whose messages are of the unit type, with the log and the flag as its
-- listeners.
abbrev cell_world : World (Unit {0})
cell_world = start

abbrev lis : Listener (World (Unit {0})) Which (Unit {0})
lis = listeners

abbrev number : LoadStore (World (Unit {0})) ℕ
number = cell same value_place

number-IsLoadStore : IsLoadStore same number value_place (λ v. v)
number-IsLoadStore = cell-IsLoadStore same value_place

abbrev holds : ℕ → World (Unit {0})
holds v =
    holding lis Free value_place notifier_place (λ u. u) same number number-IsLoadStore
      value_notifier-Apart (λ s w i. i) two v cell_world

heard :
    Heard lis Free value_place notifier_place
      (λ u. u)
      same
      number
      number-IsLoadStore
      value_notifier-Apart
      (λ s w i. i)
      two
heard = record { lawful = two-AllLawful; apart = two-AllApart; outside = two-AllOutside }

abbrev told_of : ℕ → World (Unit {0})
told_of v =
    told lis Free value_place notifier_place (λ u. u) same number number-IsLoadStore
      value_notifier-Apart (λ s w i. i) two v cell_world

set_lem_example : Cell.set lis number notifier_place 7 (holds 3) ≡ (ok tt, told_of 7)
set_lem_example =
    set_lem lis Free value_place notifier_place (λ u. u) same number number-IsLoadStore
      value_notifier-Apart (λ s w i. i) two 3 7 cell_world heard refl

set_if_unequal_lem_example :
    (Cell.set_if_unequal lis number notifier_place 7 (holds 3)) ≡ (ok tt, told_of 7)
set_if_unequal_lem_example =
    set_if_unequal_lem lis Free value_place notifier_place (λ u. u) same number number-IsLoadStore
      value_notifier-Apart (λ s w i. i) two 3 7 cell_world heard refl

update_mut_lem_example :
    Cell.update_mut lis number notifier_place suc (holds 3) ≡ (ok tt, told_of 4)
update_mut_lem_example =
    update_mut_lem lis Free value_place notifier_place (λ u. u) same number number-IsLoadStore
      value_notifier-Apart (λ s w i. i) suc two 3 cell_world heard refl

drop_lem_example :
    (Cell.drop notifier_place
        >> Cell.listen_raw lis number notifier_place suc to_log
        >> Cell.get lis number notifier_place)
      (holds 3)
    ≡ (ok 3, notifier_place.put (closed_idle lis notifier_place) (value_place.put 3 cell_world))
drop_lem_example =
    drop_lem lis Free value_place notifier_place (λ u. u) same number number-IsLoadStore
      value_notifier-Apart (λ s w i. i) suc to_log two 3 cell_world

-- A source that is read through a function, after the cell has been set.
set-get_example :
    (Cell.set lis number notifier_place 7
        >> (mapped (as_source lis number notifier_place suc) (λ n. n * 100)).get)
      (holds 3)
    ≡ (ok 700, told_of 7)
set-get_example =
    set-get lis Free value_place notifier_place (λ u. u) same number number-IsLoadStore suc
      value_notifier-Apart (λ s w i. i) (λ n. n * 100) two 3 7 cell_world heard two-AllOutside_value
      refl

set_local-Agrees_example :
    (let done = Cell.set_local lis number notifier_place local_place 7 (holds 3) in
      (done.0 ≡ ok tt)
      × Agrees lis Free value_place notifier_place local_place
          (λ u. u)
          same
          number
          number-IsLoadStore
          value_notifier-Apart
          local_notifier-Apart
          local_value-Apart
          (λ s w i. i)
          7
          done.1)
set_local-Agrees_example =
    set_local-Agrees lis Free value_place notifier_place local_place (λ u. u) same number
      number-IsLoadStore value_notifier-Apart local_notifier-Apart local_value-Apart (λ s w i. i)
      two 3 7 cell_world heard two-AllOutside_value two-AllOutside_local refl

-- A cell's allocation and a local copy, while a message is being delivered.
record Busy : Type 0 where
  allocation : Shared (CellSource ℕ (Unit {0}))
  copy : ℕ

abbrev allocation_place : Place Busy (Shared (CellSource ℕ (Unit {0})))
allocation_place = record {
  get = λ w. w.allocation;
  put = λ s w. record w { allocation = s };
  get-put = λ s w. refl;
  put-get = λ w. refl;
  put-put = λ s t w. refl;
}

abbrev copy_place : Place Busy ℕ
copy_place = record {
  get = λ w. w.copy;
  put = λ s w. record w { copy = s };
  get-put = λ s w. refl;
  put-get = λ w. refl;
  put-put = λ s t w. refl;
}

abbrev no_entries : RawNotifier (Unit {0})
no_entries = Raw.new

abbrev busy : Busy
busy = record {
  allocation = record {
    strong = 1;
    value = record {
      value_mutex = 7;
      notifier = record { readers = 1; writing = false; value = opened Raw.new };
    };
  };
  copy = 7;
}

abbrev busy_number : LoadStore Busy ℕ
busy_number = cell same (value_mutex allocation_place)

busy_notifier :
    (notifier allocation_place).get busy
    ≡ record { readers = 1; writing = false; value = opened Raw.new }
unfolding notifier
busy_notifier = refl

busy_get : busy_number.get busy ≡ (ok 7, busy)
unfolding value_mutex cell
busy_get = refl

debug_borrowed_example :
    (debug_cell null_listener busy_number allocation_place busy ≡ (panic lock_conflict, busy))
    × (debug_source null_listener busy_number allocation_place busy ≡ (panic lock_conflict, busy))
    × (debug_local null_listener busy_number allocation_place copy_place busy
        ≡ (panic lock_conflict, busy))
    × ((debug_fmt (notifier allocation_place) busy).0 ≡ ok (counted (count_approximate no_entries)))
debug_borrowed_example =
    debug_borrowed null_listener busy_number allocation_place 0 no_entries 7 copy_place busy
      busy_notifier busy_get
