-- ===== src/Tests/Buffers.antt =====
-- `Filter`, `RawBuffer` and `Buffer` over a list that stands for an `ArrayVec` of two items.
use nosy.Prelude.{
  ℕ, suc, ◌≡◌, refl, Option, none, some, List, [], ◌∷◌, ◌++◌, length, arith, ◌==◌, leb,
  if◌then◌else◌,
}
use nosy.Exec.{Result, ok, panic, buffer_full, closed, ◌>>◌}
use nosy.Listener.{Listener, IsLawful}
use nosy.ArrayVec.{ArrayVec}
use nosy.Filter.{Filter, filter_map, receive}
use nosy.Filter.Batches.{receive_lem, filtered-IsLawful, filtered}
use nosy.Notifier.Shared.{closed_idle}
use nosy.Buffer.Closed.{closed_buffer_lem}
use nosy.Buffer.{push, push_all, drop}
use nosy.Buffer.Batches.{send_each}
use nosy.Buffer.Notifiers.{buffer_lem}
use nosy.Notifier.Locked
use nosy.Tests.World.{
  World, Which, to_log, notifier_place, listeners, receive_at, Free, lawful, two, start,
  two-AllLawful, two-AllApart, two-AllOutside,
}

abbrev lis : Listener (World ℕ) Which ℕ
lis = listeners

abbrev here : World ℕ
here = start

abbrev push_list : List ℕ → ℕ → Result (List ℕ)
push_list b m = if length b == 2 then panic buffer_full else ok (b ++ m ∷ [])

-- A list of at most two items keeps the documented laws.
abbrev pair : ArrayVec (List ℕ) ℕ 2
pair = record {
  new = [];
  push = push_list;
  is_full = λ b. length b == 2;
  is_empty = λ b. length b == 0;
  clear = λ b. [];
  as_slice = λ b. b;
  as_slice-new = refl;
  as_slice-clear = λ b. refl;
  is_full_lem = λ b. refl;
  is_empty_lem = λ b. refl;
  push_full = λ b m e. rw e;
  push_room = λ b m e. (b ++ m ∷ [], rw e, refl);
}

-- Passes on the successor of every number below three.
abbrev small : ℕ → Option ℕ
small n = if leb n 2 then some (suc n) else none

abbrev filter : Filter ℕ ℕ Which
filter = record { function = small; target = to_log }

receive_lem_example :
    receive lis pair 8 filter (0 ∷ 1 ∷ 7 ∷ 2 ∷ []) here
    ≡ lis.receive to_log (filter_map small (0 ∷ 1 ∷ 7 ∷ 2 ∷ [])) here
receive_lem_example =
    receive_lem lis pair Free to_log (lawful to_log) (omega arith) small 8 (0 ∷ 1 ∷ 7 ∷ 2 ∷ []) here
      refl

-- What the log holds afterwards.
filter_test :
    (receive lis pair 8 filter (0 ∷ 1 ∷ 7 ∷ 2 ∷ []) here).1.log.value.value ≡ 1 ∷ 2 ∷ 3 ∷ []
unfolding receive receive_at
filter_test = refl

filtered-IsLawful_example :
    IsLawful (filtered lis pair Free to_log (lawful to_log) (omega arith) small 8) Free tt
filtered-IsLawful_example =
    filtered-IsLawful lis pair Free to_log (lawful to_log) (omega arith) small 8

buffer_lem_example :
    (b : List ℕ) × ((push_all pair (Locked.notify_many lis notifier_place) (5 ∷ 6 ∷ 7 ∷ [])
          >> drop pair (Locked.notify_many lis notifier_place))
        ([], here)
      ≡ (ok tt, (b, send_each (Locked.notify_many lis notifier_place) (5 ∷ 6 ∷ 7 ∷ []) here)))
    × (b ≡ [])
buffer_lem_example =
    buffer_lem lis Free notifier_place (λ s w i. i) pair (5 ∷ 6 ∷ 7 ∷ []) here (omega arith)
      (two, refl, refl, two-AllLawful, two-AllApart, two-AllOutside)

abbrev after_close : World ℕ
after_close = notifier_place.put (closed_idle lis notifier_place) here

closed_buffer_lem_example :
    (b : List ℕ) × ((push_all pair (Locked.notify_many lis notifier_place) (5 ∷ [])
          >> push pair (Locked.notify_many lis notifier_place) 6)
        ([], after_close)
      ≡ (panic closed, (b, after_close)))
    × (b ≡ 5 ∷ 6 ∷ [])
    × (drop pair (Locked.notify_many lis notifier_place) (b, after_close)
        ≡ (panic closed, (b, after_close)))
closed_buffer_lem_example = closed_buffer_lem lis notifier_place pair (5 ∷ []) 6 here refl
