-- ===== src/Tests/Concurrent.antt =====
-- Deliveries on two threads, and the loop that drops dead listeners.
use nosy.Prelude.{ℕ, length, ◌≡◌, ◌&&◌, refl, true, false, List, [], ◌∷◌, arith}
use nosy.Listener.{Listener}
use nosy.Notifier.Raw.{drop_loop}
use nosy.Notifier.Rounds.{drop_loop_rounds}
use nosy.Notifier.Concurrent.{Deliveries, begin, run}
use nosy.Notifier.Concurrent.Bits.{bit}
use nosy.Notifier.Concurrent.Marks.{every_call, bit_lem}
use nosy.Tests.Threads.{counted}
use nosy.Notifier.Concurrent.Calm.{Dead}
use nosy.Notifier.Concurrent.Alive.{cleared-Dead}
use nosy.Tests.World.{
  World, Which, to_log, Free, listeners, receive_at, two, start, two-AllLawful, two-AllApart,
}

abbrev lis : Listener (World ℕ) Which ℕ
lis = listeners

-- The log's owner is gone, so that its listener is dead.
abbrev here : World ℕ
here = record start { log = record { strong = 0; value = record { locked = false; value = [] } } }

abbrev both : Deliveries (World ℕ) Which ℕ
both = record {
  threads = begin (5 ∷ []) ∷ begin (6 ∷ 7 ∷ []) ∷ [];
  common = record { entries = two.listeners; world = here };
}

-- Both threads call the log's listener before either marks its entry.
abbrev schedule : List ℕ
schedule = 0 ∷ 1 ∷ 1 ∷ 0 ∷ 1 ∷ 0 ∷ 0 ∷ 1 ∷ []

bit_test : bit 1 (run lis schedule both).common.entries ≡ true
unfolding run receive_at
bit_test = refl

bit_lem_example :
    bit 0 (run lis schedule both).common.entries ≡ true && every_call lis 0 schedule both
bit_lem_example =
    bit_lem lis schedule 0 both (omega arith) (refl, (refl, tt))
      (unfold run receive_at in (refl, (refl, tt)))

-- The same threads, with listeners whose messages are counted.
abbrev both_counted : Deliveries (World ℕ × ℕ) Which ℕ
both_counted = record {
  threads = both.threads;
  common = record { entries = two.listeners; world = (here, 0) };
}

abbrev weight : Which → List ℕ → ℕ
weight l ms = length ms

-- One message to two listeners, and two messages to two listeners.
heard_test : (run counted schedule both_counted).common.world.1 ≡ 6
unfolding run receive_at
heard_test = refl

drop_loop_rounds_example :
    drop_loop lis 9 0 two.listeners here ≡ drop_loop lis 2 0 two.listeners here
drop_loop_rounds_example = drop_loop_rounds lis 9 two.listeners here (omega arith)

-- The bit of the log's entry has been cleared.
cleared_test : bit 0 (run lis schedule both).common.entries ≡ false
unfolding run receive_at
cleared_test = refl

cleared-Dead_example : Dead lis Free to_log (run lis schedule both).common.world
cleared-Dead_example =
    cleared-Dead lis Free schedule 0 (record { listener = to_log; was_alive = true }) both refl refl
      two-AllLawful two-AllApart (refl, (refl, tt)) (unfold run receive_at in (refl, (refl, tt)))
      refl cleared_test
