-- ===== src/Tests/Threads.antt =====
-- Two threads that call one notifier: one delivers, the other one adds a listener and closes the
-- notifier meanwhile.
use nosy.Prelude.{
  ℕ, zero, suc, ◌+◌, length, ◌≤◌, ◌≡◌, refl, false, List, [], ◌∷◌, All, inl, inr, arith,
}
use nosy.Listener.{Listener}
use nosy.MaybeSync.{new_rw_lock}
use nosy.Notifier.Locked.{opened, shut}
use nosy.Notifier.Calls.{Call, listening, notifying, closing}
use nosy.Notifier.Threads.{Round, Client, Shared, outside, run}
use nosy.Notifier.Threads.Exclusion.{Resting, sum, reading, written, run_exclusive}
use nosy.Notifier.Threads.Asked.{Counting}
use nosy.Notifier.Threads.Deadlock.{Finished}
use nosy.Notifier.Threads.Finished.{Covers, concat, run-Finished}
use nosy.Notifier.Calls.{perform_all}
use nosy.Notifier.Threads.Lifted.{lifted, lock_place}
use nosy.Notifier.Threads.Sequence.{sequence}
use nosy.Tests.World.{Which, to_log, to_flag, World, receive_at, listeners, start, two}

abbrev client : List (Call Which ℕ) → Client Which ℕ
client calls = record { calls = calls; stage = outside; history = [] }

abbrev clients : List (Client Which ℕ)
clients = client (notifying (5 ∷ []) ∷ []) ∷ client (listening to_log ∷ closing ∷ []) ∷ []

abbrev shared : Shared (World ℕ) Which
shared = record { lock = new_rw_lock (opened two); world = start }

at_rest : Resting clients shared
at_rest = record { idle = ((refl, refl), ((refl, refl), tt)); free = refl; unwritten = refl }

-- The second thread asks for the lock in the middle of the delivery, and waits.
abbrev schedule : List ℕ
schedule = 0 ∷ 0 ∷ 1 ∷ 0 ∷ 1 ∷ 0 ∷ 0 ∷ 1 ∷ 0 ∷ 1 ∷ 1 ∷ 1 ∷ 1 ∷ []

-- The delivery has called the two listeners that there were, and the notifier is closed.
schedule_test :
    (let (cs, s) = run listeners suc schedule clients shared in
      (cs
        ≡ record {
          calls = [];
          stage = outside;
          history =
              record {
                messages = 5 ∷ [];
                present = to_log ∷ to_flag ∷ [];
                called = to_log ∷ to_flag ∷ [];
                panicked = false;
              }
              ∷ [];
        }
          ∷ client []
          ∷ [])
      × (s.lock ≡ new_rw_lock shut)
      × (s.world.log.value.value ≡ 5 ∷ []))
unfolding run receive_at
schedule_test = (refl, refl, refl)

run_exclusive_example :
    (let (cs, s) = run listeners suc schedule clients shared in
      (sum reading cs ≡ s.lock.readers)
      × (sum written cs ≤ 1)
      × (sum written cs ≡ 1 → sum reading cs ≡ 0))
run_exclusive_example = run_exclusive listeners suc schedule clients shared at_rest

-- A listener with a counter of the messages that any listener has received.
abbrev pub counted : Listener (World ℕ × ℕ) Which ℕ
counted = record {
  receive = λ l ms (w, n). let done = listeners.receive l ms w in (done.0, (done.1, n + length ms));
}

pub counted-Counting : Counting counted (λ w. w.1) (λ l ms. length ms)
counted-Counting = record { counts = λ l ms w. refl; asking = λ l. refl }

abbrev counted_shared : Shared (World ℕ × ℕ) Which
counted_shared = record { lock = new_rw_lock (opened two); world = (start, 0) }

-- The two listeners of the one delivery.
heard_test : (run counted suc schedule clients counted_shared).1.world.1 ≡ 2
unfolding run receive_at
heard_test = refl

covers : Covers 2 (1 ∷ 0 ∷ [])
covers zero h = inr (inl refl)
covers (suc zero) h = inl refl
covers (suc (suc i)) h = absurd (omega arith)

abbrev rounds : ℕ → List (List ℕ)
rounds zero = []
rounds (suc k) = (1 ∷ 0 ∷ []) ∷ rounds k

all-Covers : (k : ℕ) → All (Covers 2) (rounds k)
all-Covers zero = tt
all-Covers (suc k) = (covers, all-Covers k)

run-Finished_example : All Finished (run listeners suc (concat (rounds 25)) clients shared).0
run-Finished_example =
    run-Finished listeners suc (rounds 25) clients shared at_rest (all-Covers 25) (omega arith)

-- The calls of both threads by one thread alone.
abbrev alone : List (Call Which ℕ)
alone = notifying (5 ∷ []) ∷ listening to_log ∷ closing ∷ []

sequence_example :
    (schedule : List ℕ) × (later : List (Round Which ℕ)) × (run listeners suc schedule
        (client alone ∷ [])
        shared
      ≡ (
        record { calls = []; stage = outside; history = later } ∷ [],
        perform_all (lifted listeners) lock_place suc alone shared,
      ))
sequence_example = sequence listeners suc alone [] (opened two) start
