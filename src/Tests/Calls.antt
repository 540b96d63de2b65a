-- ===== src/Tests/Calls.antt =====
-- A notifier from its making, through calls of its methods.
use nosy.Prelude.{ℕ, suc, ◌≡◌, refl, List, [], ◌∷◌, arith}
use nosy.Exec.{ok}
use nosy.Listener.{Listener}
use nosy.Notifier.Locked
use nosy.Notifier.Calls.{Call, listening, notifying, counting, perform, perform_all}
use nosy.Notifier.Reachable.{Reached, perform_all-Reached}
use nosy.Tests.World.{World, Which, to_log, notifier_place, listeners, Free, lawful, outside, start}

abbrev lis : Listener (World ℕ) Which ℕ
lis = listeners

-- The log's listener is added twice.
abbrev calls : List (Call Which ℕ)
calls = listening to_log ∷ notifying (5 ∷ []) ∷ listening to_log ∷ counting ∷ []

abbrev reached : World ℕ
reached = perform_all lis notifier_place suc calls (notifier_place.put Locked.new start)

perform_all-Reached_example :
    Reached lis Free notifier_place (λ s w i. i) suc (λ n. omega arith) calls reached
    × ((perform lis notifier_place suc (notifying (6 ∷ 7 ∷ [])) reached).0 ≡ ok tt)
perform_all-Reached_example =
    perform_all-Reached lis Free notifier_place (λ s w i. i) suc (λ n. omega arith) calls
      (notifying (6 ∷ 7 ∷ [])) start refl
      ((lawful to_log, outside to_log), (tt, ((lawful to_log, outside to_log), (tt, tt)))) tt
