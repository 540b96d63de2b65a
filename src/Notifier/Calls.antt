-- ===== src/Notifier/Calls.antt =====
-- Calls of the methods of a `Notifier`, as data, and what they do one after the other.
use nosy.Prelude.{ℕ, Bool, true, false, ◌||◌, List, [], ◌∷◌}
use nosy.Exec.{Exec, pure, ◌>>=◌}
use nosy.Listener.{Listener}
use nosy.Memory.{Place}
use nosy.Notifier.Locked.{Notifier, close, notify_many, listen_raw, count}

-- A call of a method.
pub data Call (L M : Type 0) : Type 0 where
  listening : L → Call L M
  notifying : List M → Call L M
  counting : Call L M
  closing : Call L M

abbrev pub is_closing : {L M : Type 0} → Call L M → Bool
is_closing closing = true
is_closing (listening l) = false
is_closing (notifying ms) = false
is_closing counting = false

abbrev pub closes : {L M : Type 0} → List (Call L M) → Bool
closes [] = false
closes (c ∷ cs) = is_closing c || closes cs

module _ {W L M : Type 0} (lis : Listener W L M) (p : Place W (Notifier L)) (grow : ℕ → ℕ) where
  unfoldable pub perform : Call L M → Exec W (Unit {0})
  unfolding listen_raw notify_many count close
  perform (listening l) = listen_raw lis p grow l
  perform (notifying ms) = notify_many lis p ms
  perform counting = do n ← count lis p; pure tt
  perform closing = close p

  -- The calls one after the other, each also after a panic of an earlier one.
  unfoldable pub perform_all : List (Call L M) → W → W
  unfolding perform
  perform_all [] w = w
  perform_all (c ∷ cs) w = perform_all cs (perform c w).1
