-- ===== src/Notifier/Threads/Heard.antt =====
-- The calls of the listeners of a notifier that several threads call, as the listeners hear them.
use nosy.Prelude.{ℕ, ◌+◌, ◌≡◌, List, [], ◌∷◌, All}
use nosy.Listener.{Listener}
use nosy.Notifier.Threads.{Round, Stage, outside, delivering, writing, Client, Shared}
use nosy.Notifier.Threads.Exclusion.{sum}
use nosy.Notifier.Threads.Asked.{Counting}

module _ {W L M : Type 0} (lis : Listener W L M) (grow : ℕ → ℕ) (heard : W → ℕ)
    (weight : L → List M → ℕ) (h : Counting lis heard weight) where
  -- What the calls that a delivery has noted should have added.
  abbrev weighed : List M → List L → ℕ
  weighed ms [] = 0
  weighed ms (l ∷ ls) = weight l ms + weighed ms ls

  abbrev round_weight : Round L M → ℕ
  round_weight r = weighed r.messages r.called

  abbrev stage_weight : Stage L M → ℕ
  stage_weight outside = 0
  stage_weight (delivering r d) = round_weight r
  stage_weight (writing call) = 0

  abbrev pub noted : Client L M → ℕ
  noted c = stage_weight c.stage + sum round_weight c.history

  -- The messages that are noted are those that are delivered.
  Matched : Stage L M → Type 0
  Matched outside = Unit
  Matched (delivering r d) = r.messages ≡ d.messages
  Matched (writing call) = Unit

  -- What a turn adds to the notes, the listeners have heard.
  record Fair (c : Client L M) (s : Shared W L) (next : Client L M × Shared W L) : Type 0 where
    fair : heard next.1.world + noted c ≡ heard s.world + noted next.0
    matched : Matched next.0.stage

  abbrev AllMatched : List (Client L M) → Type 0
  AllMatched cs = All (λ c. Matched c.stage) cs

  -- What is noted by all the threads is what has been heard since the start.
  record Even (cs cs' : List (Client L M)) (s s' : Shared W L) : Type 0 where
    fair : heard s'.world + sum noted cs ≡ heard s.world + sum noted cs'
    matched : AllMatched cs'
