-- ===== src/Notifier/Threads/Rounds.antt =====
-- Each delivery through a notifier that several threads call reaches the listeners that there were
-- when it began, whatever the other threads do to the notifier.
use nosy.Prelude.{ℕ, ◌≡◌, refl, Option, none, some, List, [], ◌∷◌, All, arith, ◌⊎◌, inl, inr}
use nosy.Listener.{Listener}
use nosy.Notifier.Raw.{get_elem?}
use nosy.Notifier.Locked.{State}
use nosy.Notifier.Threads.{
  Stage, outside, delivering, writing, Client, Shared, listeners_of, entries_of, turn, turn_of, run,
}
use nosy.Notifier.Threads.Exclusion.{
  sum, sum-ge, reading, written, Excluded, Resting, reads, Resting-Excluded, turn-Excluded,
}
use nosy.Notifier.Threads.Ongoing.{Whole, Good, Fine, Good-same, All-set}
use nosy.Notifier.Threads.Turns.{After, acted}
use nosy.Notifier.Concurrent.Calm.{All-get_elem?}

module _ {W L M : Type 0} (lis : Listener W L M) (grow : ℕ → ℕ) where
  -- A thread that is not in a delivery does not mind any change of the notifier.
  Fine-absent : (x : Stage L M) (st st' : State L) → reads x ≡ 0 → Good x st → Good x st'
  Fine-absent outside st st' e g = tt
  Fine-absent (writing call) st st' e g = tt
  Fine-absent (delivering r d) st st' e g = absurd (omega arith)

  Fine-others :
      (cs : List (Client L M)) (st st' : State L)
      → (listeners_of (entries_of st') ≡ listeners_of (entries_of st)) ⊎ (sum reading cs ≡ 0)
      → All (Fine st) cs
      → All (Fine st') cs
  Fine-others [] st st' h f = tt
  Fine-others (c ∷ cs) st st' (inl e) f =
      ((Good-same c.stage st st' e f.0.0, f.0.1), Fine-others cs st st' (inl e) f.1)
  Fine-others (c ∷ cs) st st' (inr z) f = (
    (Fine-absent c.stage st st' (omega arith) f.0.0, f.0.1),
    Fine-others cs st st' (inr (omega arith)) f.1,
  )

  -- What holds of the threads and the notifier between the turns.
  pub record Sound (cs : List (Client L M)) (s : Shared W L) : Type 0 where
    pub excluded : Excluded cs s
    pub fine : All (Fine s.lock.value) cs

  pub turn-After :
      (i : ℕ) (c : Client L M) (cs : List (Client L M)) (s : Shared W L)
      → get_elem? cs i ≡ some c
      → Sound cs s
      → After s (turn lis grow c s)
  unfolding turn
  turn-After i c cs s e h =
      let x = h.excluded in
      let w = sum-ge written cs i c e in
      acted lis grow c.stage c.calls c s refl (λ one. ground (arith, x.writers, x.alone))
        (All-get_elem? (Fine s.lock.value) cs i c h.fine e)

  pub turn-Sound :
      (v : Option (Client L M)) (i : ℕ) (cs : List (Client L M)) (s : Shared W L)
      → get_elem? cs i ≡ v
      → Sound cs s
      → (let next = turn_of lis grow v i cs s in Sound next.0 next.1)
  turn-Sound none i cs s e h = h
  turn-Sound (some c) i cs s e h =
      let next = turn lis grow c s in
      let a = turn-After i c cs s e h in
      record {
        excluded = turn-Excluded lis grow (some c) i cs s e h.excluded;
        fine = All-set (Fine next.1.lock.value) cs i next.0 a.mine (
            Fine-others cs s.lock.value next.1.lock.value
              (elim a.kept [ inl k ↦ inl k | inr z ↦ inr (omega (arith, h.excluded.readers)) ])
              h.fine);
      }

  run-Sound :
      (schedule : List ℕ) (cs : List (Client L M)) (s : Shared W L)
      → Sound cs s
      → (let end = run lis grow schedule cs s in Sound end.0 end.1)
  unfolding run
  run-Sound [] cs s h = h
  run-Sound (i ∷ schedule) cs s h =
      let next = turn_of lis grow (get_elem? cs i) i cs s in
      run-Sound schedule next.0 next.1 (turn-Sound (get_elem? cs i) i cs s refl h)

  idle-Fine :
      (cs : List (Client L M)) (state : State L)
      → All (λ c. (c.stage ≡ outside) × (c.history ≡ [])) cs
      → All (Fine state) cs
  idle-Fine [] state h = tt
  idle-Fine (c ∷ cs) state h = ((rw h.0.0 tt, rw h.0.1 tt), idle-Fine cs state h.1)

  pub Resting-Sound : (cs : List (Client L M)) (s : Shared W L) → Resting cs s → Sound cs s
  Resting-Sound cs s r = record {
    excluded = Resting-Excluded cs s r;
    fine = idle-Fine cs s.lock.value r.idle;
  }

  All-Whole :
      (cs : List (Client L M)) (state : State L)
      → All (Fine state) cs
      → All (λ c. All Whole c.history) cs
  All-Whole [] state f = tt
  All-Whole (c ∷ cs) state f = (f.0.1, All-Whole cs state f.1)

  -- However the operations of the threads that call one notifier follow each other, each delivery
  -- that is over has noted the listeners that the notifier had when the delivery took the lock, each
  -- once and in their order; or one of them panicked, and those up to that one are noted.
  pub run-Whole :
      (schedule : List ℕ) (cs : List (Client L M)) (s : Shared W L)
      → Resting cs s
      → All (λ c. All Whole c.history) (run lis grow schedule cs s).0
  run-Whole schedule cs s r =
      let end = run lis grow schedule cs s in
      All-Whole end.0 end.1.lock.value (run-Sound schedule cs s (Resting-Sound cs s r)).fine
