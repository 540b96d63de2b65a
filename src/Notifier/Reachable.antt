-- ===== src/Notifier/Reachable.antt =====
-- What a `Notifier` can come to, from a new one, by calls of its methods in any order.
use nosy.Prelude.{
  ℕ, ◌<◌, ◌≡◌, refl, ap, ◌∙◌, List, [], ◌∷◌, All, arith, if◌then◌else◌, Bool-cases, inl, inr,
}
use nosy.Exec.{ok, pure, ◌>>=◌}
use nosy.Listener.{Listener, IsLawful}
use nosy.Memory.{Place}
use nosy.Notifier.Raw
use nosy.Notifier.Raw.{RawNotifier, count_approximate}
use nosy.Notifier.Outside.{Outside}
use nosy.Notifier.Locked.{Notifier, new, close, notify_many, listen_raw, count}
use nosy.Notifier.Shared.{closed_lem, notify_many-closed}
use nosy.Notifier.Calls.{
  Call, listening, notifying, counting, closing, is_closing, closes, perform, perform_all,
}
use nosy.Notifier.Steps.{
  Open, Shut, step_listening, step_notifying, step_counting, counted_ok, closed_by, close_again,
  count_shut,
}

module _ {W L M : Type 0} (lis : Listener W L M) (Inv : W → Type 0) (p : Place W (Notifier L))
    (unaffected : (s : Notifier L) (w : W) → Inv w → Inv (p.put s w)) where
  open p use {put, get-put, put-put}

  abbrev pub Allowed : Call L M → Type 0
  Allowed (listening l) = IsLawful lis Inv l × Outside lis p l
  Allowed (notifying ms) = Unit
  Allowed counting = Unit
  Allowed closing = Unit

  module _ (grow : ℕ → ℕ) (larger : (n : ℕ) → n < grow n) where
    perform-Open :
        (c : Call L M) (w : W)
        → Allowed c
        → Open lis Inv p unaffected w
        → ((perform lis p grow c w).0 ≡ ok tt)
          × (if is_closing c
              then Shut lis Inv p unaffected (perform lis p grow c w).1
              else Open lis Inv p unaffected (perform lis p grow c w).1)
    unfolding perform
    perform-Open (listening l) w a o = step_listening lis Inv p unaffected grow larger l w o a.0 a.1
    perform-Open (notifying ms) w a o = step_notifying lis Inv p unaffected grow larger ms w o
    perform-Open counting w a o =
        let (n, e) = counted_ok lis Inv p unaffected grow larger w o in
        (rw e refl, rw e (step_counting lis Inv p unaffected grow larger w o))
    perform-Open closing w a o = closed_by lis Inv p unaffected grow larger w o

    perform-Shut :
        (c : Call L M) (w : W)
        → Shut lis Inv p unaffected w
        → Shut lis Inv p unaffected (perform lis p grow c w).1
    unfolding perform
    perform-Shut (listening l) w s =
        let (_, e, _) = closed_lem lis p grow l [] s.rest in
        record {
          rest = s.rest;
          at = ap (λ u. (listen_raw lis p grow l u).1) s.at ∙ ap (λ r. r.1) e;
          inv = s.inv;
        }
    perform-Shut (notifying ms) w s = record {
      rest = s.rest;
      at =
          ap (λ u. (notify_many lis p ms u).1) s.at
          ∙ ap (λ r. r.1) (notify_many-closed lis p ms s.rest);
      inv = s.inv;
    }
    perform-Shut counting w s =
        let q = count_shut lis Inv p unaffected grow larger s.rest in
        record {
          rest = s.rest;
          at = ap (λ u. ((do n ← count lis p; pure tt) u).1) s.at ∙ rw q refl;
          inv = s.inv;
        }
    perform-Shut closing w s = record {
      rest = s.rest;
      at =
          ap (λ u. (close p u).1) s.at
          ∙ ap (λ r. r.1) (close_again lis Inv p unaffected grow larger s.rest);
      inv = s.inv;
    }

    calls-Shut :
        (cs : List (Call L M)) (w : W)
        → Shut lis Inv p unaffected w
        → Shut lis Inv p unaffected (perform_all lis p grow cs w)
    unfolding perform_all
    calls-Shut [] w s = s
    calls-Shut (c ∷ cs) w s = calls-Shut cs (perform lis p grow c w).1 (perform-Shut c w s)

    -- Open until a call closes it, and closed from then on.
    abbrev pub Reached : List (Call L M) → W → Type 0
    Reached cs w = if closes cs then Shut lis Inv p unaffected w else Open lis Inv p unaffected w

    calls-Reached :
        (cs : List (Call L M)) (w : W)
        → All Allowed cs
        → Open lis Inv p unaffected w
        → Reached cs (perform_all lis p grow cs w)
    unfolding perform_all
    calls-Reached [] w a o = o
    calls-Reached (c ∷ cs) w a o = elim (Bool-cases (is_closing c)) [
      | inl e ↦ rw e (calls-Shut cs (perform lis p grow c w).1 (rw e at (perform-Open c w a.0 o).1))
      | inr e ↦
          rw e
            (calls-Reached cs (perform lis p grow c w).1 a.1 (rw e at (perform-Open c w a.0 o).1))
    ]

    new-Open : (w : W) → Inv w → Open lis Inv p unaffected (put new w)
    unfolding new Raw.new
    new-Open w i = record {
      raw = Raw.new;
      rest = w;
      at = refl;
      inv = i;
      fits = record { fits = omega arith };
      lawful = tt;
      outside = tt;
    }

    -- A new notifier, after calls of `listen_raw`, `notify_many`, `count` and `close` in any number
    -- and order: its lock is free; until a call has closed it, it is open, its vector is within its
    -- capacity, its listeners keep the requirements and do not reach back into it, and the next
    -- call does not panic; after that it stays closed. This is so if the listeners that are added
    -- keep the requirements and do not reach back, though they may share state and be added twice,
    -- and if a vector that grows gets larger.
    pub perform_all-Reached :
        (cs : List (Call L M)) (c : Call L M) (w : W)
        → Inv w
        → All Allowed cs
        → Allowed c
        → (let w' = perform_all lis p grow cs (put new w) in
            Reached cs w' × (if closes cs then Unit else (perform lis p grow c w').0 ≡ ok tt))
    perform_all-Reached cs c w i a b =
        let h = calls-Reached cs (put new w) a (new-Open w i) in
        elim (Bool-cases (closes cs)) [
          | inl e ↦ rw e (rw e at h, tt)
          | inr e ↦
              let o = rw e at h in
              rw e (o, (perform-Open c (perform_all lis p grow cs (put new w)) b o).0)
        ]
