-- ===== src/Notifier/Threads/Asked.antt =====
-- Asking listeners whether they are alive, as the methods of a notifier do that hold its lock for
-- writing, is not heard by them.
use nosy.Prelude.{
  ℕ, zero, suc, ◌+◌, ◌≡◌, refl, ◌∙◌, Bool, true, false, List, [], length, arith, Option-cases,
  Bool-cases, inl, inr, leb,
}
use nosy.Exec.{Result-cases}
use nosy.Listener.{Listener}
use nosy.Notifier.Raw
use nosy.Notifier.Raw.{NotifierEntry, RawNotifier, get_elem?, swap_remove}
use nosy.Notifier.Locked.{State, opened, shut}
use nosy.Notifier.Calls.{Call, listening, notifying, counting, closing}
use nosy.Notifier.Threads.{body}

-- `heard` is a number that one can see of the world. A call of a listener adds `weight` to it, and
-- to ask a listener whether it is alive adds nothing.
pub record Counting {W L M : Type 0} (lis : Listener W L M) (heard : W → ℕ)
    (weight : L → List M → ℕ) : Type 0 where
  pub counts : (l : L) (ms : List M) (w : W) → heard (lis.receive l ms w).1 ≡ heard w + weight l ms
  pub asking : (l : L) → weight l [] ≡ 0

module _ {W L M : Type 0} (lis : Listener W L M) (grow : ℕ → ℕ) (heard : W → ℕ)
    (weight : L → List M → ℕ) (h : Counting lis heard weight) where
  asked : (l : L) (w : W) → heard (lis.receive l [] w).1 ≡ heard w
  asked l w = omega (arith, h.counts l [] w, h.asking l)

  ask-heard : (e : NotifierEntry L) (w : W) → heard (Raw.ask lis e w).1 ≡ heard w
  unfolding Raw.ask
  ask-heard e w = elim (Bool-cases e.was_alive) [
    | inl q ↦ rw (q, Raw.ask) (asked e.listener w)
    | inr q ↦ rw (q, Raw.ask) refl
  ]

  drop_loop-heard :
      (rounds i : ℕ) (es : List (NotifierEntry L)) (w : W)
      → heard (Raw.drop_loop lis rounds i es w).1.1 ≡ heard w
  unfolding Raw.drop_loop
  drop_loop-heard zero i es w = refl
  drop_loop-heard (suc rounds) i es w = elim (Option-cases (get_elem? es i)) [
    | inl e ↦ rw (e, Raw.drop_loop) refl
    | inr (x, e) ↦ elim (Result-cases (Raw.ask lis x w).0) [
      | inr (p, q) ↦ rw (e, Raw.drop_loop) (rw q (ask-heard x w))
      | inl (true, q) ↦
          rw (e, Raw.drop_loop)
            (rw q (drop_loop-heard rounds (suc i) es (Raw.ask lis x w).1 ∙ ask-heard x w))
      | inl (false, q) ↦
          rw (e, Raw.drop_loop)
            (rw q (drop_loop-heard rounds i (swap_remove es i) (Raw.ask lis x w).1 ∙ ask-heard x w))
    ]
  ]

  if_full-heard :
      (raw : RawNotifier L) (w : W) → heard (Raw.drop_dead_if_full lis (raw, w)).1.1 ≡ heard w
  unfolding Raw.drop_dead_if_full Raw.drop_dead_listeners
  if_full-heard raw w = elim (Bool-cases (leb raw.capacity (length raw.listeners))) [
    | inl e ↦ rw e (drop_loop-heard (length raw.listeners) 0 raw.listeners w)
    | inr e ↦ rw e refl
  ]

  add_entry-heard :
      (l : L) (alive : Bool) (raw : RawNotifier L) (w : W)
      → heard (Raw.add_entry lis grow l alive (raw, w)).1.1 ≡ heard w
  unfolding Raw.add_entry
  add_entry-heard l false raw w = refl
  add_entry-heard l true raw w = elim (Result-cases (Raw.drop_dead_if_full lis (raw, w)).0) [
    | inl (x, q) ↦ rw q (if_full-heard raw w)
    | inr (p, q) ↦ rw q (if_full-heard raw w)
  ]

  listen_raw-heard :
      (l : L) (raw : RawNotifier L) (w : W)
      → heard (Raw.listen_raw lis grow l (raw, w)).1.1 ≡ heard w
  unfolding Raw.listen_raw
  listen_raw-heard l raw w = elim (Result-cases (lis.receive l [] w).0) [
    | inl (alive, q) ↦ rw q (add_entry-heard l alive raw (lis.receive l [] w).1 ∙ asked l w)
    | inr (p, q) ↦ rw q (asked l w)
  ]

  pub body-heard :
      (call : Call L M) (state : State L) (w : W) → heard (body lis grow call state w).1 ≡ heard w
  unfolding body Raw.drop_dead_listeners
  body-heard closing state w = refl
  body-heard (listening l) shut w = refl
  body-heard (listening l) (opened raw) w = listen_raw-heard l raw w
  body-heard counting shut w = refl
  body-heard counting (opened raw) w = drop_loop-heard (length raw.listeners) 0 raw.listeners w
  body-heard (notifying ms) state w = refl
