-- ===== src/Notifier/Threads/Lengths.antt =====
-- How many entries a notifier can get by one call, whatever the listeners do.
use nosy.Prelude.{
  ℕ, zero, suc, ◌+◌, ◌≤◌, Bool, true, false, List, [], ◌∷◌, arith, length, length-append, leb,
  Bool-cases, Option-cases, inl, inr,
}
use nosy.Exec.{Result-cases}
use nosy.Listener.{Listener}
use nosy.Notifier.Raw.{
  NotifierEntry, RawNotifier, get_elem?, swap_remove, ask, drop_loop, drop_dead_listeners,
  drop_dead_if_full, push_entry, add_entry, listen_raw,
}
use nosy.Notifier.Rounds.{length-swap_remove}
use nosy.Notifier.Locked.{State, opened, shut}
use nosy.Notifier.Calls.{Call, listening, notifying, counting, closing}
use nosy.Notifier.Threads.{entries_of, body}

abbrev pub is_listening : {L M : Type 0} → Call L M → ℕ
is_listening (listening l) = 1
is_listening (notifying ms) = 0
is_listening counting = 0
is_listening closing = 0

module _ {W L M : Type 0} (lis : Listener W L M) where
  drop_loop-le :
      (n i : ℕ) (es : List (NotifierEntry L)) (w : W)
      → length (drop_loop lis n i es w).1.0 ≤ length es
  unfolding drop_loop
  drop_loop-le zero i es w = omega arith
  drop_loop-le (suc n) i es w = elim (Option-cases (get_elem? es i)) [
    | inl e ↦ rw (e, drop_loop) (omega arith)
    | inr (x, e) ↦ elim (Result-cases (ask lis x w).0) [
      | inr (p, q) ↦ rw (e, drop_loop) (rw q (omega arith))
      | inl (true, q) ↦ rw (e, drop_loop) (rw q (drop_loop-le n (suc i) es (ask lis x w).1))
      | inl (false, q) ↦
          rw (e, drop_loop)
            (rw q (
              omega (
                arith,
                length-swap_remove es i x e,
                drop_loop-le n i (swap_remove es i) (ask lis x w).1,
              )))
    ]
  ]

  drop_dead_listeners-le :
      (raw : RawNotifier L) (w : W)
      → length (drop_dead_listeners lis (raw, w)).1.0.listeners ≤ length raw.listeners
  unfolding drop_dead_listeners
  drop_dead_listeners-le raw w = drop_loop-le (length raw.listeners) 0 raw.listeners w

  drop_dead_if_full-le :
      (raw : RawNotifier L) (w : W)
      → length (drop_dead_if_full lis (raw, w)).1.0.listeners ≤ length raw.listeners
  unfolding drop_dead_if_full
  drop_dead_if_full-le raw w = elim (Bool-cases (leb raw.capacity (length raw.listeners))) [
    | inl full ↦ rw full (drop_dead_listeners-le raw w)
    | inr room ↦ rw room (omega arith)
  ]

  add_entry-le :
      (grow : ℕ → ℕ) (l : L) (alive : Bool) (raw : RawNotifier L) (w : W)
      → length (add_entry lis grow l alive (raw, w)).1.0.listeners ≤ suc (length raw.listeners)
  unfolding add_entry push_entry
  add_entry-le grow l false raw w = omega arith
  add_entry-le grow l true raw w = elim (Result-cases (drop_dead_if_full lis (raw, w)).0) [
    | inr (p, q) ↦ rw q (omega (arith, drop_dead_if_full-le raw w))
    | inl (t, q) ↦
        let raw' = (drop_dead_if_full lis (raw, w)).1.0 in
        rw q (
          omega (
            arith,
            drop_dead_if_full-le raw w,
            length-append raw'.listeners (record { listener = l; was_alive = true } ∷ []),
          ))
  ]

  listen_raw-le :
      (grow : ℕ → ℕ) (l : L) (raw : RawNotifier L) (w : W)
      → length (listen_raw lis grow l (raw, w)).1.0.listeners ≤ suc (length raw.listeners)
  unfolding listen_raw
  listen_raw-le grow l raw w = elim (Result-cases (lis.receive l [] w).0) [
    | inr (p, q) ↦ rw q (omega arith)
    | inl (alive, q) ↦ rw q (add_entry-le grow l alive raw (lis.receive l [] w).1)
  ]

  -- A call that adds a listener adds one entry at most, and no other call adds any.
  pub body-le :
      (grow : ℕ → ℕ) (call : Call L M) (state : State L) (w : W)
      → length (entries_of (body lis grow call state w).0)
        ≤ length (entries_of state) + is_listening call
  unfolding body
  body-le grow closing state w = omega arith
  body-le grow (listening l) shut w = omega arith
  body-le grow (listening l) (opened raw) w = omega (arith, listen_raw-le grow l raw w)
  body-le grow counting shut w = omega arith
  body-le grow counting (opened raw) w = omega (arith, drop_dead_listeners-le raw w)
  body-le grow (notifying ms) state w = omega arith
