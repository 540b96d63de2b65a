-- ===== src/Notifier/Threads/Alone.antt =====
-- A thread that is the only one to call a notifier: its turns are what the methods do one after the
-- other.
use nosy.Prelude.{
  ℕ, suc, ◌≡◌, refl, ap, ◌∙◌, Bool, true, false, ◌&&◌, some, List, [], ◌∷◌, ◌++◌, append_assoc,
  length, length-append, arith, inl, inr,
}
use nosy.Exec.{Panic, ok, panic, Result-cases}
use nosy.Listener.{Listener}
use nosy.MaybeSync.{RwLock}
use nosy.Notifier.Raw.{NotifierEntry, get_elem?, deliver}
use nosy.Notifier.Delivery.{deliver-ok, deliver-panic}
use nosy.Notifier.SwapRemove.{get_elem?-middle, get_elem?-end}
use nosy.Notifier.Locked.{State, opened}
use nosy.Notifier.Calls.{Call}
use nosy.Notifier.Concurrent.{Phase, calling, marking, after_call, fetch_and}
use nosy.Notifier.Threads.{
  Round, outside, delivering, Client, Shared, hear, turn, run, step_delivery, leave,
}
use nosy.Notifier.Threads.Turns.{called_at}
use nosy.Notifier.Threads.Lifted.{at}

module _ {L : Type 0} where
  fetch_and-middle :
      (pre : List (NotifierEntry L)) (e : NotifierEntry L) (es : List (NotifierEntry L))
      (alive : Bool)
      → fetch_and (length pre) alive (pre ++ e ∷ es)
        ≡ (pre ++ record e { was_alive = e.was_alive && alive } ∷ []) ++ es
  unfolding fetch_and
  fetch_and-middle [] e es alive = refl
  fetch_and-middle (x ∷ pre) e es alive = ap (λ xs. x ∷ xs) (fetch_and-middle pre e es alive)

module _ {W L M : Type 0} (lis : Listener W L M) (grow : ℕ → ℕ) where
  -- The thread in a delivery, and the notifier that it holds for reading.
  module _ (capacity : ℕ) (calls : List (Call L M)) (history : List (Round L M)) (ms : List M) where
    abbrev pub within : Round L M → ℕ → Phase → Client L M
    within r i x = record {
      calls = calls;
      stage = delivering r (record { index = i; phase = x; messages = ms });
      history = history;
    }

    abbrev pub held : ℕ → List (NotifierEntry L) → RwLock (State L)
    held readers es = record {
      readers = readers;
      writing = false;
      value = opened (record { listeners = es; capacity = capacity });
    }

    call_turn :
        (e : NotifierEntry L) (r : Round L M) (i : ℕ) (es : List (NotifierEntry L)) (w : W)
        → get_elem? es i ≡ some e
        → (let done = lis.receive e.listener ms w in
            turn lis grow (within r i calling) (at lis (held 1 es) w)
            ≡ (within (hear r e) i (after_call done.0), at lis (held 1 es) done.1))
    unfolding turn step_delivery
    call_turn e r i es w q = rw q (
        rw
          (called_at lis grow e (record { index = i; phase = calling; messages = ms })
            (record { entries = es; world = w }) refl q)
          refl)

    -- What is left of a delivery, as the loop of `notify_many` does it.
    abbrev pub Through : Client L M → Shared W L → Shared W L → Type 0
    Through c s s' =
        (schedule : List ℕ) × (h : List (Round L M)) × (run lis grow schedule (c ∷ []) s
          ≡ (record { calls = calls; stage = outside; history = h } ∷ [], s'))

    past_end :
        (pre : List (NotifierEntry L)) (r : Round L M) (w : W)
        → Through
            (within r (length pre) calling)
            (at lis (held 1 (pre ++ [])) w)
            (at lis (held 0 (pre ++ [])) w)
    unfolding run turn leave
    past_end pre r w = (0 ∷ [], r ∷ history, rw (get_elem?-end pre) refl)

    panicked_at :
        (pre : List (NotifierEntry L)) (e : NotifierEntry L) (es : List (NotifierEntry L))
        (r : Round L M) (w : W) (p : Panic)
        → (lis.receive e.listener ms w).0 ≡ panic p
        → Through
            (within r (length pre) calling)
            (at lis (held 1 (pre ++ e ∷ es)) w)
            (at lis (held 0 (pre ++ e ∷ es)) (lis.receive e.listener ms w).1)
    unfolding run leave
    panicked_at pre e es r w p q = (
      0 ∷ 0 ∷ [],
      record (hear r e) { panicked = true } ∷ history,
      rw (call_turn e r (length pre) (pre ++ e ∷ es) w (get_elem?-middle pre e es))
          (rw q (unfold turn in refl)),
    )

    mark_turn :
        (alive : Bool) (r : Round L M) (i : ℕ) (es : List (NotifierEntry L)) (w : W)
        → turn lis grow (within r i (marking alive)) (at lis (held 1 es) w)
          ≡ (within r (suc i) calling, at lis (held 1 (fetch_and i alive es)) w)
    unfolding turn step_delivery
    mark_turn alive r i es w = refl

    one_turn :
        (schedule : List ℕ) (c : Client L M) (s : Shared W L) (next : Client L M × Shared W L)
        → turn lis grow c s ≡ next
        → run lis grow (0 ∷ schedule) (c ∷ []) s ≡ run lis grow schedule (next.0 ∷ []) next.1
    unfolding run
    one_turn schedule c s next e = ap (λ n. run lis grow schedule (n.0 ∷ []) n.1) e

    -- The call of a listener and the mark of its entry.
    one_entry :
        (schedule : List ℕ) (pre : List (NotifierEntry L)) (e : NotifierEntry L)
        (es : List (NotifierEntry L)) (r : Round L M) (w : W) (alive : Bool)
        → (lis.receive e.listener ms w).0 ≡ ok alive
        → (let v = (lis.receive e.listener ms w).1 in
            let pre' = pre ++ record e { was_alive = e.was_alive && alive } ∷ [] in
            run lis grow
              (0 ∷ 0 ∷ schedule)
              (within r (length pre) calling ∷ [])
              (at lis (held 1 (pre ++ e ∷ es)) w)
            ≡ run lis grow schedule
                (within (hear r e) (length pre') calling ∷ [])
                (at lis (held 1 (pre' ++ es)) v))
    one_entry schedule pre e es r w alive q =
        let v = (lis.receive e.listener ms w).1 in
        let i = length pre in
        let pre' = pre ++ record e { was_alive = e.was_alive && alive } ∷ [] in
        one_turn (0 ∷ schedule) (within r i calling) (at lis (held 1 (pre ++ e ∷ es)) w)
          (within (hear r e) i (marking alive), at lis (held 1 (pre ++ e ∷ es)) v)
          (call_turn e r i (pre ++ e ∷ es) w (get_elem?-middle pre e es)
            ∙ ap (λ x. (within (hear r e) i (after_call x), at lis (held 1 (pre ++ e ∷ es)) v)) q)
        ∙ one_turn schedule (within (hear r e) i (marking alive))
            (at lis (held 1 (pre ++ e ∷ es)) v) _ (mark_turn alive (hear r e) i (pre ++ e ∷ es) v)
        ∙ ap
            (λ xs.
              run lis grow schedule (within (hear r e) (suc i) calling ∷ []) (at lis (held 1 xs) v))
            (fetch_and-middle pre e es alive)
        ∙ ap
            (λ n.
              run lis grow schedule (within (hear r e) n calling ∷ [])
                (at lis (held 1 (pre' ++ es)) v))
            (omega (arith, length-append pre (record e { was_alive = e.was_alive && alive } ∷ [])))

    pub delivered_alone :
        (pre es : List (NotifierEntry L)) (r : Round L M) (w : W)
        → (let res = deliver lis es ms w in
            Through
              (within r (length pre) calling)
              (at lis (held 1 (pre ++ es)) w)
              (at lis (held 0 (pre ++ res.1.0)) res.1.1))
    delivered_alone pre [] r w = unfold deliver in past_end pre r w
    delivered_alone pre (e ∷ es) r w = elim (Result-cases (lis.receive e.listener ms w).0) [
      | inr (p, q) ↦
          let v = (lis.receive e.listener ms w).1 in
          rw (deliver-panic lis e es ms p v w (ap (λ x. (x, v)) q)) (panicked_at pre e es r w p q)
      | inl (alive, q) ↦
          let v = (lis.receive e.listener ms w).1 in
          let e' : NotifierEntry L = record e { was_alive = e.was_alive && alive } in
          let res = deliver lis es ms v in
          let (schedule, h, t) = delivered_alone (pre ++ e' ∷ []) es (hear r e) v in
          rw (deliver-ok lis e es ms alive v w (ap (λ x. (x, v)) q)) (
            0 ∷ 0 ∷ schedule,
            h,
            one_entry schedule pre e es r w alive q
                ∙ t
                ∙ ap
                    (λ xs. (
                      record { calls = calls; stage = outside; history = h } ∷ [],
                      at lis (held 0 xs) res.1.1,
                    ))
                    (append_assoc pre (e' ∷ []) res.1.0),
          )
    ]
