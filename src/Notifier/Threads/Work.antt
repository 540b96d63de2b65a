-- ===== src/Notifier/Threads/Work.antt =====
-- How many turns a thread has still to take, when there are never more than `n` entries.
use nosy.Prelude.{
  ℕ, zero, suc, ◌+◌, ◌-◌, ◌*◌, ◌≤◌, ◌<◌, ◌≡◌, refl, sym, ap, ◌∙◌, Bool, true, false, Option, none,
  some, List, [], ◌∷◌, length, length-append, arith, ◌⊎◌, inl, inr,
}
use nosy.Exec.{Result, ok, panic}
use nosy.Listener.{Listener}
use nosy.Notifier.Raw.{NotifierEntry, get_elem?}
use nosy.Notifier.Locked.{State}
use nosy.Notifier.Calls.{Call, listening, notifying, counting, closing}
use nosy.Notifier.Concurrent.{Phase, calling, marking, stopped, Delivery, after_call}
use nosy.Notifier.Threads.{
  Round, Stage, outside, delivering, writing, Client, Shared, free_to_read, free_to_write,
  listeners_of, entries_of, hear, enter, finish_writing, leave, step_delivery, deliver_at, act,
  turn,
}
use nosy.Notifier.Threads.Ongoing.{Ongoing, Good}
use nosy.Notifier.Threads.Turns.{called_at, marked_at, either}

module _ (n : ℕ) where
  abbrev left_in : Phase → ℕ → ℕ
  left_in calling i = 2 * (n - i) + 1
  left_in (marking alive) i = 2 * (n - i)
  left_in stopped i = 1

  abbrev pub left : {L M : Type 0} → Stage L M → ℕ
  left outside = 0
  left (writing call) = 1
  left (delivering r d) = left_in d.phase d.index

  abbrev pub left_for : {L M : Type 0} → List (Call L M) → ℕ
  left_for [] = 0
  left_for (call ∷ calls) = 2 * n + 2 + left_for calls

  abbrev pub work : {L M : Type 0} → Client L M → ℕ
  work c = left c.stage + left_for c.calls

  left-after :
      (i : ℕ) (x : Result Bool) → i < n → suc (left_in (after_call x) i) ≤ left_in calling i
  left-after i (ok alive) h = omega arith
  left-after i (panic p) h = omega arith

pub get_elem?-lt :
    {A : Type 0} (xs : List A) (i : ℕ) (x : A) → get_elem? xs i ≡ some x → i < length xs
get_elem?-lt [] i x e = absurd (grind arith)
get_elem?-lt (y ∷ ys) zero x e = omega arith
get_elem?-lt (y ∷ ys) (suc i) x e = omega (arith, get_elem?-lt ys i x e)

module _ {L : Type 0} where
  pub length-listeners_of : (es : List (NotifierEntry L)) → length (listeners_of es) ≡ length es
  length-listeners_of [] = refl
  length-listeners_of (e ∷ es) = ap suc (length-listeners_of es)

  marking-lt :
      {M : Type 0} (alive : Bool) (r : Round L M) (d : Delivery M) (state : State L)
      → d.phase ≡ marking alive
      → Ongoing r d state
      → d.index < length (entries_of state)
  marking-lt alive r d state p o =
      let u = rw p at o.upto in
      let e = ap length (o.split ∙ sym o.present) in
      omega (arith, u, e, length-append r.called o.rest, length-listeners_of (entries_of state))

-- A turn changes nothing, or brings the thread on.
abbrev pub Moves :
    {W L M : Type 0} (n : ℕ) (c : Client L M) (s : Shared W L) (next : Client L M × Shared W L)
    → Type 0
Moves n c s next = (next ≡ (c, s)) ⊎ (suc (work n next.0) ≤ work n c)

module _ {W L M : Type 0} (lis : Listener W L M) (grow : ℕ → ℕ) (n : ℕ) where
  stepped :
      (e : NotifierEntry L) (r : Round L M) (d : Delivery M) (c : Client L M) (s : Shared W L)
      → d.phase ≡ calling
      → get_elem? (entries_of s.lock.value) d.index ≡ some e
      → length (entries_of s.lock.value) ≤ n
      → suc (work n (step_delivery lis grow r d c s).0)
        ≤ left n (delivering r d) + left_for n c.calls
  unfolding step_delivery
  stepped e r d c s p q h =
      let done = lis.receive e.listener d.messages s.world in
      rw
        (called_at lis grow e d (record { entries = entries_of s.lock.value; world = s.world }) p q)
        (rw p (
          omega (
            arith,
            left-after n d.index done.0
                (omega (arith, get_elem?-lt (entries_of s.lock.value) d.index e q)),
          )))

  marked :
      (alive : Bool) (r : Round L M) (d : Delivery M) (c : Client L M) (s : Shared W L)
      → d.phase ≡ marking alive
      → Ongoing r d s.lock.value
      → length (entries_of s.lock.value) ≤ n
      → suc (work n (step_delivery lis grow r d c s).0)
        ≤ left n (delivering r d) + left_for n c.calls
  unfolding step_delivery
  marked alive r d c s p o h =
      let lt = marking-lt alive r d s.lock.value p o in
      rw
        (marked_at lis grow alive d (record { entries = entries_of s.lock.value; world = s.world })
          p)
        (rw p (omega arith))

  delivered :
      (v : Option (NotifierEntry L)) (x : Phase) (r : Round L M) (d : Delivery M) (c : Client L M)
      (s : Shared W L)
      → d.phase ≡ x
      → get_elem? (entries_of s.lock.value) d.index ≡ v
      → Ongoing r d s.lock.value
      → length (entries_of s.lock.value) ≤ n
      → suc (work n (deliver_at lis grow v x r d c s).0)
        ≤ left n (delivering r d) + left_for n c.calls
  unfolding leave
  delivered v stopped r d c s p q o h = rw p (omega arith)
  delivered v (marking alive) r d c s p q o h = marked alive r d c s p o h
  delivered none calling r d c s p q o h = rw p (omega arith)
  delivered (some e) calling r d c s p q o h = stepped e (hear r e) d c s p q h

  entered :
      (call : Call L M) (calls : List (Call L M)) (c : Client L M) (s : Shared W L)
      → suc (left_for n calls + 2 * n + 1) ≤ work n c
      → Moves n c s (enter lis grow call calls c s)
  unfolding enter
  entered (notifying ms) calls c s h =
      either (Moves n c s) (free_to_read s.lock) (inr (omega arith)) (inl refl)
  entered closing calls c s h =
      either (Moves n c s) (free_to_write s.lock) (inr (omega arith)) (inl refl)
  entered counting calls c s h =
      either (Moves n c s) (free_to_write s.lock) (inr (omega arith)) (inl refl)
  entered (listening l) calls c s h =
      either (Moves n c s) (free_to_write s.lock) (inr (omega arith)) (inl refl)

  abbrev pub inside : Stage L M → Bool
  inside outside = false
  inside (writing call) = true
  inside (delivering r d) = true

  -- A thread that holds the lock never waits.
  pub inside_moves :
      (x : Stage L M) (c : Client L M) (s : Shared W L)
      → c.stage ≡ x
      → inside x ≡ true
      → Good x s.lock.value
      → length (entries_of s.lock.value) ≤ n
      → suc (work n (act lis grow x c.calls c s).0) ≤ work n c
  unfolding finish_writing
  inside_moves outside c s e i g h = absurd (grind arith)
  inside_moves (writing call) c s e i g h = let w = ap (left n) e in omega (arith, w)
  inside_moves (delivering r d) c s e i g h =
      let w = ap (left n) e in
      omega (
        arith,
        w,
        delivered (get_elem? (entries_of s.lock.value) d.index) d.phase r d c s refl refl g h,
      )

  acted :
      (x : Stage L M) (calls : List (Call L M)) (c : Client L M) (s : Shared W L)
      → c.stage ≡ x
      → c.calls ≡ calls
      → Good x s.lock.value
      → length (entries_of s.lock.value) ≤ n
      → Moves n c s (act lis grow x calls c s)
  acted outside [] c s e q g h = inl refl
  acted outside (call ∷ calls) c s e q g h =
      let w = ap (left n) e in
      let v = ap (left_for n) q in entered call calls c s (omega (arith, w, v))
  acted (writing call) calls c s e q g h = inr (inside_moves (writing call) c s e refl g h)
  acted (delivering r d) calls c s e q g h = inr (inside_moves (delivering r d) c s e refl g h)

  pub turn-Moves :
      (c : Client L M) (s : Shared W L)
      → Good c.stage s.lock.value
      → length (entries_of s.lock.value) ≤ n
      → Moves n c s (turn lis grow c s)
  unfolding turn
  turn-Moves c s g h = acted c.stage c.calls c s refl refl g h
