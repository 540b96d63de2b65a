-- ===== src/Notifier/Threads/Turns.antt =====
-- What one turn of a thread does to its delivery, and to the listeners of the notifier.
use nosy.Prelude.{
  ℕ, suc, ◌≡◌, refl, sym, ap, ◌∙◌, Bool, true, false, Option, none, some, List, [], ◌∷◌, ◌++◌,
  length, length-append, arith, if◌then◌else◌, ◌⊎◌, inl, inr,
}
use nosy.Exec.{Result, ok, panic}
use nosy.Listener.{Listener}
use nosy.Notifier.Raw.{NotifierEntry, get_elem?}
use nosy.Notifier.Locked.{State}
use nosy.Notifier.Calls.{Call, listening, notifying, counting, closing}
use nosy.Notifier.Concurrent.{
  Phase, calling, marking, stopped, Delivery, fetch_and, advance, Common, after_call,
}
use nosy.Notifier.Threads.{
  free_to_read, free_to_write, Round, Stage, outside, delivering, writing, Client, Shared,
  listeners_of, entries_of, put_entries, hear, enter, finish_writing, leave, step_delivery,
  deliver_at, act,
}
use nosy.Notifier.Threads.Exclusion.{written, writes}
use nosy.Notifier.Threads.Ongoing.{
  Whole, called_all, called_next, put_entries-listeners, fetch_and-listeners, UpTo, Ongoing, Fine,
  Good-same,
}

-- A turn leaves the thread as it should be, and the listeners are the same afterwards, or nobody
-- delivers.
pub record After {W L M : Type 0} (s : Shared W L) (next : Client L M × Shared W L) : Type 0 where
  pub mine : Fine next.1.lock.value next.0
  pub kept :
      (listeners_of (entries_of next.1.lock.value) ≡ listeners_of (entries_of s.lock.value))
      ⊎ (s.lock.readers ≡ 0)

pub either {ℓ κ} :
    {A : Type ℓ} (P : A → Type κ) (b : Bool) {x y : A} → P x → P y → P (if b then x else y)
either P true p q = p
either P false p q = q

module _ {W L M : Type 0} (lis : Listener W L M) (grow : ℕ → ℕ) where
  -- A thread that waits.
  waited : (c : Client L M) (s : Shared W L) → Fine s.lock.value c → After s (c, s)
  waited c s f = record { mine = f; kept = inl refl }

  entered :
      (call : Call L M) (cs : List (Call L M)) (c : Client L M) (s : Shared W L)
      → Fine s.lock.value c
      → After s (enter lis grow call cs c s)
  unfolding enter
  entered (notifying ms) cs c s f =
      either (After s) (free_to_read s.lock)
        (record {
          mine = (
            record {
              present = refl;
              rest = listeners_of (entries_of s.lock.value);
              split = refl;
              upto = refl;
            },
            f.1,
          );
          kept = inl refl;
        })
        (waited c s f)
  entered closing cs c s f =
      either (After s) (free_to_write s.lock) (record { mine = (tt, f.1); kept = inl refl })
        (waited c s f)
  entered counting cs c s f =
      either (After s) (free_to_write s.lock) (record { mine = (tt, f.1); kept = inl refl })
        (waited c s f)
  entered (listening l) cs c s f =
      either (After s) (free_to_write s.lock) (record { mine = (tt, f.1); kept = inl refl })
        (waited c s f)

  written_by :
      (call : Call L M) (c : Client L M) (s : Shared W L)
      → s.lock.readers ≡ 0
      → Fine s.lock.value c
      → After s (finish_writing lis grow call c s)
  unfolding finish_writing
  written_by call c s r f = record { mine = (tt, f.1); kept = inr r }

  left_by :
      (r : Round L M) (c : Client L M) (s : Shared W L)
      → Whole r
      → Fine s.lock.value c
      → After s (leave lis grow r c s)
  unfolding leave
  left_by r c s w f = record { mine = (tt, (w, f.1)); kept = inl refl }

  -- The delivery has moved on.
  moved :
      (r : Round L M) (d : Delivery M) (es : List (NotifierEntry L)) (w : W) (c : Client L M)
      (s : Shared W L)
      → listeners_of es ≡ listeners_of (entries_of s.lock.value)
      → Ongoing r d s.lock.value
      → Fine s.lock.value c
      → After s (
        record c { stage = delivering r d },
        record s { lock = record s.lock { value = put_entries es s.lock.value }; world = w },
      )
  moved r d es w c s e o f =
      let same = put_entries-listeners s.lock.value es e in
      record {
        mine = (Good-same (delivering r d) s.lock.value (put_entries es s.lock.value) same o, f.1);
        kept = inl same;
      }

  pub called_at :
      (e : NotifierEntry L) (d : Delivery M) (c : Common W L)
      → d.phase ≡ calling
      → get_elem? c.entries d.index ≡ some e
      → (let done = lis.receive e.listener d.messages c.world in
          advance lis d c ≡ (record d { phase = after_call done.0 }, record c { world = done.1 }))
  unfolding advance
  called_at e d c p q = rw p (rw q)

  pub marked_at :
      (alive : Bool) (d : Delivery M) (c : Common W L)
      → d.phase ≡ marking alive
      → advance lis d c ≡ (
        record d { index = suc d.index; phase = calling },
        record c { entries = fetch_and d.index alive c.entries },
      )
  unfolding advance
  marked_at alive d c p = rw p

  UpTo-after :
      (i : ℕ) (called : List L) (x : Result Bool)
      → length called ≡ suc i
      → UpTo (after_call x) i called
  UpTo-after i called (ok alive) e = e
  UpTo-after i called (panic p) e = tt

  heard :
      (e : NotifierEntry L) (r : Round L M) (d : Delivery M) (state : State L) (x : Result Bool)
      → d.phase ≡ calling
      → get_elem? (entries_of state) d.index ≡ some e
      → Ongoing r d state
      → Ongoing (hear r e) (record d { phase = after_call x }) state
  heard e r d state x p q o =
      let n = rw p at o.upto in
      let (rest, t) =
        called_next (entries_of state) r.called o.rest e (rw n q) (o.split ∙ sym o.present) in
      record {
        present = o.present;
        rest = rest;
        split = t ∙ o.present;
        upto =
            UpTo-after d.index (r.called ++ e.listener ∷ []) x
              (omega (arith, n, length-append r.called (e.listener ∷ [])));
      }

  stepped :
      (e : NotifierEntry L) (r : Round L M) (d : Delivery M) (c : Client L M) (s : Shared W L)
      → d.phase ≡ calling
      → get_elem? (entries_of s.lock.value) d.index ≡ some e
      → Ongoing r d s.lock.value
      → Fine s.lock.value c
      → After s (step_delivery lis grow (hear r e) d c s)
  unfolding step_delivery
  stepped e r d c s p q o f =
      let done = lis.receive e.listener d.messages s.world in
      rw (called_at e d (record { entries = entries_of s.lock.value; world = s.world }) p q) (
        moved (hear r e) (record d { phase = after_call done.0 }) (entries_of s.lock.value) done.1 c
          s refl (heard e r d s.lock.value done.0 p q o) f)

  marked_by :
      (alive : Bool) (r : Round L M) (d : Delivery M) (c : Client L M) (s : Shared W L)
      → d.phase ≡ marking alive
      → Ongoing r d s.lock.value
      → Fine s.lock.value c
      → After s (step_delivery lis grow r d c s)
  unfolding step_delivery
  marked_by alive r d c s p o f =
      rw (marked_at alive d (record { entries = entries_of s.lock.value; world = s.world }) p) (
        moved r (record d { index = suc d.index; phase = calling })
          (fetch_and d.index alive (entries_of s.lock.value)) s.world c s
          (fetch_and-listeners d.index alive (entries_of s.lock.value))
          (record { present = o.present; rest = o.rest; split = o.split; upto = rw p at o.upto }) f)

  Whole-at_end :
      (r : Round L M) (d : Delivery M) (state : State L)
      → d.phase ≡ calling
      → get_elem? (entries_of state) d.index ≡ none
      → Ongoing r d state
      → Whole r
  Whole-at_end r d state p q o =
      let n = rw p at o.upto in
      inl (
        called_all (entries_of state) r.called o.rest (rw n q) (o.split ∙ sym o.present)
        ∙ o.present)

  delivered :
      (v : Option (NotifierEntry L)) (x : Phase) (r : Round L M) (d : Delivery M) (c : Client L M)
      (s : Shared W L)
      → d.phase ≡ x
      → get_elem? (entries_of s.lock.value) d.index ≡ v
      → Ongoing r d s.lock.value
      → Fine s.lock.value c
      → After s (deliver_at lis grow v x r d c s)
  delivered v stopped r d c s p q o f =
      left_by (record r { panicked = true }) c s (inr (refl, o.rest, o.split)) f
  delivered v (marking alive) r d c s p q o f = marked_by alive r d c s p o f
  delivered none calling r d c s p q o f = left_by r c s (Whole-at_end r d s.lock.value p q o) f
  delivered (some e) calling r d c s p q o f = stepped e r d c s p q o f

  pub acted :
      (x : Stage L M) (calls : List (Call L M)) (c : Client L M) (s : Shared W L)
      → c.stage ≡ x
      → (written c ≡ 1 → s.lock.readers ≡ 0)
      → Fine s.lock.value c
      → After s (act lis grow x calls c s)
  acted outside [] c s e a f = waited c s f
  acted outside (call ∷ calls) c s e a f = entered call calls c s f
  acted (writing call) calls c s e a f = written_by call c s (a (ap writes e)) f
  acted (delivering r d) calls c s e a f =
      delivered (get_elem? (entries_of s.lock.value) d.index) d.phase r d c s refl refl
        (rw e at f.0) f
