-- ===== src/Notifier/Concurrent/Alive.antt =====
-- Deliveries on several threads mark no listener that is alive.
use mathlib.Core.Path.{subst}
use mathlib.Core.Option.{some-injective}
use nosy.Prelude.{
  ℕ, zero, suc, ◌≡◌, ◌≢◌, sym, ap, ◌∙◌, Bool, true, false, some, List, [], ◌∷◌, arith, Bool-cases,
  Option-cases, inl, inr,
}
use nosy.Exec.{ok}
use nosy.Listener.{Listener}
use nosy.Notifier.Raw.{NotifierEntry, get_elem?}
use nosy.Notifier.Delivery.{AllLawful, AllApart}
use nosy.Notifier.Concurrent.{
  Phase, calling, marking, stopped, Delivery, Common, Deliveries, fetch_and, advance, turn, run,
}
use nosy.Notifier.Concurrent.Bits.{about, bit}
use nosy.Notifier.Concurrent.Marks.{every_call, heard, heard_in, returned, Quiet, bit_lem}
use nosy.Notifier.Concurrent.Progress.{get_elem?-some}
use nosy.Notifier.Concurrent.Calm.{get_elem?-fetch_and, Dead, Calm, entries-Calm}

true-false : true ≢ false
true-false e = grind arith

about-false : (k i : ℕ) (alive : Bool) → about k i alive ≡ false → (i ≡ k) × (alive ≡ false)
about-false k i alive e = ground arith

module _ {W L M : Type 0} (lis : Listener W L M) (Inv : W → Type 0) where
  open lis use {receive}

  -- What holds throughout: the entry `k` is about `l`, and no listener brings `l` back to life.
  module _ (l : L) (k : ℕ) where
    record Kept (c : Common W L) : Type 0 where
      pub inv : Inv c.world
      pub calm :
          (i : ℕ) (e : NotifierEntry L) → get_elem? c.entries i ≡ some e → Calm lis Inv l e.listener
      pub about_l : (e : NotifierEntry L) → get_elem? c.entries k ≡ some e → e.listener ≡ l

    marked-Kept :
        (i : ℕ) (b : Bool) (c : Common W L)
        → Kept c
        → Kept (record c { entries = fetch_and i b c.entries })
    marked-Kept i b c h = record {
      inv = h.inv;
      calm = λ j e g.
          let (e', g', q) = get_elem?-fetch_and j i b c.entries e g in
          subst (Calm lis Inv l) q (h.calm j e' g');
      about_l = λ e g.
          let (e', g', q) = get_elem?-fetch_and k i b c.entries e g in sym q ∙ h.about_l e' g';
    }

    called-Kept :
        (i : ℕ) (ms : List M) (e : NotifierEntry L) (c : Common W L)
        → get_elem? c.entries i ≡ some e
        → Kept c
        → Kept (record c { world = (receive e.listener ms c.world).1 })
    called-Kept i ms e c g h = record {
      inv = (h.calm i e g).lawful.keeps ms c.world h.inv;
      calm = h.calm;
      about_l = h.about_l;
    }

    advance-Kept :
        (i : ℕ) (x : Phase) (ms : List M) (c : Common W L)
        → Kept c
        → Kept (advance lis (record { index = i; phase = x; messages = ms }) c).1
    unfolding advance
    advance-Kept i calling ms c h = elim (Option-cases (get_elem? c.entries i)) [
      | inl g ↦ rw (g, advance) h
      | inr (e, g) ↦ rw (g, advance) (called-Kept i ms e c g h)
    ]
    advance-Kept i (marking b) ms c h = marked-Kept i b c h
    advance-Kept i stopped ms c h = h

    advance-Dead :
        (i : ℕ) (x : Phase) (ms : List M) (c : Common W L)
        → Kept c
        → Dead lis Inv l c.world
        → Dead lis Inv l (advance lis (record { index = i; phase = x; messages = ms }) c).1.world
    unfolding advance
    advance-Dead i calling ms c h d = elim (Option-cases (get_elem? c.entries i)) [
      | inl g ↦ rw (g, advance) d
      | inr (e, g) ↦ rw (g, advance) ((h.calm i e g).keeps_dead ms c.world d)
    ]
    advance-Dead i (marking b) ms c h d = d
    advance-Dead i stopped ms c h d = d

    -- A listener that answers `false` is dead.
    refused :
        (i : ℕ) (ms : List M) (e : NotifierEntry L) (c : Common W L)
        → Kept c
        → get_elem? c.entries i ≡ some e
        → about k i (returned lis (receive e.listener ms c.world).0) ≡ false
        → Dead lis Inv l (receive e.listener ms c.world).1
    refused i ms e c h g r =
        let (alive, q) = (h.calm i e g).lawful.total ms c.world h.inv in
        let (same, refusal) = about-false k i alive (rw q at r) in
        let here = h.about_l e (subst (λ j. get_elem? c.entries j ≡ some e) same g) in
        record {
          inv = (h.calm i e g).lawful.keeps ms c.world h.inv;
          answers = λ ys.
              subst
                (λ x.
                  receive x ys (receive e.listener ms c.world).1
                  ≡ (ok false, (receive e.listener ms c.world).1))
                here ((h.calm i e g).lawful.dead ms c.world h.inv (q ∙ ap ok refusal) ys);
        }

    advance-refused :
        (i : ℕ) (x : Phase) (ms : List M) (c : Common W L)
        → (let t : Delivery M = record { index = i; phase = x; messages = ms } in
            Kept c → heard_in lis x k t c ≡ false → Dead lis Inv l (advance lis t c).1.world)
    unfolding advance
    advance-refused i calling ms c h r = elim (Option-cases (get_elem? c.entries i)) [
      | inl g ↦ absurd (true-false (rw g at r))
      | inr (e, g) ↦ rw (g, advance) (refused i ms e c h g (rw g at r))
    ]
    advance-refused i (marking b) ms c h r = absurd (true-false r)
    advance-refused i stopped ms c h r = absurd (true-false r)

    turn-Kept :
        (i : ℕ) (ts : List (Delivery M)) (c : Common W L) → Kept c → Kept (turn lis i ts c).1
    unfolding turn
    turn-Kept i [] c h = h
    turn-Kept zero (t ∷ ts) c h = advance-Kept t.index t.phase t.messages c h
    turn-Kept (suc i) (t ∷ ts) c h = turn-Kept i ts c h

    turn-Dead :
        (i : ℕ) (ts : List (Delivery M)) (c : Common W L)
        → Kept c
        → Dead lis Inv l c.world
        → Dead lis Inv l (turn lis i ts c).1.world
    unfolding turn
    turn-Dead i [] c h d = d
    turn-Dead zero (t ∷ ts) c h d = advance-Dead t.index t.phase t.messages c h d
    turn-Dead (suc i) (t ∷ ts) c h d = turn-Dead i ts c h d

    turn-refused :
        (i : ℕ) (ts : List (Delivery M)) (c : Common W L)
        → Kept c
        → heard lis k i ts c ≡ false
        → Dead lis Inv l (turn lis i ts c).1.world
    unfolding turn
    turn-refused i [] c h r = absurd (true-false r)
    turn-refused zero (t ∷ ts) c h r = advance-refused t.index t.phase t.messages c h r
    turn-refused (suc i) (t ∷ ts) c h r = turn-refused i ts c h r

    run-Dead :
        (schedule : List ℕ) (d : Deliveries W L M)
        → Kept d.common
        → Dead lis Inv l d.common.world
        → Dead lis Inv l (run lis schedule d).common.world
    unfolding run
    run-Dead [] d h z = z
    run-Dead (i ∷ schedule) d h z =
        run-Dead schedule _ (turn-Kept i d.threads d.common h) (turn-Dead i d.threads d.common h z)

    run-refused :
        (schedule : List ℕ) (d : Deliveries W L M)
        → Kept d.common
        → every_call lis k schedule d ≡ false
        → Dead lis Inv l (run lis schedule d).common.world
    unfolding run every_call
    run-refused [] d h r = absurd (true-false r)
    run-refused (i ∷ schedule) d h r =
        let h' = turn-Kept i d.threads d.common h in
        elim (Bool-cases (heard lis k i d.threads d.common)) [
          | inl e ↦ run-refused schedule _ h' (rw e at r)
          | inr e ↦ run-Dead schedule _ h' (turn-refused i d.threads d.common h e)
        ]

  bit-get_elem? :
      (k : ℕ) (es : List (NotifierEntry L)) (e : NotifierEntry L)
      → get_elem? es k ≡ some e
      → bit k es ≡ e.was_alive
  bit-get_elem? k [] e g = absurd (grind arith)
  bit-get_elem? zero (x ∷ es) e g = ap (λ y. y.was_alive) (some-injective _ _ g)
  bit-get_elem? (suc k) (x ∷ es) e g = bit-get_elem? k es e g

  start-Kept :
      (k : ℕ) (e : NotifierEntry L) (c : Common W L)
      → get_elem? c.entries k ≡ some e
      → Inv c.world
      → AllLawful lis Inv c.entries
      → AllApart lis Inv c.entries
      → Kept e.listener k c
  start-Kept k e c g i h a = record {
    inv = i;
    calm = λ j x f. entries-Calm lis Inv c.entries k j e x h a g f;
    about_l = λ x f. ap (λ y. y.listener) (some-injective _ _ (sym f ∙ g));
  }

  -- Several deliveries at once mark no listener that is alive: when the listeners keep the
  -- requirements and their own state, and no thread is between a call and its mark at the start or
  -- at the end of the schedule, a listener whose bit was set and has been cleared answers `false`
  -- from then on, and no message has an effect on it.
  pub cleared-Dead :
      (schedule : List ℕ) (k : ℕ) (e : NotifierEntry L) (d : Deliveries W L M)
      → get_elem? d.common.entries k ≡ some e
      → Inv d.common.world
      → AllLawful lis Inv d.common.entries
      → AllApart lis Inv d.common.entries
      → Quiet lis d.threads
      → Quiet lis (run lis schedule d).threads
      → e.was_alive ≡ true
      → bit k (run lis schedule d).common.entries ≡ false
      → Dead lis Inv e.listener (run lis schedule d).common.world
  cleared-Dead schedule k e d g i h a q q' alive cleared =
      let was = bit-get_elem? k d.common.entries e g ∙ alive in
      let bits = bit_lem lis schedule k d (get_elem?-some lis d.common.entries k e g) q q' in
      run-refused e.listener k schedule d (start-Kept k e d.common g i h a)
        (sym (rw was at bits) ∙ cleared)
