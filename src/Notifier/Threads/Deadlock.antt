-- ===== src/Notifier/Threads/Deadlock.antt =====
-- Threads that call one notifier cannot all wait for its lock.
use mathlib.Core.Path.{subst}
use mathlib.Core.Option.{some-injective}
use nosy.Prelude.{
  ℕ, suc, ◌≤◌, ◌≡◌, ◌≢◌, refl, sym, ap, ap₂, ◌∙◌, false, some, List, [], ◌∷◌, All, set, arith,
}
use nosy.Listener.{Listener}
use nosy.Notifier.Raw.{get_elem?}
use nosy.Notifier.Calls.{Call, listening, notifying, counting, closing}
use nosy.Notifier.Concurrent.Calm.{All-get_elem?}
use nosy.Notifier.Threads.{
  Stage, outside, delivering, writing, Client, Shared, enter, act, turn, turn_of,
}
use nosy.Notifier.Threads.Exclusion.{sum, reading, written, reads, writes}
use nosy.Notifier.Threads.Ongoing.{Good, Fine}
use nosy.Notifier.Threads.Work.{work, inside_moves}
use nosy.Notifier.Threads.Additions.{entries_in}
use nosy.Notifier.Threads.Progress.{get-set, Bounded}

module _ {L M : Type 0} where
  -- A thread that has made all its calls.
  abbrev pub Finished : Client L M → Type 0
  Finished c = (c.stage ≡ outside) × (c.calls ≡ [])

module _ {A : Type 0} where
  All-intro :
      (P : A → Type 0) (xs : List A) → ((i : ℕ) (x : A) → get_elem? xs i ≡ some x → P x) → All P xs
  All-intro P [] h = tt
  All-intro P (x ∷ xs) h = (h 0 x refl, All-intro P xs (λ i y e. h (suc i) y e))

  sum-All : (f : A → ℕ) (xs : List A) → All (λ x. f x ≡ 0) xs → sum f xs ≡ 0
  sum-All f [] h = refl
  sum-All f (x ∷ xs) h = omega (arith, h.0, sum-All f xs h.1)

module _ {W L M : Type 0} (lis : Listener W L M) (grow : ℕ → ℕ) (n : ℕ) where
  pub still_turn :
      (i : ℕ) (c : Client L M) (cs : List (Client L M)) (s : Shared W L)
      → get_elem? cs i ≡ some c
      → turn_of lis grow (get_elem? cs i) i cs s ≡ (cs, s)
      → turn lis grow c s ≡ (c, s)
  still_turn i c cs s e q =
      let next = turn lis grow c s in
      let q' : (set cs i next.0, next.1) ≡ (cs, s) = rw e at q in
      let a = ap (λ x. get_elem? x.0 i) q' in
      let b : some next.0 ≡ some c = sym (get-set cs i c next.0 e) ∙ a ∙ e in
      ap₂ (λ x y. (x, y)) (some-injective _ _ b) (ap (λ x. x.1) q')

  -- A thread whose turn changes nothing is not inside a method.
  still_outside :
      (x : Stage L M) (c : Client L M) (s : Shared W L)
      → c.stage ≡ x
      → Good x s.lock.value
      → entries_in s ≤ n
      → act lis grow x c.calls c s ≡ (c, s)
      → c.stage ≡ outside
  still_outside outside c s e g h q = e
  still_outside (writing call) c s e g h q =
      let m = inside_moves lis grow n (writing call) c s e refl g h in
      absurd (omega (arith, m, ap (λ v. work n v.0) q))
  still_outside (delivering r d) c s e g h q =
      let m = inside_moves lis grow n (delivering r d) c s e refl g h in
      absurd (omega (arith, m, ap (λ v. work n v.0) q))

  entered_free :
      (call : Call L M) (calls : List (Call L M)) (c : Client L M) (s : Shared W L)
      → s.lock.writing ≡ false
      → s.lock.readers ≡ 0
      → (enter lis grow call calls c s).0.stage ≢ outside
  unfolding enter
  entered_free (notifying ms) calls c s w r = rw w (λ e. cc)
  entered_free closing calls c s w r = rw (w, r) (λ e. cc)
  entered_free counting calls c s w r = rw (w, r) (λ e. cc)
  entered_free (listening l) calls c s w r = rw (w, r) (λ e. cc)

  -- If the lock is free, a thread whose turn changes nothing has no calls to make.
  still_finished :
      (calls : List (Call L M)) (c : Client L M) (s : Shared W L)
      → c.calls ≡ calls
      → c.stage ≡ outside
      → s.lock.writing ≡ false
      → s.lock.readers ≡ 0
      → act lis grow outside calls c s ≡ (c, s)
      → c.calls ≡ []
  still_finished [] c s e o w r q = e
  still_finished (call ∷ calls) c s e o w r q =
      absurd (entered_free call calls c s w r (ap (λ x. x.0.stage) q ∙ o))

  -- There is no deadlock: if no thread's turn changes anything, all have made their calls.
  pub no_deadlock :
      (cs : List (Client L M)) (s : Shared W L)
      → Bounded lis grow n cs s
      → ((i : ℕ) (c : Client L M) → get_elem? cs i ≡ some c → turn lis grow c s ≡ (c, s))
      → All Finished cs
  unfolding turn
  no_deadlock cs s h still =
      let x = h.sound.excluded in
      let out = λ (i : ℕ) (c : Client L M) (e : get_elem? cs i ≡ some c).
        still_outside c.stage c s refl (All-get_elem? (Fine s.lock.value) cs i c h.sound.fine e).0
          (omega (arith, h.few)) (still i c e) in
      let r : sum reading cs ≡ 0 =
        sum-All reading cs (All-intro (λ c. reading c ≡ 0) cs (λ i c e. ap reads (out i c e))) in
      let w : sum written cs ≡ 0 =
        sum-All written cs (All-intro (λ c. written c ≡ 0) cs (λ i c e. ap writes (out i c e))) in
      let free : s.lock.writing ≡ false = ground (arith, x.writers, w) in
      All-intro Finished cs (λ i c e. (
        out i c e,
        still_finished c.calls c s refl (out i c e) free (omega (arith, x.readers, r))
            (subst (λ x. act lis grow x c.calls c s ≡ (c, s)) (out i c e) (still i c e)),
      ))
