-- ===== src/Flatten/Reading.antt =====
-- Which source `Flatten` reads.
use nosy.Prelude.{
  List, [], ◌∷◌, ℕ, zero, suc, ◌+◌, ◌<◌, ◌≡◌, ◌≢◌, ◌%◌, ◌^◌, refl, ap, ◌∙◌, true, false, Option,
  none, some, arith, ◌==◌, ==_iff, Bool-cases, inl, inr, if◌then◌else◌,
}
use nosy.Exec.{Exec, ok, ◌>>◌, continue}
use nosy.Memory.{Place, Shared, shared, inside, with_upgraded_alive}
use nosy.Store.{is_empty}
use nosy.MaybeSync.{lock, unlock}
use nosy.Flatten.{
  State, Inner, next_generation, count_change, outer_receive, state_place, current_at, newer_at,
  store_new, drop_state, renew, get_source_and_listen_if_new,
}

not_zero : (a : ℕ) → (a == 0) ≡ false → a ≢ 0
not_zero a e = ground arith

-- The counter after some changes of the outer source.
unfoldable pub after_changes : ℕ → ℕ → ℕ
unfolding next_generation
after_changes zero n = n
after_changes (suc k) n = after_changes k (next_generation n)

after_changes-mod : (k n : ℕ) → n < 2 ^ 32 → after_changes k n ≡ (n + k) % 2 ^ 32
unfolding after_changes next_generation
after_changes-mod zero n h = omega arith
after_changes-mod (suc k) n h = after_changes-mod k ((n + 1) % 2 ^ 32) (omega arith) ∙ omega arith

-- A state whose lock nobody holds.
abbrev pub at : {S G : Type 0} → ℕ → Option (State S G) → Inner S G
at n o = record { state = record { locked = false; value = o }; generation_from_listening = n }

abbrev held : {S G : Type 0} → ℕ → Option (State S G) → Inner S G
held n o = record { state = record { locked = true; value = o }; generation_from_listening = n }

abbrev pub kept : {S G : Type 0} → S → G → State S G
kept s g = record { generation = 0; source = s; gate = g }

-- The parameters leave the state of the `Flatten` alone, and the outer source holds `current w` in
-- the world `w`. `Inv` says what else holds of it.
module _ {W S G : Type 0} (q : Place W (Inner S G)) (current : W → S) (outer_get : Exec W S)
    (subscribe : S → Exec W G) (drop_gate : G → W → W) (gate_of : S → W → G) (listening : S → W → W)
    (Inv : W → Type 0)
    (reads : (i : Inner S G) (w : W) → Inv w → outer_get (q.put i w) ≡ (ok (current w), q.put i w))
    (subscribes : (s : S) (i : Inner S G) (w : W)
      → Inv w
      → subscribe s (q.put i w) ≡ (ok (gate_of s w), q.put i (listening s w)))
    (drops : (g : G)
      → (i : Inner S G) (w : W) → drop_gate g (q.put i w) ≡ q.put i (drop_gate g w)) where
  open q use {put, get-put, put-put}

  abbrev get_source : Exec W S
  get_source = get_source_and_listen_if_new q outer_get subscribe drop_gate

  lock-at :
      (n : ℕ) (o : Option (State S G)) (w : W)
      → lock (state_place q) (put (at n o) w) ≡ (ok o, put (held n o) w)
  unfolding lock state_place
  lock-at n o w = rw (get-put (at n o) w) (ap (λ v. (ok o, v)) (put-put (held n o) (at n o) w))

  unlock-held :
      (n : ℕ) (o o' : Option (State S G)) (w : W)
      → unlock (state_place q) o' (put (held n o) w) ≡ put (at n o') w
  unfolding unlock state_place
  unlock-held n o o' w = rw (get-put (held n o) w, unlock) (put-put (at n o') (held n o) w)

  peeked :
      (n : ℕ) (o : Option (State S G)) (w : W)
      → get_source (put (at n o) w)
        ≡ renew q outer_get subscribe drop_gate n (current_at q n o) (put (at n o) w)
  unfolding get_source_and_listen_if_new
  peeked n o w = rw (get-put (at n o) w) (
      rw (put-put (held n o) (at n o) w)
        (rw (get-put (held n o) w) (rw (put-put (at n o) (held n o) w))))

  dropped :
      (i : Inner S G) (o : Option (State S G)) (w : W)
      → drop_state q outer_get subscribe drop_gate o (put i w)
        ≡ put i (drop_state q outer_get subscribe drop_gate o w)
  dropped i none w = refl
  dropped i (some st) w = drops st.gate i w

  stored :
      (n : ℕ) (s : S) (g : G) (o : Option (State S G)) (w : W)
      → store_new q outer_get subscribe drop_gate s g o none (put (held n o) w)
        ≡ (ok s, put (at n (some (kept s g))) (drop_state q outer_get subscribe drop_gate o w))
  unfolding store_new
  stored n s g o w = rw (dropped (held n o) o w) (
      ap (λ v. (ok s, v))
        (unlock-held n o (some (kept s g)) (drop_state q outer_get subscribe drop_gate o w)))

  -- With nothing in the state that will do, a source is read and listened to, and stored.
  renewed :
      (n : ℕ) (o : Option (State S G)) (w : W)
      → Inv w
      → newer_at q n o ≡ none
      → renew q outer_get subscribe drop_gate n none (put (at n o) w) ≡ (
        ok (current w),
        put
            (at n (some (kept (current w) (gate_of (current w) w))))
            (drop_state q outer_get subscribe drop_gate o (listening (current w) w)),
      )
  unfolding renew
  renewed n o w c e =
      let v = listening (current w) w in
      rw (reads (at n o) w c) (
        rw (subscribes (current w) (at n o) w c)
          (rw (lock-at n o v) (rw e (stored n (current w) (gate_of (current w) w) o v))))

  fresh_at :
      (n : ℕ) (source : S) (g : G) (w : W)
      → Inv w
      → n ≢ 0
      → get_source (put (at n (some (kept source g))) w) ≡ (
        ok (current w),
        put
            (at n (some (kept (current w) (gate_of (current w) w))))
            (drop_gate g (listening (current w) w)),
      )
  fresh_at n source g w c h =
      let o = some (kept source g) in
      let outdated : current_at q n o ≡ none = ground arith in
      let older : newer_at q n o ≡ none = ground arith in
      peeked n o w ∙ rw outdated (renewed n o w c older)

  again_at :
      (k : ℕ) (source : S) (g : G) (w : W)
      → after_changes k 0 ≡ 0
      → (let n = after_changes k 0 in
          let old = some (kept source g) in
          get_source (put (at n old) w) ≡ (ok source, put (at n old) w))
  again_at k source g w e = rw e (peeked 0 (some (kept source g)) w ∙ unfold renew in refl)

  -- A new `Flatten`, with a free lock and sources that leave the `Flatten` alone, takes the source
  -- that the outer one holds, listens to it, and stores it.
  pub first_lem :
      (w : W)
      → Inv w
      → get_source (put (at 0 none) w) ≡ (
        ok (current w),
        put (at 0 (some (kept (current w) (gate_of (current w) w)))) (listening (current w) w),
      )
  first_lem w c = peeked 0 none w ∙ renewed 0 none w c refl

  -- After `k` changes of the outer source, a `Flatten` whose stored source has generation 0, with a
  -- free lock and sources that leave the `Flatten` alone, takes the source that the outer one holds
  -- now, listens to it, stores it with generation 0 and drops the gate of the old one; but if `k`
  -- is a multiple of 2 ^ 32, it takes the stored source and nothing changes.
  pub get_source_lem :
      (k : ℕ) (source : S) (g : G) (w : W)
      → Inv w
      → (let n = after_changes k 0 in
          let old = some (kept source g) in
          let new = some (kept (current w) (gate_of (current w) w)) in
          get_source (put (at n old) w) ≡ (
            if k % 2 ^ 32 == 0
            then (ok source, put (at n old) w)
            else (ok (current w), put (at n new) (drop_gate g (listening (current w) w)))))
  get_source_lem k source g w c = elim (Bool-cases (k % 2 ^ 32 == 0)) [
    | inl e ↦
        rw e (
          again_at k source g w (omega (arith, after_changes-mod k 0, (==_iff (k % 2 ^ 32) 0).0 e)))
    | inr e ↦ rw e (
        fresh_at (after_changes k 0) source g w c
          (λ z. not_zero (k % 2 ^ 32) e (omega (arith, after_changes-mod k 0))))
  ]

-- The outer source's notification, when notifying the listeners leaves the `Flatten` alone.
module _ {W S G : Type 0} (p : Place W (Shared (Inner S G))) (notify : Exec W (Unit {0}))
    (told : W → W)
    (notifies : (s : Shared (Inner S G)) (w : W)
      → notify (p.put s w) ≡ (ok tt, p.put s (told w))) where
  open p use {put, get-put, put-put}

  abbrev counted : Inner S G → Inner S G
  counted i = record i { generation_from_listening = next_generation i.generation_from_listening }

  change-counted :
      (n : ℕ) (i : Inner S G) (w : W)
      → (count_change p notify >> notify) (put (shared p n i) w)
        ≡ (ok tt, put (shared p n (counted i)) (told w))
  unfolding inside
  change-counted n i w =
      rw (get-put (shared p n i) w) (
        rw (put-put (shared p n (counted i)) (shared p n i) w)
          (notifies (shared p n (counted i)) w))

  -- When messages come from the outer source, a `Flatten` that has an owner counts one change, with
  -- wrap-around at 2 ^ 32, and notifies its own listeners once, if notifying them leaves the
  -- `Flatten` alone; an empty slice changes nothing.
  pub outer_receive_lem :
      (n : ℕ) (i : Inner S G) (ms : List (Unit {0})) (w : W)
      → outer_receive p notify ms (put (shared p (suc n) i) w) ≡ (
          if is_empty ms
          then (ok true, put (shared p (suc n) i) w)
          else (ok true, put (shared p (suc n) (counted i)) (told w)))
  unfolding outer_receive
  outer_receive_lem n i [] w = rw (with_upgraded_alive p _ (ok true) n i i w w refl)
  outer_receive_lem n i (m ∷ ms) w = rw (
      with_upgraded_alive p (do count_change p notify; notify; λ v. (ok true, v)) (ok true) n i
        (counted i) w (told w)
        (ap (λ r. continue r.0 (λ _ v. (ok true, v)) r.1) (change-counted (suc n + 1) i w)))
