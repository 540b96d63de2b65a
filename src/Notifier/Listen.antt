-- ===== src/Notifier/Listen.antt =====
-- Registration: what `RawNotifier::listen_raw` and `RawNotifier::count` do.
use mathlib.Core.List
use mathlib.Core.List.{Perm, filter}
use mathlib.Core.List.Perm
use native.Mathlib.Bridge.{from_ℕ}
use nosy.Prelude.{
  ℕ, suc, ◌≤◌, ◌<◌, ◌≡◌, ◌≢◌, refl, sym, ap, ◌∙◌, true, false, List, [], ◌∷◌, All, arith, length,
  length-append, Bool-cases, inl, inr, leb, if◌then◌else◌,
}
use nosy.Exec.{ok}
use nosy.Listener.{Listener, IsLawful}
use nosy.Notifier.Raw.{
  NotifierEntry, RawNotifier, push_entry, drop_dead_if_full, listen_raw, add_entry, count,
  count_entries,
}
use nosy.Notifier.Delivery.{answer, receive-nil, AllLawful}
use nosy.Notifier.DropDead.{stays, live, drop_dead_listeners_lem, ask_lem}

module _ {ℓ} {A : Type ℓ} where
  length-from_ℕ : (xs : List A) → from_ℕ (List.length xs) ≡ length xs
  length-from_ℕ [] = refl
  length-from_ℕ (x ∷ xs) = ap suc (length-from_ℕ xs)

  pub length-perm : {xs ys : List A} → Perm xs ys → length xs ≡ length ys
  length-perm {xs} {ys} p = sym (length-from_ℕ xs) ∙ ap from_ℕ (Perm.length-eq p) ∙ length-from_ℕ ys

module _ {L : Type 0} where
  -- What a `Vec` promises of its capacity.
  pub record Fits (raw : RawNotifier L) : Type 0 where
    pub fits : length raw.listeners ≤ raw.capacity

  abbrev pub added : L → NotifierEntry L
  added l = record { listener = l; was_alive = true }

  push_entry-Fits :
      (grow : ℕ → ℕ) (e : NotifierEntry L) (raw : RawNotifier L)
      → ((n : ℕ) → n < grow n)
      → Fits raw
      → Fits (push_entry grow e raw)
  unfolding push_entry
  push_entry-Fits grow e raw g f =
      ground (arith, g raw.capacity, length-append raw.listeners (e ∷ []))

  push_entry_growth :
      (grow : ℕ → ℕ) (e : NotifierEntry L) (raw : RawNotifier L)
      → (push_entry grow e raw).capacity ≢ raw.capacity
      → length raw.listeners ≡ raw.capacity
  unfolding push_entry
  push_entry_growth grow e raw h = ground arith

module _ {W L M : Type 0} (lis : Listener W L M) where
  -- The entries that are kept when one is added.
  abbrev pub survivors : RawNotifier L → W → List (NotifierEntry L)
  survivors raw w =
      if leb raw.capacity (length raw.listeners) then live lis w raw.listeners else raw.listeners

  length-live-le : (es : List (NotifierEntry L)) (w : W) → length (live lis w es) ≤ length es
  length-live-le [] w = omega arith
  length-live-le (e ∷ es) w = ground (arith, length-live-le es w)

  All-stays :
      (es : List (NotifierEntry L)) (w : W)
      → length es ≤ length (live lis w es)
      → All (λ e. stays lis e w ≡ true) es
  All-stays [] w h = tt
  All-stays (e ∷ es) w h = elim (Bool-cases (stays lis e w)) [
    | inl p ↦ let h' = rw p at h in (p, All-stays es w (omega arith))
    | inr p ↦ let h' = rw p at h in absurd (omega (arith, length-live-le es w))
  ]

  survivors-le :
      (raw : RawNotifier L) (w : W) (es : List (NotifierEntry L))
      → Perm es (survivors raw w)
      → length es ≤ length raw.listeners
  survivors-le raw w es p = ground (arith, length-perm p, length-live-le raw.listeners w)

  survivors_full :
      (raw : RawNotifier L) (w : W) (es : List (NotifierEntry L))
      → Perm es (survivors raw w)
      → length raw.listeners ≤ raw.capacity
      → length es ≡ raw.capacity
      → length raw.listeners ≤ length (live lis w raw.listeners)
  survivors_full raw w es p f q = ground (arith, length-perm p)

module _ {W L M : Type 0} (lis : Listener W L M) (Inv : W → Type 0) where
  drop_dead_if_full_lem :
      (raw : RawNotifier L) (w : W)
      → Inv w
      → AllLawful lis Inv raw.listeners
      → (es : List (NotifierEntry L)) × (drop_dead_if_full lis (raw, w)
          ≡ (ok tt, (record raw { listeners = es }, w)))
        × Perm es (survivors lis raw w)
  unfolding drop_dead_if_full
  drop_dead_if_full_lem raw w i h = elim (Bool-cases (leb raw.capacity (length raw.listeners))) [
    | inl full ↦
        let (es, e, _, p) = drop_dead_listeners_lem lis Inv raw w i h in (es, rw full e, rw full p)
    | inr room ↦ (raw.listeners, rw room, rw room (Perm.refl raw.listeners))
  ]

  -- A listener that is dead already is not added, and nothing changes.
  pub listen_raw_dead :
      (grow : ℕ → ℕ) (l : L) (raw : RawNotifier L) (w : W)
      → Inv w
      → IsLawful lis Inv l
      → answer lis l [] w ≡ false
      → listen_raw lis grow l (raw, w) ≡ (ok tt, (raw, w))
  unfolding listen_raw
  listen_raw_dead grow l raw w i h d =
      rw (receive-nil lis Inv l w i h) (rw (receive-nil lis Inv l w i h) (rw (d, add_entry)))

  pub listen_raw_live :
      (grow : ℕ → ℕ) (l : L) (raw : RawNotifier L) (w : W)
      → Inv w
      → IsLawful lis Inv l
      → AllLawful lis Inv raw.listeners
      → answer lis l [] w ≡ true
      → (es : List (NotifierEntry L)) × (listen_raw lis grow l (raw, w)
          ≡ (ok tt, (push_entry grow (added l) (record raw { listeners = es }), w)))
        × Perm es (survivors lis raw w)
  unfolding listen_raw
  listen_raw_live grow l raw w i h hs a =
      let (es, e, p) = drop_dead_if_full_lem raw w i hs in
      (
        es,
        rw (receive-nil lis Inv l w i h)
            (rw (receive-nil lis Inv l w i h) (rw (a, add_entry) (rw e))),
        p,
      )

  -- `listen_raw` keeps the vector within its capacity, when the listeners keep the requirements and
  -- a vector that grows gets larger.
  pub listen_raw-Fits :
      (grow : ℕ → ℕ) (l : L) (raw : RawNotifier L) (w : W)
      → Inv w
      → ((n : ℕ) → n < grow n)
      → IsLawful lis Inv l
      → AllLawful lis Inv raw.listeners
      → Fits raw
      → Fits (listen_raw lis grow l (raw, w)).1.0
  listen_raw-Fits grow l raw w i g h hs f = elim (Bool-cases (answer lis l [] w)) [
    | inl a ↦
        let (es, e, p) = listen_raw_live grow l raw w i h hs a in
        let small = survivors-le lis raw w es p in
        rw e (
          push_entry-Fits grow (added l) (record raw { listeners = es }) g
            (record { fits = omega arith }))
    | inr d ↦ rw (listen_raw_dead grow l raw w i h d) f
  ]

  -- Dead listeners do not leak: if adding a listener changes the capacity of a vector that was
  -- within it, every listener in the vector was alive, when the listeners keep the requirements.
  pub listen_raw_growth :
      (grow : ℕ → ℕ) (l : L) (raw : RawNotifier L) (w : W)
      → Inv w
      → IsLawful lis Inv l
      → AllLawful lis Inv raw.listeners
      → Fits raw
      → (listen_raw lis grow l (raw, w)).1.0.capacity ≢ raw.capacity
      → All (λ e. stays lis e w ≡ true) raw.listeners
  listen_raw_growth grow l raw w i h hs f c = elim (Bool-cases (answer lis l [] w)) [
    | inl a ↦
        let (es, e, p) = listen_raw_live grow l raw w i h hs a in
        let c' = rw e at c in
        let full = push_entry_growth grow (added l) (record raw { listeners = es }) c' in
        All-stays lis raw.listeners w (survivors_full lis raw w es p f.fits full)
    | inr d ↦ absurd (c (ap (λ r. r.1.0.capacity) (listen_raw_dead grow l raw w i h d)))
  ]

  count_entries_lem :
      (es : List (NotifierEntry L)) (w : W)
      → Inv w
      → AllLawful lis Inv es
      → count_entries lis es w ≡ (ok (length (live lis w es)), w)
  unfolding count_entries
  count_entries_lem [] w i h = refl
  count_entries_lem (e ∷ es) w i h = elim (Bool-cases (stays lis e w)) [
    | inl p ↦ rw (ask_lem lis Inv e w i h.0) (rw (p, count_entries_lem es w i h.1))
    | inr p ↦ rw (ask_lem lis Inv e w i h.0) (rw (p, count_entries_lem es w i h.1))
  ]

  -- `RawNotifier::count` is the number of live entries, and changes nothing, when the listeners
  -- keep the requirements.
  pub count_lem :
      (raw : RawNotifier L) (w : W)
      → Inv w
      → AllLawful lis Inv raw.listeners
      → count lis (raw, w) ≡ (ok (length (live lis w raw.listeners)), (raw, w))
  unfolding count
  count_lem raw w i h = rw (count_entries_lem raw.listeners w i h)
