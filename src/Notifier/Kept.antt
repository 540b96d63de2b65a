-- ===== src/Notifier/Kept.antt =====
-- What `RawNotifier`'s methods leave, entry by entry: every listener that is left was there, or has
-- been added.
use nosy.Prelude.{
  ℕ, suc, ◌≤◌, ◌≡◌, refl, ap, List, [], ◌∷◌, ◌++◌, All, length, leb, Bool-cases, inl, inr,
}
use nosy.Exec.{ok}
use nosy.Listener.{Listener, IsLawful}
use nosy.Notifier.Raw.{
  NotifierEntry, RawNotifier, push_entry, deliver, drop_dead_listeners, drop_dead_if_full,
  listen_raw, add_entry,
}
use nosy.Notifier.Delivery.{answer, receive-nil, AllLawful, deliver-ok}
use nosy.Notifier.DropDead.{sweep, All-sweep, length-sweep, drop_dead_listeners-sweep}
use nosy.Notifier.Listen.{added, listen_raw_dead}
use nosy.Notifier.Locked.{and_bits}

module _ {L : Type 0} (P : L → Type 0) where
  abbrev pub AllListeners : List (NotifierEntry L) → Type 0
  AllListeners = All (λ e. P e.listener)

  pub All-and_bits :
      (ds es : List (NotifierEntry L)) → AllListeners ds → AllListeners (and_bits ds es)
  unfolding and_bits
  All-and_bits [] es h = tt
  All-and_bits (d ∷ ds) [] h = h
  All-and_bits (d ∷ ds) (e ∷ es) h = (h.0, All-and_bits ds es h.1)

  All-push :
      (es : List (NotifierEntry L)) (e : NotifierEntry L)
      → AllListeners es
      → P e.listener
      → AllListeners (es ++ e ∷ [])
  All-push [] e h k = (k, tt)
  All-push (x ∷ es) e h k = (h.0, All-push es e h.1 k)

pub length-and_bits :
    {L : Type 0} (ds es : List (NotifierEntry L)) → length (and_bits ds es) ≡ length ds
unfolding and_bits
length-and_bits [] es = refl
length-and_bits (d ∷ ds) [] = refl
length-and_bits (d ∷ ds) (e ∷ es) = ap suc (length-and_bits ds es)

module _ {W L M : Type 0} (lis : Listener W L M) (Inv : W → Type 0) where
  open lis use {receive}

  -- Listeners that keep the requirements bring a delivery to its end, also when they share state.
  pub deliver_end :
      (es : List (NotifierEntry L)) (ms : List M) (w : W)
      → Inv w
      → AllLawful lis Inv es
      → ((deliver lis es ms w).0 ≡ ok tt) × Inv (deliver lis es ms w).1.1
  unfolding deliver
  deliver_end [] ms w i h = (refl, i)
  deliver_end (e ∷ es) ms w i h =
      let v = (receive e.listener ms w).1 in
      let (alive, q) = h.0.total ms w i in
      rw (deliver-ok lis e es ms alive v w (ap (λ r. (r, v)) q))
        (deliver_end es ms v (h.0.keeps ms w i) h.1)

  module _ (P : L → Type 0) (raw : RawNotifier L) (w : W) (i : Inv w)
      (h : AllLawful lis Inv raw.listeners) (k : AllListeners P raw.listeners) where
    -- `drop_dead_listeners` and what is added behind it.
    abbrev left : List (NotifierEntry L)
    left = sweep lis (length raw.listeners) raw.listeners w

    pub drop_dead_kept :
        (es : List (NotifierEntry L)) × (drop_dead_listeners lis (raw, w)
          ≡ (ok tt, (record raw { listeners = es }, w)))
        × AllListeners P es
        × (length es ≤ length raw.listeners)
    drop_dead_kept = (
      left,
      drop_dead_listeners-sweep lis Inv raw w i h,
      All-sweep lis Inv (λ e. P e.listener) (length raw.listeners) raw.listeners w k,
      length-sweep lis Inv (length raw.listeners) raw.listeners w,
    )

    drop_if_full_kept :
        (es : List (NotifierEntry L)) × (drop_dead_if_full lis (raw, w)
          ≡ (ok tt, (record raw { listeners = es }, w)))
        × AllListeners P es
    unfolding drop_dead_if_full
    drop_if_full_kept = elim (Bool-cases (leb raw.capacity (length raw.listeners))) [
      | inl full ↦ let (es, e, a, _) = drop_dead_kept in (es, rw full e, a)
      | inr room ↦ (raw.listeners, rw room, k)
    ]

    pub listen_raw_kept :
        (grow : ℕ → ℕ) (l : L)
        → IsLawful lis Inv l
        → P l
        → (raw' : RawNotifier L) × (listen_raw lis grow l (raw, w) ≡ (ok tt, (raw', w)))
          × AllListeners P raw'.listeners
    unfolding listen_raw push_entry
    listen_raw_kept grow l hl kl = elim (Bool-cases (answer lis l [] w)) [
      | inl a ↦
          let (es, e, b) = drop_if_full_kept in
          (
            push_entry grow (added l) (record raw { listeners = es }),
            rw (receive-nil lis Inv l w i hl)
                (rw (receive-nil lis Inv l w i hl) (rw (a, add_entry) (rw e))),
            All-push P es (added l) b kl,
          )
      | inr d ↦ (raw, listen_raw_dead lis Inv grow l raw w i hl d, k)
    ]
