-- ===== src/Notifier/Threads/Lifted.antt =====
-- The listeners of a notifier that threads share, beside the lock: what a `RawNotifier` does with
-- them is the same whether its world holds the lock or not.
use nosy.Prelude.{
  ℕ, zero, suc, ◌≡◌, refl, ap, ◌∙◌, Bool, true, false, List, [], ◌∷◌, length, leb, Bool-cases,
  Option-cases, inl, inr,
}
use nosy.Exec.{Result-cases}
use nosy.Listener.{Listener}
use nosy.Memory.{Place}
use nosy.MaybeSync.{RwLock}
use nosy.Notifier.Raw.{
  NotifierEntry, RawNotifier, get_elem?, swap_remove, deliver, ask, drop_loop, drop_dead_listeners,
  drop_dead_if_full, add_entry, listen_raw,
}
use nosy.Notifier.Delivery.{deliver-ok, deliver-panic}
use nosy.Notifier.Locked.{State}
use nosy.Notifier.Threads.{Shared}

module _ {W L : Type 0} where
  abbrev pub lock_place : Place (Shared W L) (RwLock (State L))
  lock_place = record {
    get = λ s. s.lock;
    put = λ l s. record s { lock = l };
    get-put = λ l s. refl;
    put-get = λ s. refl;
    put-put = λ l k s. refl;
  }

module _ {W L M : Type 0} (lis : Listener W L M) where
  -- The same listeners, in a world with the lock.
  abbrev pub lifted : Listener (Shared W L) L M
  lifted = record {
    receive =
        λ l ms s. let done = lis.receive l ms s.world in (done.0, record s { world = done.1 });
  }

  abbrev pub at : RwLock (State L) → W → Shared W L
  at k w = record { lock = k; world = w }

  module _ (k : RwLock (State L)) where
    pub deliver-lifted :
        (es : List (NotifierEntry L)) (ms : List M) (w : W)
        → deliver lifted es ms (at k w)
          ≡ (let r = deliver lis es ms w in (r.0, (r.1.0, at k r.1.1)))
    unfolding deliver
    deliver-lifted [] ms w = refl
    deliver-lifted (e ∷ es) ms w = elim (Result-cases (lis.receive e.listener ms w).0) [
      | inr (p, q) ↦
          let v = (lis.receive e.listener ms w).1 in
          rw (deliver-panic lifted e es ms p (at k v) (at k w) (ap (λ r. (r, at k v)) q))
            (rw (deliver-panic lis e es ms p v w (ap (λ r. (r, v)) q)) refl)
      | inl (alive, q) ↦
          let v = (lis.receive e.listener ms w).1 in
          rw (deliver-ok lifted e es ms alive (at k v) (at k w) (ap (λ r. (r, at k v)) q)) (
            rw (deliver-ok lis e es ms alive v w (ap (λ r. (r, v)) q))
              (rw (deliver-lifted es ms v) refl))
    ]

    ask-lifted :
        (e : NotifierEntry L) (w : W)
        → ask lifted e (at k w) ≡ ((ask lis e w).0, at k (ask lis e w).1)
    unfolding ask
    ask-lifted e w = elim (Bool-cases e.was_alive) [ inl q ↦ rw q refl | inr q ↦ rw q refl ]

    asked : (e : NotifierEntry L) (w : W) → (ask lifted e (at k w)).0 ≡ (ask lis e w).0
    asked e w = ap (λ r. r.0) (ask-lifted e w)

    drop_loop-lifted :
        (n i : ℕ) (es : List (NotifierEntry L)) (w : W)
        → drop_loop lifted n i es (at k w)
          ≡ (let r = drop_loop lis n i es w in (r.0, (r.1.0, at k r.1.1)))
    unfolding drop_loop
    drop_loop-lifted zero i es w = refl
    drop_loop-lifted (suc n) i es w = elim (Option-cases (get_elem? es i)) [
      | inl e ↦ rw (e, drop_loop) refl
      | inr (x, e) ↦ elim (Result-cases (ask lis x w).0) [
        | inr (p, q) ↦ rw (e, drop_loop) (rw (asked x w ∙ q) (rw (q, ask-lifted x w) refl))
        | inl (true, q) ↦
            rw (e, drop_loop)
              (rw (asked x w ∙ q)
                (rw (q, ask-lifted x w) (drop_loop-lifted n (suc i) es (ask lis x w).1)))
        | inl (false, q) ↦
            rw (e, drop_loop)
              (rw (asked x w ∙ q)
                (rw (q, ask-lifted x w) (drop_loop-lifted n i (swap_remove es i) (ask lis x w).1)))
      ]
    ]

    pub drop_dead-lifted :
        (raw : RawNotifier L) (w : W)
        → drop_dead_listeners lifted (raw, at k w)
          ≡ (let r = drop_dead_listeners lis (raw, w) in (r.0, (r.1.0, at k r.1.1)))
    unfolding drop_dead_listeners
    drop_dead-lifted raw w = rw (drop_loop-lifted (length raw.listeners) 0 raw.listeners w) refl

    drop_dead_if_full-lifted :
        (raw : RawNotifier L) (w : W)
        → drop_dead_if_full lifted (raw, at k w)
          ≡ (let r = drop_dead_if_full lis (raw, w) in (r.0, (r.1.0, at k r.1.1)))
    unfolding drop_dead_if_full
    drop_dead_if_full-lifted raw w = elim (Bool-cases (leb raw.capacity (length raw.listeners))) [
      | inl full ↦ rw full (drop_dead-lifted raw w)
      | inr room ↦ rw room refl
    ]

    add_entry-lifted :
        (grow : ℕ → ℕ) (l : L) (alive : Bool) (raw : RawNotifier L) (w : W)
        → add_entry lifted grow l alive (raw, at k w)
          ≡ (let r = add_entry lis grow l alive (raw, w) in (r.0, (r.1.0, at k r.1.1)))
    unfolding add_entry
    add_entry-lifted grow l false raw w = refl
    add_entry-lifted grow l true raw w = elim (Result-cases (drop_dead_if_full lis (raw, w)).0) [
      | inr (p, q) ↦ rw (drop_dead_if_full-lifted raw w) (rw q refl)
      | inl (t, q) ↦ rw (drop_dead_if_full-lifted raw w) (rw q refl)
    ]

    pub listen_raw-lifted :
        (grow : ℕ → ℕ) (l : L) (raw : RawNotifier L) (w : W)
        → listen_raw lifted grow l (raw, at k w)
          ≡ (let r = listen_raw lis grow l (raw, w) in (r.0, (r.1.0, at k r.1.1)))
    unfolding listen_raw
    listen_raw-lifted grow l raw w = elim (Result-cases (lis.receive l [] w).0) [
      | inr (p, q) ↦ rw q refl
      | inl (alive, q) ↦ rw q (add_entry-lifted grow l alive raw (lis.receive l [] w).1)
    ]
