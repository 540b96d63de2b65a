-- ===== src/Notifier/Drops.antt =====
-- src/notifier.rs: what becomes of the listeners of a notifier that is closed. They are dropped
-- while `close` holds the lock, and a listener can do something when it is dropped; so it is with a
-- listener that comes too late.
use nosy.Prelude.{ℕ, ◌≡◌, refl, ap, true, List, [], ◌∷◌, inl, inr}
use nosy.Exec.{Exec, ok, ◌>>=◌, Result-cases}
use nosy.Memory.{Place}
use nosy.MaybeSync.{write, end_write}
use nosy.Listener.{Listener}
use nosy.Notifier.Raw
use nosy.Notifier.Raw.{NotifierEntry}
use nosy.Notifier.Locked.{State, opened, shut, Notifier, close, listen_raw, write_state}
use nosy.Notifier.Shared.{closed_idle}

module _ {W L : Type 0} (drop_listener : L → W → W) (p : Place W (Notifier L)) where
  unfoldable pub drop_entries : List (NotifierEntry L) → W → W
  drop_entries [] w = w
  drop_entries (e ∷ es) w = drop_entries es (drop_listener e.listener w)

  unfoldable pub drop_state : State L → W → W
  unfolding drop_entries
  drop_state shut w = w
  drop_state (opened raw) w = drop_entries raw.listeners w

  -- `*self.state.write() = State::Closed`: the old state is dropped before the guard is.
  unfoldable pub close_and_drop : Exec W (Unit {0})
  unfolding write end_write drop_state
  close_and_drop = do state ← write p; λ w. (ok tt, end_write p shut (drop_state state w))

-- `Notifier::listen_raw`, where a closed notifier drops the new listener, behind the guard. (What
-- an open one drops is left out.)
module _ {W L M : Type 0} (lis : Listener W L M) (drop_listener : L → W → W)
    (p : Place W (Notifier L)) where
  abbrev add_or_drop : (ℕ → ℕ) → L → State L → Exec W (Unit {0})
  add_or_drop grow l (opened raw) = write_state lis p tt (Raw.listen_raw lis grow l) (opened raw)
  add_or_drop grow l shut = λ w. (ok tt, drop_listener l (end_write p shut w))

  unfoldable pub listen_raw_or_drop : (ℕ → ℕ) → L → Exec W (Unit {0})
  unfolding write end_write write_state
  listen_raw_or_drop grow l = do state ← write p; add_or_drop grow l state

  -- On a closed notifier that nobody holds.
  pub listen_raw_or_drop-closed :
      (grow : ℕ → ℕ) (l : L) (w : W)
      → listen_raw_or_drop grow l (p.put (closed_idle lis p) w)
        ≡ (ok tt, drop_listener l (p.put (closed_idle lis p) w))
  unfolding listen_raw_or_drop write end_write
  listen_raw_or_drop-closed grow l w =
      let n = closed_idle lis p in
      let held : Notifier L = record n { writing = true } in
      rw (p.get-put n w, write)
        (rw (p.put-put held n w) (
          rw (p.get-put held w, end_write)
            (ap (λ v. (ok tt, drop_listener l v)) (p.put-put n held w))))

module _ {W L M : Type 0} (lis : Listener W L M) (p : Place W (Notifier L)) where
  state_added :
      (grow : ℕ → ℕ) (l : L) (s : State L) (w : W)
      → add_or_drop lis (λ l v. v) p grow l s w
        ≡ write_state lis p tt (Raw.listen_raw lis grow l) s w
  unfolding write_state
  state_added grow l (opened raw) w = refl
  state_added grow l shut w = refl

  -- If the listener does nothing when it is dropped, this is `listen_raw`.
  listen_raw_or_drop-listen_raw :
      (grow : ℕ → ℕ) (l : L) (w : W)
      → listen_raw_or_drop lis (λ l v. v) p grow l w ≡ listen_raw lis p grow l w
  unfolding listen_raw_or_drop listen_raw
  listen_raw_or_drop-listen_raw grow l w = elim (Result-cases (write p w).0) [
    | inl (s, e) ↦ rw e (state_added grow l s (write p w).1)
    | inr (x, e) ↦ rw e refl
  ]

module _ {W L : Type 0} (p : Place W (Notifier L)) where
  none_dropped : (es : List (NotifierEntry L)) (w : W) → drop_entries (λ l v. v) p es w ≡ w
  unfolding drop_entries
  none_dropped [] w = refl
  none_dropped (e ∷ es) w = none_dropped es w

  state_dropped : (s : State L) (w : W) → drop_state (λ l v. v) p s w ≡ w
  unfolding drop_state
  state_dropped shut w = refl
  state_dropped (opened raw) w = none_dropped raw.listeners w

  -- If the listeners do nothing when they are dropped, this is `close`.
  close_and_drop-close : (w : W) → close_and_drop (λ l v. v) p w ≡ close p w
  unfolding close_and_drop close
  close_and_drop-close w = elim (Result-cases (write p w).0) [
    | inl (s, e) ↦ rw e (ap (λ v. (ok tt, end_write p shut v)) (state_dropped s (write p w).1))
    | inr (x, e) ↦ rw e refl
  ]
