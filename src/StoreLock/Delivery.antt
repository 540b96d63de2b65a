-- ===== src/StoreLock/Delivery.antt =====
-- What a `StoreLock` receives, and that its listener keeps the requirements of `Listener`.
use mathlib.Core.Path.{subst}
use nosy.Prelude.{ℕ, zero, suc, ◌+◌, ◌≡◌, refl, ap, ◌∙◌, sym, true, false, List, [], ◌∷◌}
use nosy.Exec.{ok}
use nosy.Listener.{Listener, IsLawful}
use nosy.Listener.Weak.{IsWeak, weak_update, weak-IsLawful}
use nosy.Memory.{Place, Shared, shared, with_upgraded_alive, with_upgraded_dead}
use nosy.MaybeSync.{Mutex}
use nosy.Store.{Store, IsStore}
use nosy.StoreLock.{receive_bare_mutex, listener_receive, take}

-- A mutex that nobody holds.
abbrev pub unlocked : {T : Type 0} → T → Mutex T
unlocked v = record { locked = false; value = v }

module _ {W T M : Type 0} (st : Store T M) (p : Place W (Shared (Mutex T))) where
  open p use {get, put, get-put, put-get, put-put}

  abbrev locked : T → Mutex T
  locked v = record { locked = true; value = v }

  pub receive_bare_mutex_lem :
      (n : ℕ) (v : T) (ms : List M) (w : W)
      → receive_bare_mutex st p ms (put (shared p n (unlocked v)) w)
        ≡ (ok true, put (shared p n (unlocked (st.receive v ms))) w)
  unfolding receive_bare_mutex
  receive_bare_mutex_lem n v ms w = rw (get-put (shared p n (unlocked v)) w) (
      rw (put-put (shared p n (locked v)) (shared p n (unlocked v)) w) (
        rw (get-put (shared p n (locked v)) w)
          (ap (λ u. (ok true, u)) (put-put _ (shared p n (locked v)) w))))

  -- With an owner left, the listener hands the messages to the store, once, and is alive; the
  -- lock is free again and the count of owners is as before.
  pub listener_receive_lem :
      (n : ℕ) (v : T) (ms : List M) (w : W)
      → IsStore st
      → listener_receive st p ms (put (shared p (suc n) (unlocked v)) w)
        ≡ (ok true, put (shared p (suc n) (unlocked (st.receive v ms))) w)
  unfolding listener_receive
  listener_receive_lem n v [] w h =
      rw (with_upgraded_alive p _ (ok true) n (unlocked v) (unlocked v) w w refl, h.empty v)
  listener_receive_lem n v (m ∷ ms) w h = rw (
      with_upgraded_alive p _ (ok true) n (unlocked v) (unlocked (st.receive v (m ∷ ms))) w w
        (receive_bare_mutex_lem (suc n + 1) v (m ∷ ms) w))

  pub listener_receive_dead :
      (u : Mutex T) (ms : List M) (w : W)
      → listener_receive st p ms (put (shared p 0 u) w) ≡ (ok false, put (shared p 0 u) w)
  unfolding listener_receive
  listener_receive_dead u ms w = rw (with_upgraded_dead p _ u w)

  -- What the owner takes out is what was stored, and the replacement stays behind.
  pub take_lem :
      (n : ℕ) (v replacement : T) (w : W)
      → take p replacement (put (shared p n (unlocked v)) w)
        ≡ (ok v, put (shared p n (unlocked replacement)) w)
  unfolding take
  take_lem n v replacement w = rw (get-put (shared p n (unlocked v)) w) (
      rw (put-put (shared p n (locked v)) (shared p n (unlocked v)) w) (
        rw (get-put (shared p n (locked v)) w)
          (ap (λ u. (ok v, u)) (put-put _ (shared p n (locked v)) w))))

  -- The listener of the store lock, as a listener.
  abbrev pub lock_listener : Listener W (Unit {0}) M
  lock_listener = record { receive = λ _. listener_receive st p }

  abbrev pub stored : Mutex T → List M → Mutex T
  stored m ms = record m { value = st.receive m.value ms }

  -- `Inv` says that nobody holds the lock, and what else holds of the world; a delivery to this
  -- lock keeps it.
  module _ (Inv : W → Type 0) (free : (w : W) → Inv w → (get w).value.locked ≡ false)
      (kept : (n : ℕ) (v : T) (w : W) → Inv w → Inv (put (shared p n (unlocked v)) w))
      (h : IsStore st) where
    keeps_at :
        (n : ℕ) (m : Mutex T) (ms : List M) (w : W)
        → m.locked ≡ false
        → Inv w
        → Inv (put (weak_update stored n m ms) w)
    keeps_at zero m ms w r i = rw r (kept 0 m.value w i)
    keeps_at (suc n) m ms w r i = rw r (kept (suc n) (st.receive m.value ms) w i)

    pub listener_receive-IsWeak : IsWeak lock_listener Inv p (λ m. m.locked ≡ false) stored tt
    listener_receive-IsWeak = record {
      ready = free;
      alive = λ n m ms w r. rw r (listener_receive_lem n m.value ms w h);
      gone = listener_receive_dead;
      keeps = λ ms w i. keeps_at (get w).strong (get w).value ms w (free w i) i;
      empty = λ m. ap (λ v. record m { value = v }) (h.empty m.value);
      batch = λ m xs ys. ap (λ v. record m { value = v }) (h.batch m.value xs ys);
    }

  -- `Inv` says that nobody holds the lock, and what else holds of the world; every delivery by the
  -- listener keeps it.
  module _ (Inv : W → Type 0) (free : (w : W) → Inv w → (get w).value.locked ≡ false)
      (kept : (ms : List M) (w : W) → Inv w → Inv (listener_receive st p ms w).1)
      (h : IsStore st) where
    received_at :
        (n : ℕ) (m : Mutex T) (ms : List M) (w : W)
        → m.locked ≡ false
        → (listener_receive st p ms (put (shared p n m) w)).1 ≡ put (weak_update stored n m ms) w
    received_at zero m ms w r = ap (λ x. x.1) (listener_receive_dead m ms w)
    received_at (suc n) m ms w r = rw r (ap (λ x. x.1) (listener_receive_lem n m.value ms w h))

    received :
        (ms : List M) (w : W)
        → Inv w
        → (listener_receive st p ms w).1
          ≡ put (weak_update stored (get w).strong (get w).value ms) w
    received ms w i =
        ap (λ v. (listener_receive st p ms v).1) (sym (put-get w))
        ∙ received_at (get w).strong (get w).value ms w (free w i)

    delivered-IsWeak : IsWeak lock_listener Inv p (λ m. m.locked ≡ false) stored tt
    delivered-IsWeak = record {
      ready = free;
      alive = λ n m ms w r. rw r (listener_receive_lem n m.value ms w h);
      gone = listener_receive_dead;
      keeps = λ ms w i. subst Inv (received ms w i) (kept ms w i);
      empty = λ m. ap (λ v. record m { value = v }) (h.empty m.value);
      batch = λ m xs ys. ap (λ v. record m { value = v }) (h.batch m.value xs ys);
    }

    -- The listener of a store lock keeps the requirements of `Listener` if the store keeps those of
    -- `Store`, in the worlds of an invariant which says that nobody holds the lock and which no
    -- delivery by this listener breaks.
    pub listener_receive-IsLawful : IsLawful lock_listener Inv tt
    listener_receive-IsLawful = weak-IsLawful delivered-IsWeak
