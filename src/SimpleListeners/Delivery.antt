-- ===== src/SimpleListeners/Delivery.antt =====
-- What `Log` and `Flag` remember, and that the simple listeners keep the requirements of
-- `Listener`.
use nosy.Prelude.{
  ℕ, zero, suc, ◌+◌, ◌≡◌, refl, sym, ap, ◌∙◌, Bool, true, false, ◌||◌, not, List, [], ◌∷◌, ◌++◌,
  append_assoc,
}
use nosy.Exec.{ok, ◌>>◌, continue}
use nosy.Listener.{Listener, IsLawful}
use nosy.Listener.Weak.{IsWeak, weak_update, weak-IsLawful}
use nosy.Memory.{Place, Shared, shared, with_upgraded_alive, with_upgraded_dead}
use nosy.MaybeSync.{Mutex}
use nosy.Store.{vec_store, vec_store-IsStore, is_empty}
use nosy.StoreLock.Delivery.{unlocked, listener_receive_lem, take_lem}
use nosy.SimpleListeners.{drain, log_receive, get_and_clear, set, flag_receive}

module _ {W M : Type 0} (p : Place W (Shared (Mutex (List M)))) where
  open p use {put}

  log_receive_lem :
      (n : ℕ) (v ms : List M) (w : W)
      → log_receive p ms (put (shared p (suc n) (unlocked v)) w)
        ≡ (ok true, put (shared p (suc n) (unlocked (v ++ ms))) w)
  unfolding log_receive
  log_receive_lem n v ms w = listener_receive_lem vec_store p n v ms w vec_store-IsStore

  drained :
      (n : ℕ) (v : List M) (w : W)
      → drain p (put (shared p n (unlocked v)) w) ≡ (ok v, put (shared p n (unlocked [])) w)
  unfolding drain
  drained n v w = take_lem vec_store p n v [] w

  -- A log that has an owner and whose lock is free hands out every message that it held, and that
  -- its listeners were sent in two slices, each once and in the order of sending, and is empty
  -- afterwards.
  pub drain_lem :
      (n : ℕ) (v xs ys : List M) (w : W)
      → (log_receive p xs >> log_receive p ys >> drain p) (put (shared p (suc n) (unlocked v)) w)
        ≡ (ok (v ++ (xs ++ ys)), put (shared p (suc n) (unlocked [])) w)
  drain_lem n v xs ys w = rw (log_receive_lem n v xs w) (
      rw (log_receive_lem n (v ++ xs) ys w)
        (rw (drained (suc n) ((v ++ xs) ++ ys) w, append_assoc v xs ys)))

module _ {W : Type 0} (p : Place W (Shared Bool)) where
  open p use {get, put, get-put, put-put}

  set_lem :
      (n : ℕ) (b : Bool) (w : W) → set p (put (shared p n b) w) ≡ (ok tt, put (shared p n true) w)
  unfolding set
  set_lem n b w = rw (get-put (shared p n b) w) (ap (λ u. (ok tt, u)) (put-put _ _ w))

  taken :
      (n : ℕ) (b : Bool) (w : W)
      → get_and_clear p (put (shared p n b) w) ≡ (ok b, put (shared p n false) w)
  unfolding get_and_clear
  taken n b w = rw (get-put (shared p n b) w) (ap (λ u. (ok b, u)) (put-put _ _ w))

  or_false : (b : Bool) → b || false ≡ b
  or_false false = refl
  or_false true = refl

  module _ {M : Type 0} where
    -- What a slice leaves of a flag.
    abbrev pub raised : Bool → List M → Bool
    raised b ms = b || not (is_empty ms)

    raised-more : (b : Bool) (m : M) (ms : List M) → raised b (m ∷ ms) ≡ true
    raised-more false m ms = refl
    raised-more true m ms = refl

    raised-append : (b : Bool) (xs ys : List M) → raised b (xs ++ ys) ≡ raised (raised b xs) ys
    raised-append b [] ys = sym (ap (λ c. raised c ys) (or_false b))
    raised-append b (x ∷ xs) ys =
        raised-more b x (xs ++ ys) ∙ sym (ap (λ c. raised c ys) (raised-more b x xs))

    flag_receive_lem :
        (n : ℕ) (b : Bool) (ms : List M) (w : W)
        → flag_receive p ms (put (shared p (suc n) b) w)
          ≡ (ok true, put (shared p (suc n) (raised b ms)) w)
    unfolding flag_receive
    flag_receive_lem n b [] w = rw (with_upgraded_alive p _ (ok true) n b b w w refl, or_false b)
    flag_receive_lem n b (m ∷ ms) w = rw (
      with_upgraded_alive p (do set p; λ v. (ok true, v)) (ok true) n b true w w
          (ap (λ r. continue r.0 (λ _ v. (ok true, v)) r.1) (set_lem (suc n + 1) b w)),
      raised-more b m ms,
    )

    flag_receive_dead :
        (b : Bool) (ms : List M) (w : W)
        → flag_receive p ms (put (shared p 0 b) w) ≡ (ok false, put (shared p 0 b) w)
    unfolding flag_receive
    flag_receive_dead b ms w = rw (with_upgraded_dead p _ b w)

    -- A flag that has an owner says whether it was set, or any message was sent in two slices; an
    -- empty slice does not count. Reading it clears it.
    pub get_and_clear_lem :
        (n : ℕ) (b : Bool) (xs ys : List M) (w : W)
        → (flag_receive p xs >> flag_receive p ys >> get_and_clear p) (put (shared p (suc n) b) w)
          ≡ (ok (b || not (is_empty (xs ++ ys))), put (shared p (suc n) false) w)
    get_and_clear_lem n b xs ys w = rw (flag_receive_lem n b xs w) (
        rw (flag_receive_lem n (raised b xs) ys w)
          (rw (taken (suc n) (raised (raised b xs) ys) w, raised-append b xs ys)))

    abbrev pub flag_listener : Listener W (Unit {0}) M
    flag_listener = record { receive = λ _. flag_receive p }

    -- `Inv` is whatever holds of the world that no delivery to this flag breaks.
    module _ (Inv : W → Type 0)
        (kept : (n : ℕ) (b : Bool) (w : W) → Inv w → Inv (put (shared p n b) w)) where
      keeps_at :
          (n : ℕ) (b : Bool) (ms : List M) (w : W) → Inv w → Inv (put (weak_update raised n b ms) w)
      keeps_at zero b ms w i = kept 0 b w i
      keeps_at (suc n) b ms w i = kept (suc n) (raised b ms) w i

      pub flag_receive-IsWeak : IsWeak flag_listener Inv p (λ _. Unit) raised tt
      flag_receive-IsWeak = record {
        ready = λ w i. tt;
        alive = λ n b ms w r. flag_receive_lem n b ms w;
        gone = flag_receive_dead;
        keeps = λ ms w i. keeps_at (get w).strong (get w).value ms w i;
        empty = or_false;
        batch = raised-append;
      }

      -- The listener of a flag keeps the requirements of `Listener`, in the worlds of an invariant
      -- that no delivery to this flag breaks.
      pub flag_receive-IsLawful : IsLawful flag_listener Inv tt
      flag_receive-IsLawful = weak-IsLawful flag_receive-IsWeak
