-- ===== src/Memory.antt =====
-- Shared memory: a place in the world that holds a value, and what `Arc`, `Rc` and their `Weak`
-- references do to the allocation behind it.
pub mod Within
use nosy.Prelude.{ℕ, zero, suc, ◌+◌, ◌-◌, ◌≡◌, ap, ◌∙◌, Bool, false, Option, none, some, arith}
use nosy.Exec.{Exec, Result, ok, panic}

-- A place is read and written, and a write is what the next read finds.
pub record Place (W S : Type 0) : Type 0 where
  pub get : W → S
  pub put : S → W → W
  pub get-put : (s : S) (w : W) → get (put s w) ≡ s
  pub put-get : (w : W) → put (get w) w ≡ w
  pub put-put : (s t : S) (w : W) → put s (put t w) ≡ put s w

-- An action that neither reads nor writes a place.
pub record Framed {W S A : Type 0} (p : Place W S) (m : Exec W A) : Type 0 where
  pub commutes : (s : S) (w : W) → m (p.put s w) ≡ ((m w).0, p.put s (m w).1)

-- An `Arc` or `Rc` allocation: how many strong references there are, and the value.
pub record Shared (T : Type 0) : Type 0 where
  pub strong : ℕ
  pub value : T

-- Runs `m`, and `restore` after it, whether it returns or panics: the drop of a guard.
abbrev pub finally {ℓ κ} : {W : Type ℓ} {A : Type κ} → Exec W A → (W → W) → Exec W A
finally m restore w = ((m w).0, restore (m w).1)

abbrev pub map_result {ℓ κ} : {A : Type ℓ} {B : Type κ} → (A → B) → Result A → Result B
map_result f (ok a) = ok (f a)
map_result f (panic p) = panic p

module _ {W T : Type 0} (p : Place W (Shared T)) where
  open p use {get, put}

  -- The value inside an allocation is a place too.
  pub inside-get : (v : T) (w : W) → (get (put (record (get w) { value = v }) w)).value ≡ v
  inside-get v w = ap (λ s. s.value) (p.get-put (record (get w) { value = v }) w)

  pub inside-put-put :
      (v u : T) (w : W)
      → (let w' = put (record (get w) { value = u }) w in put (record (get w') { value = v }) w')
        ≡ put (record (get w) { value = v }) w
  inside-put-put v u w =
      ap (λ s. put (record s { value = v }) (put (record (get w) { value = u }) w))
        (p.get-put (record (get w) { value = u }) w)
      ∙ p.put-put _ _ w

  unfoldable pub inside : Place W T
  inside = record {
    get = λ w. (get w).value;
    put = λ v w. put (record (get w) { value = v }) w;
    get-put = inside-get;
    put-get = p.put-get;
    put-put = inside-put-put;
  }

  abbrev pub strong_count : W → ℕ
  strong_count w = (get w).strong

  unfoldable pub retain : W → W
  retain w = put (record (get w) { strong = (get w).strong + 1 }) w

  -- The drop of a strong reference.
  unfoldable pub release : W → W
  release w = put (record (get w) { strong = (get w).strong - 1 }) w

  unfoldable pub upgrade_at {κ} : {A : Type κ} → ℕ → Exec W A → Exec W (Option A)
  unfolding retain release
  upgrade_at zero m w = (ok none, w)
  upgrade_at (suc n) m w = (map_result some (m (retain w)).0, release (m (retain w)).1)

  -- `Weak::upgrade`, with what is done while the strong reference that it gives is held. There is
  -- none once the last owner is gone.
  unfoldable pub with_upgraded {κ} : {A : Type κ} → Exec W A → Exec W (Option A)
  unfolding upgrade_at
  with_upgraded m w = upgrade_at (strong_count w) m w

module _ {W T : Type 0} (p : Place W (Shared T)) where
  open p use {get, put, get-put, put-put}

  abbrev pub shared : ℕ → T → Shared T
  shared n v = record { strong = n; value = v }

  pub release_lem :
      (n : ℕ) (v : T) (w : W) → release p (put (shared n v) w) ≡ put (shared (n - 1) v) w
  unfolding release
  release_lem n v w = rw (get-put (shared n v) w, release) (put-put _ (shared n v) w)

  pub retain_lem :
      (n : ℕ) (v : T) (w : W) → retain p (put (shared n v) w) ≡ put (shared (n + 1) v) w
  unfolding retain
  retain_lem n v w = rw (get-put (shared n v) w, retain) (put-put _ (shared n v) w)

  -- With an owner left, the action runs while there is one more owner, and the count is then as
  -- before.
  pub with_upgraded_alive {κ} :
      {A : Type κ} (m : Exec W A) (r : Result A) (n : ℕ) (u v : T) (w w' : W)
      → m (put (shared (suc n + 1) u) w) ≡ (r, put (shared (suc n + 1) v) w')
      → with_upgraded p m (put (shared (suc n) u) w)
        ≡ (map_result some r, put (shared (suc n) v) w')
  unfolding with_upgraded
  with_upgraded_alive m r n u v w w' e =
      ap (λ (x : Shared T). upgrade_at p x.strong m (put (shared (suc n) u) w))
        (get-put (shared (suc n) u) w)
      ∙ rw (retain_lem (suc n) u w) (
          rw e (
            ap (λ x. (map_result some r, x))
              (release_lem (suc n + 1) v w' ∙ ap (λ (k : ℕ). put (shared k v) w') (omega arith))))

  pub with_upgraded_dead {κ} :
      {A : Type κ} (m : Exec W A) (u : T) (w : W)
      → with_upgraded p m (put (shared 0 u) w) ≡ (ok none, put (shared 0 u) w)
  unfolding with_upgraded
  with_upgraded_dead m u w =
      ap (λ (x : Shared T). upgrade_at p x.strong m (put (shared 0 u) w)) (get-put (shared 0 u) w)

-- The tail of a listener that is a weak reference: dead if there was nothing to upgrade to.
abbrev pub or_dead : Result (Option Bool) → Result Bool
or_dead (ok (some alive)) = ok alive
or_dead (ok none) = ok false
or_dead (panic e) = panic e

abbrev pub upgraded_or_dead : {W T : Type 0} → Place W (Shared T) → Exec W Bool → Exec W Bool
upgraded_or_dead p m w = (or_dead (with_upgraded p m w).0, (with_upgraded p m w).1)

-- Two places that have nothing in common.
pub record Apart {W S T : Type 0} (p : Place W S) (q : Place W T) : Type 0 where
  pub get-left : (t : T) (w : W) → p.get (q.put t w) ≡ p.get w
  pub get-right : (s : S) (w : W) → q.get (p.put s w) ≡ q.get w
  pub put-swap : (s : S) (t : T) (w : W) → p.put s (q.put t w) ≡ q.put t (p.put s w)
