-- ===== src/Listener/Weak.antt =====
-- Listeners that are weak references to a shared value: `StoreLockListener`, `FlagListener` and
-- `Weak<T>` itself. While there is an owner such a listener changes the value and is alive; when
-- there is none, it does nothing and is dead.
use nosy.Prelude.{ℕ, zero, suc, ◌≡◌, refl, sym, ap, ◌∙◌, Bool, true, false, List, [], ◌++◌, arith}
use nosy.Exec.{ok}
use nosy.Memory.{Place, Shared, shared}
use nosy.Listener.{Listener, IsLawful}
use nosy.Listener.Local.{IsLocal, local-IsLawful}

-- What a slice does to the allocation, when `absorb` is what it does to the value.
abbrev pub weak_update : {T M : Type 0} → (T → List M → T) → ℕ → T → List M → Shared T
weak_update absorb zero v ms = record { strong = 0; value = v }
weak_update absorb (suc n) v ms = record { strong = suc n; value = absorb v ms }

abbrev pub has_owner : ℕ → Bool
has_owner zero = false
has_owner (suc n) = true

abbrev pub owned : {T : Type 0} → Shared T → Bool
owned s = has_owner s.strong

pub record IsWeak {W L M T : Type 0} (lis : Listener W L M) (Inv : W → Type 0)
    (p : Place W (Shared T)) (Ready : T → Type 0) (absorb : T → List M → T) (l : L) : Type 0 where
  pub ready : (w : W) → Inv w → Ready (p.get w).value
  pub alive :
      (n : ℕ) (v : T) (ms : List M) (w : W)
      → Ready v
      → lis.receive l ms (p.put (shared p (suc n) v) w)
        ≡ (ok true, p.put (shared p (suc n) (absorb v ms)) w)
  pub gone :
      (v : T) (ms : List M) (w : W)
      → lis.receive l ms (p.put (shared p 0 v) w) ≡ (ok false, p.put (shared p 0 v) w)
  pub keeps :
      (ms : List M) (w : W)
      → Inv w
      → Inv (p.put (weak_update absorb (p.get w).strong (p.get w).value ms) w)
  pub empty : (v : T) → absorb v [] ≡ v
  pub batch : (v : T) (xs ys : List M) → absorb v (xs ++ ys) ≡ absorb (absorb v xs) ys

module _ {W L M T : Type 0} {lis : Listener W L M} {Inv : W → Type 0} {p : Place W (Shared T)}
    {Ready : T → Type 0} {absorb : T → List M → T} {l : L}
    (h : IsWeak lis Inv p Ready absorb l) where
  open p use {get, put}

  abbrev after : Shared T → List M → Shared T
  after s ms = weak_update absorb s.strong s.value ms

  receives-at :
      (n : ℕ) (v : T) (ms : List M) (w : W)
      → Ready v
      → lis.receive l ms (put (shared p n v) w)
        ≡ (ok (owned (shared p n v)), put (after (shared p n v) ms) w)
  receives-at zero v ms w r = h.gone v ms w
  receives-at (suc n) v ms w r = h.alive n v ms w r

  weak-receives :
      (ms : List M) (w : W)
      → Inv w
      → lis.receive l ms w ≡ (ok (owned (get w)), put (after (get w) ms) w)
  weak-receives ms w i =
      ap (lis.receive l ms) (sym (p.put-get w))
      ∙ receives-at (get w).strong (get w).value ms w (h.ready w i)

  after-empty : (n : ℕ) (v : T) → weak_update absorb n v [] ≡ shared p n v
  after-empty zero v = refl
  after-empty (suc n) v = ap (shared p (suc n)) (h.empty v)

  after-batch :
      (n : ℕ) (v : T) (xs ys : List M)
      → weak_update absorb n v (xs ++ ys) ≡ after (weak_update absorb n v xs) ys
  after-batch zero v xs ys = refl
  after-batch (suc n) v xs ys = ap (shared p (suc n)) (h.batch v xs ys)

  after-stays :
      (n : ℕ) (v : T) (ms : List M) → owned (weak_update absorb n v ms) ≡ owned (shared p n v)
  after-stays zero v ms = refl
  after-stays (suc n) v ms = refl

  after-dead :
      (n : ℕ) (v : T) (ms : List M)
      → owned (shared p n v) ≡ false
      → weak_update absorb n v ms ≡ shared p n v
  after-dead zero v ms e = refl
  after-dead (suc n) v ms e = grind arith

  pub weak-IsLocal : IsLocal lis Inv p after owned l
  weak-IsLocal = record {
    receives = weak-receives;
    keeps = h.keeps;
    empty = λ s. after-empty s.strong s.value;
    batch = λ s xs ys. after-batch s.strong s.value xs ys;
    stays = λ s ms. after-stays s.strong s.value ms;
    dead = λ s ms e. after-dead s.strong s.value ms e;
  }

  pub weak-IsLawful : IsLawful lis Inv l
  weak-IsLawful = local-IsLawful weak-IsLocal

-- A listener that receives as another one does.
module _ {W K L M T : Type 0} {lis : Listener W K M} {lis' : Listener W L M} {Inv : W → Type 0}
    {p : Place W (Shared T)} {Ready : T → Type 0} {absorb : T → List M → T} {k : K} where
  pub IsWeak-as :
      (l : L)
      → IsWeak lis Inv p Ready absorb k
      → ((ms : List M) (w : W) → lis'.receive l ms w ≡ lis.receive k ms w)
      → IsWeak lis' Inv p Ready absorb l
  IsWeak-as l h same = record {
    ready = h.ready;
    alive = λ n v ms w r. same ms _ ∙ h.alive n v ms w r;
    gone = λ v ms w. same ms _ ∙ h.gone v ms w;
    keeps = h.keeps;
    empty = h.empty;
    batch = h.batch;
  }
