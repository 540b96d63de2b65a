-- ===== src/Exec.antt =====
-- How effects are modelled: a method takes the state of the world and returns its result, or
-- the panic that ended it, with the state that it left behind. A panic keeps what was written
-- before it.

use nosy.Prelude.{◌≡◌, refl, ◌⊎◌, inl, inr}

-- The panics of the library's own code, and of the locks and buffers that it calls.
pub data Panic : Type 0 where
  closed : Panic
  lock_conflict : Panic
  buffer_full : Panic
  already_done : Panic

pub data Result {ℓ} (A : Type ℓ) : Type ℓ where
  ok : A → Result A
  panic : Panic → Result A

abbrev pub Exec {ℓ κ} : Type ℓ → Type κ → Type (ℓ ⊔ κ)
Exec W A = W → Result A × W

module _ {ℓ κ} {W : Type ℓ} {A : Type κ} where
  abbrev pub pure : A → Exec W A
  pure a w = (ok a, w)

  abbrev pub raise : Panic → Exec W A
  raise p w = (panic p, w)

module _ {ℓ κ ν} {W : Type ℓ} {A : Type κ} {B : Type ν} where
  abbrev pub continue : Result A → (A → Exec W B) → Exec W B
  continue (ok a) f w = f a w
  continue (panic p) f w = (panic p, w)

  infixl 10 ◌>>=◌ ◌>>◌
  abbrev pub ◌>>=◌ : Exec W A → (A → Exec W B) → Exec W B
  ◌>>=◌ m f w = continue (m w).0 f (m w).1

  abbrev pub ◌>>◌ : Exec W A → Exec W B → Exec W B
  m >> n = m >>= λ _. n

-- To split on how a call ended and keep the equation.
pub Result-cases {ℓ} :
    {A : Type ℓ} (r : Result A) → ((a : A) × (r ≡ ok a)) ⊎ ((e : Panic) × (r ≡ panic e))
Result-cases (ok a) = inl (a, refl)
Result-cases (panic e) = inr (e, refl)
