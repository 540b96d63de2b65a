-- ===== src/Listener.antt =====
-- src/listener.rs: the trait `Listener`, and the requirements that its documentation sets out for
-- implementors.
pub mod Local
pub mod Weak
use nosy.Prelude.{◌≡◌, Bool, false, List, [], ◌++◌}
use nosy.Exec.{Exec, Result, ok, panic, ◌>>◌}

-- What `Listener<M>` asks of a type `L`: `receive`, with whatever it changes in the world.
pub record Listener (W L M : Type 0) : Type 0 where
  pub receive : L → List M → Exec W Bool

abbrev pub answered : Result Bool → Bool
answered (ok alive) = alive
answered (panic p) = false

-- `Inv` is what holds of the world when messages are sent, such as that nobody holds the lock of a
-- listener's own state.
module _ {W L M : Type 0} (lis : Listener W L M) (Inv : W → Type 0) where
  open lis use {receive}

  -- The requirements of `Listener::receive()` on one listener:
  -- it does not panic; an empty slice has no effect; a slice is processed like its parts, one
  -- after the other; and once it has answered `false`, no message has an effect any more.
  pub record IsLawful (l : L) : Type 0 where
    pub keeps : (ms : List M) (w : W) → Inv w → Inv (receive l ms w).1
    pub total : (ms : List M) (w : W) → Inv w → (alive : Bool) × ((receive l ms w).0 ≡ ok alive)
    pub empty : (w : W) → Inv w → (receive l [] w).1 ≡ w
    pub batch :
        (xs ys : List M) (w : W) → Inv w → receive l (xs ++ ys) w ≡ (receive l xs >> receive l ys) w
    pub dead :
        (xs : List M) (w : W)
        → Inv w
        → (receive l xs w).0 ≡ ok false
        → (ys : List M) → receive l ys (receive l xs w).1 ≡ (ok false, (receive l xs w).1)

  -- Two listeners keep their state apart: what one receives changes nothing for the other.
  pub record Independent (k l : L) : Type 0 where
    pub swap :
        (xs ys : List M) (w : W)
        → Inv w
        → (receive l ys (receive k xs w).1).1 ≡ (receive k xs (receive l ys w).1).1
    pub left :
        (xs ys : List M) (w : W) → Inv w → (receive k xs (receive l ys w).1).0 ≡ (receive k xs w).0
    pub right :
        (xs ys : List M) (w : W) → Inv w → (receive l ys (receive k xs w).1).0 ≡ (receive l ys w).0
