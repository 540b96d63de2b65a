-- ===== src/ArrayVec.antt =====
-- The `ArrayVec<M, CAPACITY>` of the crate `arrayvec`, as far as `Filter`, `Buffer` and `RawBuffer`
-- call it. The crate is not part of the repository, so it is a parameter: its operations, with
-- what its documentation says of them.
use nosy.Prelude.{ℕ, ◌≡◌, Bool, true, false, List, [], ◌∷◌, ◌++◌, length, ◌==◌}
use nosy.Exec.{Result, ok, panic, buffer_full}

pub record ArrayVec (Buf M : Type 0) (capacity : ℕ) : Type 0 where
  pub new : Buf
  pub push : Buf → M → Result Buf
  pub is_full : Buf → Bool
  pub is_empty : Buf → Bool
  pub clear : Buf → Buf
  pub as_slice : Buf → List M
  pub as_slice-new : as_slice new ≡ []
  pub as_slice-clear : (b : Buf) → as_slice (clear b) ≡ []
  pub is_full_lem : (b : Buf) → is_full b ≡ (length (as_slice b) == capacity)
  pub is_empty_lem : (b : Buf) → is_empty b ≡ (length (as_slice b) == 0)
  pub push_full : (b : Buf) (m : M) → is_full b ≡ true → push b m ≡ panic buffer_full
  pub push_room :
      (b : Buf) (m : M)
      → is_full b ≡ false
      → (b' : Buf) × (push b m ≡ ok b') × (as_slice b' ≡ as_slice b ++ m ∷ [])
