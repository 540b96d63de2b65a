-- ===== src/Filter.antt =====
-- src/filter.rs: `Filter`, a listener that maps and discards messages before it passes them on.
pub mod Batches
use nosy.Prelude.{
  ℕ, Bool, true, false, Option, none, some, List, [], ◌∷◌, ◌++◌, if◌then◌else◌, ◌==◌,
}
use nosy.Exec.{Exec, Result, ok, panic, pure, ◌>>=◌, ◌>>◌}
use nosy.Listener.{Listener}
use nosy.ArrayVec.{ArrayVec}

-- What the filter function makes of a slice, in order.
unfoldable pub filter_map {ℓ κ} : {A : Type ℓ} {B : Type κ} → (A → Option B) → List A → List B
filter_map f [] = []
filter_map f (x ∷ xs) = elim (f x) [ none ↦ filter_map f xs | some y ↦ y ∷ filter_map f xs ]

pub record Filter (MI MO T : Type 0) : Type 0 where
  pub function : MI → Option MO
  pub target : T

-- `Listener::filter`
unfoldable pub filter : {MI MO T : Type 0} → T → (MI → Option MO) → Filter MI MO T
filter target function = record { function = function; target = target }

-- A larger batch is another buffer at `receive`, and the same filter.
unfoldable pub with_stack_buffer : {MI MO T : Type 0} → Filter MI MO T → Filter MI MO T
with_stack_buffer f = record { function = f.function; target = f.target }

module _ {W T MO Buf : Type 0} {batch : ℕ} (target : Listener W T MO)
    (av : ArrayVec Buf MO batch) where
  open target use {receive as deliver}
  open av use {is_full, clear, as_slice}

  -- The buffer, emptied to the target if it is full; `none` if the target is dead by then.
  unfoldable pub make_room : T → Buf → Exec W (Option Buf)
  make_room t buffer w =
      if is_full buffer
      then (do
        alive ← deliver t (as_slice buffer)
        pure (if alive then some (clear buffer) else none))
          w
      else (ok (some buffer), w)

module _ {W T MI MO : Type 0} (target : Listener W T MO) where
  open target use {receive as deliver}

  -- The branch for a message type of size zero: the whole batch at once. (The loop that pushes the
  -- messages that pass is `filter_map`.)
  unfoldable pub receive_zst : Filter MI MO T → List MI → Exec W Bool
  unfolding filter_map
  receive_zst f messages = deliver f.target (filter_map f.function messages)

  module _ {Buf : Type 0} {batch : ℕ} (av : ArrayVec Buf MO batch) where
    open av use {new, push, as_slice}

    -- The loop over the messages. `none` is the early return.
    unfoldable pub filter_loop : Filter MI MO T → List MI → Buf → Exec W (Option Buf)
    unfolding make_room
    filter_loop f [] buffer = pure (some buffer)
    filter_loop f (m ∷ messages) buffer =
        let rest = filter_loop f messages in
        elim (f.function m) [
          | none ↦ rest buffer
          | some filtered ↦ (do
            room ← make_room target av f.target buffer
            elim room [
              | none ↦ pure none
              | some emptied ↦ (λ w. elim (push emptied filtered) [
                | panic p ↦ (panic p, w)
                | ok pushed ↦ rest pushed w
              ])
            ])
        ]

    unfoldable pub receive_buffered : Filter MI MO T → List MI → Exec W Bool
    unfolding filter_loop
    receive_buffered f messages = do
      looped ← filter_loop f messages new
      elim looped [ none ↦ pure false | some buffer ↦ deliver f.target (as_slice buffer) ]

    -- `size_of_mo` is the size of the type `MO` of the messages that the filter passes on.
    unfoldable pub receive : ℕ → Filter MI MO T → List MI → Exec W Bool
    unfolding receive_zst receive_buffered
    receive size_of_mo f messages =
        if size_of_mo == 0 then receive_zst f messages else receive_buffered f messages
