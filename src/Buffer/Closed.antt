-- ===== src/Buffer/Closed.antt =====
-- A `Buffer` whose notifier has been closed.
use nosy.Prelude.{
  ℕ, suc, ◌+◌, ◌<◌, ◌≡◌, refl, sym, ap, ◌∙◌, true, false, List, [], ◌∷◌, ◌++◌, append_assoc,
  append-nil, length, length-append, arith, ◌==◌,
}
use nosy.Exec.{Exec, ok, panic, closed, ◌>>◌}
use nosy.Listener.{Listener}
use nosy.Memory.{Place}
use nosy.ArrayVec.{ArrayVec}
use nosy.Notifier.Locked
use nosy.Notifier.Locked.{Notifier}
use nosy.Notifier.Shared.{closed_idle, notify_many-closed}
use nosy.Buffer.{flush, push, push_all, drop}

equal_false : (a b : ℕ) → a < b → (a == b) ≡ false
equal_false a b h = ground arith

equal_true : (a b : ℕ) → a ≡ b → (a == b) ≡ true
equal_true a b h = ground arith

not_zero : (a : ℕ) → 0 < a → (a == 0) ≡ false
not_zero a h = ground arith

-- In the state `s`, sending anything panics and changes nothing.
module _ {S M Buf : Type 0} {capacity : ℕ} (av : ArrayVec Buf M capacity)
    (notify_many : List M → Exec S (Unit {0})) (s : S)
    (gone : (ms : List M) → notify_many ms s ≡ (panic closed, s)) where
  open av use {as_slice}

  flush_panic : (b : Buf) → flush av notify_many (b, s) ≡ (panic closed, (b, s))
  unfolding flush
  flush_panic b = rw (gone (as_slice b), flush) (rw (gone (as_slice b)) refl)

  push_room :
      (b : Buf) (m : M)
      → suc (length (as_slice b)) < capacity
      → (b' : Buf) × (push av notify_many m (b, s) ≡ (ok tt, (b', s)))
        × (as_slice b' ≡ as_slice b ++ m ∷ [])
  unfolding push
  push_room b m h =
      let (b', e, f) =
        av.push_room b m
          (av.is_full_lem b ∙ equal_false (length (as_slice b)) capacity (omega arith)) in
      let room =
        av.is_full_lem b'
        ∙ equal_false (length (as_slice b')) capacity
            (omega (arith, ap length f, length-append (as_slice b) (m ∷ []))) in
      (b', rw (e, push) (rw room refl), f)

  push_last :
      (b : Buf) (m : M)
      → suc (length (as_slice b)) ≡ capacity
      → (b' : Buf) × (push av notify_many m (b, s) ≡ (panic closed, (b', s)))
        × (as_slice b' ≡ as_slice b ++ m ∷ [])
  unfolding push
  push_last b m h =
      let (b', e, f) =
        av.push_room b m
          (av.is_full_lem b ∙ equal_false (length (as_slice b)) capacity (omega arith)) in
      let full =
        av.is_full_lem b'
        ∙ equal_true (length (as_slice b')) capacity
            (omega (arith, ap length f, length-append (as_slice b) (m ∷ []))) in
      (b', rw (e, push) (rw full (flush_panic b')), f)

  -- What is pushed while there is room is kept, and nothing is noticed.
  filled :
      (ms : List M) (b : Buf)
      → length (as_slice b) + length ms < capacity
      → (b' : Buf) × (push_all av notify_many ms (b, s) ≡ (ok tt, (b', s)))
        × (as_slice b' ≡ as_slice b ++ ms)
  unfolding push_all
  filled [] b h = (b, refl, sym (append-nil (as_slice b)))
  filled (m ∷ ms) b h =
      let (b', e, f) = push_room b m (omega arith) in
      let (b'', e', f') =
        filled ms b' (omega (arith, ap length f, length-append (as_slice b) (m ∷ []))) in
      (b'', rw e e', f' ∙ ap (λ xs. xs ++ ms) f ∙ append_assoc (as_slice b) (m ∷ []) ms)

  drop_panic :
      (b : Buf) → 0 < length (as_slice b) → drop av notify_many (b, s) ≡ (panic closed, (b, s))
  unfolding drop
  drop_panic b h = rw (av.is_empty_lem b ∙ not_zero (length (as_slice b)) h) (flush_panic b)

-- A `Buffer` whose notifier has been closed, and is not held, takes messages until it is full. The
-- push that fills it panics and leaves all of them in it, so that the drop of the buffer, in the
-- unwinding of that panic, panics once more.
pub closed_buffer_lem :
    {W L M Buf : Type 0} {capacity : ℕ} (lis : Listener W L M) (p : Place W (Notifier L))
    (av : ArrayVec Buf M capacity) (ms : List M) (m : M) (w : W)
    → suc (length ms) ≡ capacity
    → (let s = p.put (closed_idle lis p) w in
        let notify_many = Locked.notify_many lis p in
        (b : Buf) × ((push_all av notify_many ms >> push av notify_many m) (av.new, s)
          ≡ (panic closed, (b, s)))
        × (av.as_slice b ≡ ms ++ m ∷ [])
        × (drop av notify_many (b, s) ≡ (panic closed, (b, s))))
closed_buffer_lem lis p av ms m w h =
    let s = p.put (closed_idle lis p) w in
    let send = Locked.notify_many lis p in
    let gone : (xs : List _) → send xs s ≡ (panic closed, s) =
      λ xs. notify_many-closed lis p xs w in
    let fresh = ap length av.as_slice-new in
    let (b, e, f) = filled av send s gone ms av.new (omega (arith, fresh)) in
    let slice = f ∙ ap (λ xs. xs ++ ms) av.as_slice-new in
    let (b', e', f') = push_last av send s gone b m (omega (arith, ap length slice)) in
    let all = f' ∙ ap (λ xs. xs ++ m ∷ []) slice in
    (
      b',
      rw e e',
      all,
      drop_panic av send s gone b' (omega (arith, ap length all, length-append ms (m ∷ []))),
    )
