-- ===== src/Notifier/Concurrent/Bits.antt =====
-- The bits of a list of entries, and the Boolean algebra of joining to them.
use nosy.Prelude.{
  ℕ, zero, suc, ◌<◌, ◌≡◌, refl, sym, ap, ◌∙◌, Bool, true, false, ◌&&◌, List, [], ◌∷◌, ◌==◌,
  if◌then◌else◌, length, arith,
}
use nosy.Notifier.Raw.{NotifierEntry}
use nosy.Notifier.Concurrent.{fetch_and}

-- `alive`, if the entry `i` is the one asked about, `k`.
abbrev pub about : ℕ → ℕ → Bool → Bool
about k i alive = if i == k then alive else true

-- The bit of the entry at an index.
abbrev pub bit : {L : Type 0} → ℕ → List (NotifierEntry L) → Bool
bit k [] = true
bit zero (e ∷ es) = e.was_alive
bit (suc k) (e ∷ es) = bit k es

pub and_true : (b : Bool) → b && true ≡ b
and_true true = refl
and_true false = refl

pub and_assoc : (a b c : Bool) → (a && b) && c ≡ a && (b && c)
and_assoc true b c = refl
and_assoc false b c = refl

-- To join one more thread, which has no part in a turn, on either side.
pub join_first :
    (a p b q h r : Bool) → a && p ≡ (b && q) && h → a && (p && r) ≡ (b && (q && r)) && h
join_first a p b q h true e = rw (and_true p, and_true q) e
join_first a p b q h false e = ground (arith)

pub join_rest : (a p b q h r : Bool) → a && p ≡ (b && q) && h → a && (r && p) ≡ (b && (r && q)) && h
join_rest a p b q h true e = e
join_rest a p b q h false e = ground (arith)

pub about-true : (k i : ℕ) → about k i true ≡ true
about-true k i = ground arith

about-suc : (k i : ℕ) (b : Bool) → about k i b ≡ about (suc k) (suc i) b
about-suc k i b = ground arith

module _ {L : Type 0} where
  pub length-fetch_and :
      (i : ℕ) (alive : Bool) (es : List (NotifierEntry L))
      → length (fetch_and i alive es) ≡ length es
  unfolding fetch_and
  length-fetch_and i alive [] = refl
  length-fetch_and zero alive (e ∷ es) = refl
  length-fetch_and (suc i) alive (e ∷ es) = ap suc (length-fetch_and i alive es)

  pub bit-fetch_and :
      (k i : ℕ) (alive : Bool) (es : List (NotifierEntry L))
      → k < length es
      → bit k (fetch_and i alive es) ≡ bit k es && about k i alive
  unfolding fetch_and
  bit-fetch_and k i alive [] h = absurd (omega arith)
  bit-fetch_and zero zero alive (e ∷ es) h = refl
  bit-fetch_and zero (suc i) alive (e ∷ es) h =
      let other : about 0 (suc i) alive ≡ true = ground arith in
      rw other (sym (and_true e.was_alive))
  bit-fetch_and (suc k) zero alive (e ∷ es) h =
      let other : about (suc k) 0 alive ≡ true = ground arith in
      rw other (sym (and_true (bit k es)))
  bit-fetch_and (suc k) (suc i) alive (e ∷ es) h =
      bit-fetch_and k i alive es (omega arith) ∙ ap (◌&&◌ (bit k es)) (about-suc k i alive)
