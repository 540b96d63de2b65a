-- ===== src/Gate/Delivery.antt =====
-- What passes a gate: everything while it is held, and nothing once it is dropped.
use nosy.Prelude.{
  ◌⊎◌, ℕ, ◌≡◌, refl, sym, ap, ◌∙◌, Bool, true, false, List, [], ◌++◌, inl, inr, ltb, Bool-cases,
  if◌then◌else◌,
}
use nosy.Exec.{ok, ◌>>◌}
use nosy.Listener.{Listener, IsLawful}
use nosy.Memory.{Place, Shared, strong_count, shared, retain_lem, release_lem}
use nosy.Gate.{GateListener, receive, gate_listener, new, clone, drop}

module _ {W L M : Type 0} (lis : Listener W L M) (Inv : W → Type 0) (g : GateListener W L) where
  open g use {weak, target}

  pub receive_open :
      (ms : List M) (w : W)
      → ltb 0 (strong_count weak w) ≡ true
      → receive lis g ms w ≡ lis.receive target ms w
  unfolding receive
  receive_open ms w e = rw e

  pub receive_shut :
      (ms : List M) (w : W)
      → ltb 0 (strong_count weak w) ≡ false
      → receive lis g ms w ≡ (ok false, w)
  unfolding receive
  receive_shut ms w e = rw e

  gate_cases :
      (w : W) → (ltb 0 (strong_count weak w) ≡ true) ⊎ (ltb 0 (strong_count weak w) ≡ false)
  gate_cases w = Bool-cases (ltb 0 (strong_count weak w))

  -- A target that leaves the gate alone.
  abbrev pub LeavesGate : Type 0
  LeavesGate =
      (ms : List M) (w : W)
      → Inv w
      → strong_count weak (lis.receive target ms w).1 ≡ strong_count weak w

  module _ (h : IsLawful lis Inv target) (alone : LeavesGate) where
    gate-keeps : (ms : List M) (w : W) → Inv w → Inv (receive lis g ms w).1
    gate-keeps ms w i = elim (gate_cases w) [
      | inl e ↦ rw (receive_open ms w e) (h.keeps ms w i)
      | inr e ↦ rw (receive_shut ms w e) i
    ]

    gate-total :
        (ms : List M) (w : W) → Inv w → (alive : Bool) × ((receive lis g ms w).0 ≡ ok alive)
    gate-total ms w i = elim (gate_cases w) [
      | inl e ↦ rw (receive_open ms w e) (h.total ms w i)
      | inr e ↦ rw (receive_shut ms w e) (false, refl)
    ]

    gate-empty : (w : W) → Inv w → (receive lis g [] w).1 ≡ w
    gate-empty w i = elim (gate_cases w) [
      | inl e ↦ rw (receive_open [] w e) (h.empty w i)
      | inr e ↦ rw (receive_shut [] w e)
    ]

    still_open :
        (ms : List M) (w : W)
        → Inv w
        → ltb 0 (strong_count weak w) ≡ true
        → ltb 0 (strong_count weak (lis.receive target ms w).1) ≡ true
    still_open ms w i e = ap (ltb 0) (alone ms w i) ∙ e

    gate-batch :
        (xs ys : List M) (w : W)
        → Inv w
        → receive lis g (xs ++ ys) w ≡ (receive lis g xs >> receive lis g ys) w
    gate-batch xs ys w i = elim (gate_cases w) [
      | inl e ↦
          let (alive, q) = h.total xs w i in
          receive_open (xs ++ ys) w e
          ∙ h.batch xs ys w i
          ∙ rw (receive_open xs w e) (rw q (sym (receive_open ys _ (still_open xs w i e))))
      | inr e ↦ rw (receive_shut (xs ++ ys) w e, receive_shut xs w e) (sym (receive_shut ys w e))
    ]

    gate-dead :
        (xs : List M) (w : W)
        → Inv w
        → (receive lis g xs w).0 ≡ ok false
        → (ys : List M)
        → receive lis g ys (receive lis g xs w).1 ≡ (ok false, (receive lis g xs w).1)
    gate-dead xs w i gone ys = elim (gate_cases w) [
      | inl e ↦
          let gone' : (lis.receive target xs w).0 ≡ ok false =
            ap (λ r. r.0) (sym (receive_open xs w e)) ∙ gone in
          rw (receive_open xs w e)
            (receive_open ys _ (still_open xs w i e) ∙ h.dead xs w i gone' ys)
      | inr e ↦ rw (receive_shut xs w e) (receive_shut ys w e)
    ]

    -- A listener behind a gate keeps the requirements of `Listener` if its target does, and the
    -- target leaves the gate alone.
    pub gate_listener-IsLawful : IsLawful (gate_listener lis) Inv g
    gate_listener-IsLawful = record {
      keeps = gate-keeps;
      total = gate-total;
      empty = gate-empty;
      batch = gate-batch;
      dead = gate-dead;
    }

module _ {W L M : Type 0} (lis : Listener W L M) (p : Place W (Shared (Unit {0}))) (l : L) where
  open p use {put, get-put}

  receive_count :
      (n : ℕ) (ms : List M) (w : W)
      → receive lis (record { weak = p; target = l }) ms (put (shared p n tt) w) ≡ (
          if ltb 0 n
          then lis.receive l ms (put (shared p n tt) w)
          else (ok false, put (shared p n tt) w))
  unfolding receive
  receive_count n ms w =
      ap
        (λ (s : Shared (Unit {0})).
          if ltb 0 s.strong
          then lis.receive l ms (put (shared p n tt) w)
          else (ok false, put (shared p n tt) w))
        (get-put (shared p n tt) w)

  -- A gate from `Gate::new` lets everything through to its target, also when a clone of it is made
  -- and dropped again. When the last gate is dropped, the target is not called any more and the
  -- listener is dead.
  pub gate_lem :
      (ms : List M) (w : W)
      → (let (g, w') = new p l w in
          (receive lis g ms w' ≡ lis.receive l ms w')
          × (receive lis g ms (drop p (clone p w')) ≡ lis.receive l ms w')
          × (receive lis g ms (drop p w') ≡ (ok false, drop p w')))
  unfolding new drop clone
  gate_lem ms w = (
    receive_count 1 ms w,
    rw (retain_lem p 1 tt w) (rw (release_lem p 2 tt w) (receive_count 1 ms w)),
    rw (release_lem p 1 tt w) (receive_count 0 ms w),
  )
