-- ===== src/Gate.antt =====
-- src/gate.rs: `Gate` and `GateListener`. The gate is an allocation of nothing at a place of the
-- world, and a listener behind it is a weak reference to it with its target.
pub mod Delivery
use nosy.Prelude.{ℕ, ◌+◌, Bool, true, false, List, ltb, if◌then◌else◌}
use nosy.Exec.{Exec, ok}
use nosy.Listener.{Listener}
use nosy.Memory.{Place, Shared, strong_count, retain, release}

pub record GateListener (W L : Type 0) : Type 0 where
  pub weak : Place W (Shared (Unit {0}))
  pub target : L

-- `Gate::new`: the allocation, and the listener.
unfoldable pub new : {W L : Type 0} → Place W (Shared (Unit {0})) → L → W → GateListener W L × W
new p listener w =
    (record { weak = p; target = listener }, p.put (record { strong = 1; value = tt }) w)

-- `Gate::clone` and the drop of a gate.
module _ {W : Type 0} (p : Place W (Shared (Unit {0}))) where
  unfoldable pub clone : W → W
  unfolding retain
  clone = retain p

  unfoldable pub drop : W → W
  unfolding release
  drop = release p

-- `GateListener::receive`
module _ {W L M : Type 0} (lis : Listener W L M) where
  unfoldable pub receive : GateListener W L → List M → Exec W Bool
  receive l messages w =
      if ltb 0 (strong_count l.weak w) then lis.receive l.target messages w else (ok false, w)

  abbrev pub gate_listener : Listener W (GateListener W L) M
  gate_listener = record { receive = receive }
