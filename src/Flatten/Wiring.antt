-- ===== src/Flatten/Wiring.antt =====
-- src/source/flatten.rs: `Flatten` over a source of sources. Its listeners are in a notifier of its
-- own, which two listeners notify: one at the outer source, and one behind a gate at the inner
-- source that was last read.
use nosy.Prelude.{ℕ}
use nosy.Exec.{Exec, pure, ◌>>◌}
use nosy.Listener.{Listener}
use nosy.Memory.{Place, Shared, inside}
use nosy.Convert.{FromListener}
use nosy.Gate
use nosy.Gate.{GateListener, gate_listener}
use nosy.Notifier.Locked
use nosy.Notifier.Locked.{Notifier, forwarder}
use nosy.Source.{Source}
use nosy.Flatten
use nosy.Flatten.{Inner, new_inner, outer_receive}

-- The notifier is at `n`, in an allocation of its own.
module _ {W L : Type 0} (lis : Listener W L (Unit {0})) (n : Place W (Shared (Notifier L))) where
  -- `OuterListener`, a weak reference to the `Flatten` at `p`.
  abbrev pub outer_listener :
      {S G : Type 0} → Place W (Shared (Inner S G)) → Listener W (Unit {0}) (Unit {0})
  outer_listener p = record { receive = λ l. outer_receive p (Locked.notify lis (inside n) tt) }

  -- `InnerListener`
  abbrev pub inner_listener : Listener W (GateListener W (Unit {0})) (Unit {0})
  inner_listener = gate_listener (forwarder lis n)

  -- `Flatten::new`, at a place for the new allocation.
  unfoldable pub new :
      {S G K : Type 0} {to : Listener W K (Unit {0})} (p : Place W (Shared (Inner S G)))
      → Source W S to
      → FromListener (outer_listener p) to
      → Exec W (Unit {0})
  unfolding new_inner Locked.new
  new p source_of_source f w = source_of_source.listen f tt (
      p.put (record { strong = 1; value = new_inner })
        (n.put (record { strong = 1; value = Locked.new }) w))

  unfoldable pub listen_raw : (ℕ → ℕ) → L → Exec W (Unit {0})
  unfolding Locked.listen_raw inside
  listen_raw grow listener = Locked.listen_raw lis (inside n) grow listener

  unfoldable pub listen :
      {K : Type 0} {from : Listener W K (Unit {0})}
      → (ℕ → ℕ)
      → FromListener from lis
      → K
      → Exec W (Unit {0})
  unfolding Locked.listen inside
  listen {from = from} grow f listener =
      Locked.listen lis (inside n) from f.from_listener grow listener

-- A gate is a handle to its allocation, which is at the place `gate_place` gives; which one a new
-- gate gets is what the world says.
module _ {W S V G L K : Type 0} (lis : Listener W L (Unit {0})) (n : Place W (Shared (Notifier L)))
    {to : Listener W K (Unit {0})} (inner : S → Source W V to)
    (f : FromListener (inner_listener lis n) to) (gate_place : G → Place W (Shared (Unit {0})))
    (new_gate : W → G) where
  -- A forwarder behind a new gate listens to the inner source.
  unfoldable pub subscribe : S → Exec W G
  unfolding Gate.new
  subscribe source w =
      let gate = new_gate w in
      let made = Gate.new (gate_place gate) tt w in
      (do (inner source).listen f made.0; pure gate) made.1

  -- The `Flatten` itself, whose state is at `q`.
  unfoldable pub flatten_source :
      {J : Type 0} {outer : Listener W J (Unit {0})}
      → Place W (Inner S G)
      → (ℕ → ℕ)
      → Source W S outer
      → Source W V lis
  unfolding Flatten.get subscribe Gate.drop listen_raw listen
  flatten_source q grow source_of_source = record {
    get =
        Flatten.get q source_of_source.get subscribe (λ g. Gate.drop (gate_place g))
          (λ s. (inner s).get);
    listen_raw = listen_raw lis n grow;
    listen = λ c. listen lis n grow c;
  }
