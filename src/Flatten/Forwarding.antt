-- ===== src/Flatten/Forwarding.antt =====
-- What comes through from an inner source of a `Flatten`.
use nosy.Prelude.{ℕ, suc, ◌≡◌, ap, ◌∙◌, List, true, false, ltb, arith}
use nosy.Exec.{ok}
use nosy.Listener.{Listener}
use nosy.Memory.{Place, Shared, strong_count, release}
use nosy.Gate
use nosy.Gate.{GateListener}
use nosy.Gate.Delivery.{receive_open, receive_shut}
use nosy.Notifier.Raw.{RawNotifier}
use nosy.Notifier.Locked.{Notifier, forwarder}
use nosy.Notifier.Delivery.{AllLawful, AllApart, world, marked}
use nosy.Notifier.Outside.{AllOutside}
use nosy.Notifier.Forwarder.{opened_at, forward-opened}
use nosy.Flatten.Wiring.{inner_listener}

module _ {W L : Type 0} (lis : Listener W L (Unit {0})) (Inv : W → Type 0)
    (n : Place W (Shared (Notifier L)))
    (unaffected : (s : Shared (Notifier L)) (w : W) → Inv w → Inv (n.put s w))
    (gate : Place W (Shared (Unit {0}))) where
  -- The listener at the inner source, behind the gate.
  abbrev pub behind : GateListener W (Unit {0})
  behind = record { weak = gate; target = tt }

  -- The last drop of a gate.
  dropped : (w : W) → strong_count gate w ≡ 1 → strong_count gate (Gate.drop gate w) ≡ 0
  unfolding Gate.drop release
  dropped w c = ap (λ (s : Shared (Unit {0})). s.strong) (gate.get-put _ w) ∙ omega (arith, c)

  -- A message from the inner source of a `Flatten`, whose notifier is open, has an owner and is not
  -- held, and whose listeners keep the requirements, do not touch each other and do not reach back
  -- into the notifier, is delivered to each of these listeners once; when the one gate has been
  -- dropped, none comes through and the listener at the inner source is dead.
  pub inner_listener_lem :
      (k : ℕ) (raw : RawNotifier L) (ms : List (Unit {0})) (w : W)
      → strong_count gate (opened_at lis Inv n unaffected (suc k) raw w) ≡ 1
      → Inv w
      → AllLawful lis Inv raw.listeners
      → AllApart lis Inv raw.listeners
      → AllOutside lis n raw.listeners
      → (let before = opened_at lis Inv n unaffected (suc k) raw w in
          ((inner_listener lis n).receive behind ms before ≡ (
            ok true,
            opened_at lis Inv n unaffected
                (suc k)
                (record raw { listeners = marked lis raw.listeners ms w })
                (world lis raw.listeners ms w),
          ))
          × ((inner_listener lis n).receive behind ms (Gate.drop gate before)
              ≡ (ok false, Gate.drop gate before)))
  inner_listener_lem k raw ms w c i h a o =
      let before = opened_at lis Inv n unaffected (suc k) raw w in
      (
        receive_open (forwarder lis n) Inv behind ms before (ap (ltb 0) c)
            ∙ forward-opened lis Inv n unaffected k raw ms w i h a o,
        receive_shut (forwarder lis n) Inv behind ms (Gate.drop gate before)
            (ap (ltb 0) (dropped before c)),
      )
