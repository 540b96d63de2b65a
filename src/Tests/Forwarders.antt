-- ===== src/Tests/Forwarders.antt =====
-- Forwarders, and listeners that are converted when they are added.
use nosy.Prelude.{ℕ, ◌≡◌, refl, true, false, [], ◌∷◌}
use nosy.Exec.{ok, panic, closed}
use nosy.Listener.{Listener}
use nosy.Convert.{FromListener, Keeps}
use nosy.Notifier.Locked
use nosy.Notifier.Delivery.{marked, world}
use nosy.Notifier.Forwarder.{forward_lem, opened_at}
use nosy.Gate
use nosy.Gate.{GateListener}
use nosy.Flatten.Wiring.{inner_listener}
use nosy.Flatten.Forwarding.{behind, inner_listener_lem}
use nosy.Tests.World.{
  World, Which, to_log, hub_place, gate_place, listeners, receive_at, Free, two, start,
  two-AllLawful, two-AllApart, two-AllOutside_hub,
}

abbrev lis : Listener (World ℕ) Which ℕ
lis = listeners

abbrev here : World ℕ
here = start

abbrev closed_notifier : Locked.Notifier Which
closed_notifier = record { readers = 0; writing = false; value = Locked.shut }

abbrev owned : ℕ → World ℕ
owned n = hub_place.put (record { strong = n; value = closed_notifier }) here

forward_lem_example :
    (Locked.forward lis hub_place [] (owned 1) ≡ (panic closed, owned 1))
    × (Locked.forward lis hub_place [] (owned 0) ≡ (ok false, owned 0))
forward_lem_example = forward_lem lis hub_place 0 closed_notifier [] here

-- A listener of the log alone, which is converted to one of the log or the flag.
abbrev log_only : Listener (World ℕ) (Unit {0}) ℕ
log_only = record { receive = λ l. receive_at to_log }

abbrev any_listener : FromListener log_only lis
any_listener = record { from_listener = λ l. to_log }

any_listener-Keeps : Keeps any_listener
any_listener-Keeps = record { same = λ l ms w. refl }

-- A `Flatten` with the hub as its notifier.
abbrev changes : Listener (World (Unit {0})) Which (Unit {0})
changes = listeners

abbrev flattened : World (Unit {0})
flattened = opened_at changes Free hub_place (λ s w i. i) 1 two start

abbrev inner : GateListener (World (Unit {0})) (Unit {0})
inner = behind changes Free hub_place (λ s w i. i) gate_place

inner_listener_lem_example :
    ((inner_listener changes hub_place).receive inner (tt ∷ []) flattened ≡ (
      ok true,
      opened_at changes Free hub_place
          (λ s w i. i)
          1
          (record two { listeners = marked changes two.listeners (tt ∷ []) start })
          (world changes two.listeners (tt ∷ []) start),
    ))
    × ((inner_listener changes hub_place).receive inner (tt ∷ []) (Gate.drop gate_place flattened)
        ≡ (ok false, Gate.drop gate_place flattened))
inner_listener_lem_example =
    inner_listener_lem changes Free hub_place (λ s w i. i) gate_place 0 two (tt ∷ []) start refl
      refl two-AllLawful two-AllApart two-AllOutside_hub
