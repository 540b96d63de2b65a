-- ===== src/Tests/Notifiers.antt =====
-- The notifier with a log and a flag as its listeners.
use mathlib.Core.List.{Perm}
use nosy.Prelude.{ℕ, suc, ◌≡◌, refl, true, false, List, [], ◌∷◌, ◌++◌, arith, All}
use nosy.Exec.{ok, ◌>>◌}
use nosy.Listener.{Listener}
use nosy.Notifier.Raw
use nosy.Notifier.Raw.{NotifierEntry, RawNotifier, drop_dead_listeners}
use nosy.Notifier.Delivery.{marked, world, notify_many_lem}
use nosy.Notifier.Slices.{notify_many-append}
use nosy.Notifier.DropDead.{live, stays, drop_dead_listeners_lem}
use nosy.Notifier.Listen.{listen_raw_growth}
use nosy.Notifier.Locked
use nosy.Notifier.Shared.{idle, notify_many-opened}
use nosy.Tests.World.{
  World, Which, to_log, to_flag, notifier_place, listeners, receive_at, Free, lawful, two, start,
  two-AllLawful, two-AllApart, two-AllOutside,
}

abbrev lis : Listener (World ℕ) Which ℕ
lis = listeners

abbrev here : World ℕ
here = start

-- An entry whose bit has been cleared, between the two others.
abbrev three : RawNotifier Which
three = record {
  listeners =
      record { listener = to_log; was_alive = true }
      ∷ record { listener = to_log; was_alive = false }
      ∷ record { listener = to_flag; was_alive = true }
      ∷ [];
  capacity = 3;
}

notify_many_lem_example : Raw.notify_many lis (5 ∷ 6 ∷ []) (two, here) ≡ (
  ok tt,
  (
    record two { listeners = marked listeners two.listeners (5 ∷ 6 ∷ []) here },
    world listeners two.listeners (5 ∷ 6 ∷ []) here,
  ),
)
notify_many_lem_example =
    notify_many_lem listeners Free two (5 ∷ 6 ∷ []) here refl two-AllLawful two-AllApart

-- What that world is.
world_test : world listeners two.listeners (5 ∷ 6 ∷ []) here ≡ record here {
  log = record { strong = 1; value = record { locked = false; value = 5 ∷ 6 ∷ [] } };
  flag = record { strong = 1; value = true };
}
unfolding receive_at
world_test = refl

notify_many-append_example :
    Raw.notify_many lis ((5 ∷ []) ++ (6 ∷ [])) (two, here)
    ≡ (Raw.notify_many lis (5 ∷ []) >> Raw.notify_many lis (6 ∷ [])) (two, here)
notify_many-append_example =
    notify_many-append listeners Free two (5 ∷ []) (6 ∷ []) here refl two-AllLawful two-AllApart

drop_dead_listeners_lem_example :
    (es : List (NotifierEntry Which)) × (drop_dead_listeners listeners (three, here)
      ≡ (ok tt, (record three { listeners = es }, here)))
    × All (λ e. stays listeners e here ≡ true) es
    × Perm es (live listeners here three.listeners)
drop_dead_listeners_lem_example =
    drop_dead_listeners_lem listeners Free three here refl
      (lawful to_log, (lawful to_log, (lawful to_flag, tt)))

grown : (Raw.listen_raw listeners suc to_log (two, here)).1.0.capacity ≡ 3
unfolding Raw.listen_raw receive_at
grown = refl

listen_raw_growth_example : All (λ e. stays listeners e here ≡ true) two.listeners
listen_raw_growth_example =
    listen_raw_growth listeners Free suc to_log two here refl (lawful to_log) two-AllLawful
      (record { fits = omega arith }) (λ e. absurd (omega (arith, e, grown)))

notify_many-opened_example :
    Locked.notify_many lis notifier_place
      (5 ∷ [])
      (notifier_place.put (idle lis notifier_place two) here)
    ≡ (
      ok tt,
      notifier_place.put
          (idle lis notifier_place
            (record two { listeners = marked listeners two.listeners (5 ∷ []) here }))
          (world listeners two.listeners (5 ∷ []) here),
    )
notify_many-opened_example =
    notify_many-opened listeners Free notifier_place (λ s w i. i) two (5 ∷ []) here refl
      two-AllLawful two-AllApart two-AllOutside

-- The world in the middle of a delivery.
abbrev busy : World ℕ
busy = record here { notifier = record { readers = 1; writing = false; value = Locked.opened two } }
