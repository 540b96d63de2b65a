-- ===== src/Tests/Sources.antt =====
-- `Flatten` over a cell that holds numbers, each of which is a constant source of ten times itself.
use nosy.Prelude.{
  none, some, ℕ, suc, ◌*◌, ltb, ◌≡◌, refl, true, false, Bool, Option, if◌then◌else◌, [], ◌∷◌,
}
use nosy.Exec.{ok}
use nosy.Listener.{Listener}
use nosy.Memory.{Place, Shared, Apart, release}
use nosy.Gate
use nosy.MaybeSync.{new_rw_lock}
use nosy.LoadStore
use nosy.SimpleListeners.{flag_receive}
use nosy.Notifier.Locked.{Notifier, opened}
use nosy.Cell.Sources.{as_source}
use nosy.Source.{Source}
use nosy.Source.Constant.{constant_source}
use nosy.Flatten.{State, Inner, new_inner}
use nosy.Flatten.Wiring.{inner_listener, outer_listener, flatten_source}
use nosy.Flatten.Reading.{at, kept, after_changes}
use nosy.Flatten.Values.{get_lem}

-- The `Flatten` with its notifier and a flag that listens to it, the outer cell, and two gates.
pub record World : Type 0 where
  pub flatten : Shared (Inner ℕ Bool)
  pub hub : Shared (Notifier (Unit {0}))
  pub flag : Shared Bool
  pub outer : ℕ
  pub watchers : Notifier (Unit {0})
  pub gate : Shared (Unit {0})
  pub other_gate : Shared (Unit {0})

abbrev flatten_place : Place World (Shared (Inner ℕ Bool))
flatten_place = record {
  get = λ w. w.flatten;
  put = λ s w. record w { flatten = s };
  get-put = λ s w. refl;
  put-get = λ w. refl;
  put-put = λ s t w. refl;
}

abbrev inner_place : Place World (Inner ℕ Bool)
inner_place = record {
  get = λ w. w.flatten.value;
  put = λ i w. record w { flatten = record { strong = w.flatten.strong; value = i } };
  get-put = λ s w. refl;
  put-get = λ w. refl;
  put-put = λ s t w. refl;
}

abbrev hub_place : Place World (Shared (Notifier (Unit {0})))
hub_place = record {
  get = λ w. w.hub;
  put = λ s w. record w { hub = s };
  get-put = λ s w. refl;
  put-get = λ w. refl;
  put-put = λ s t w. refl;
}

abbrev flag_place : Place World (Shared Bool)
flag_place = record {
  get = λ w. w.flag;
  put = λ s w. record w { flag = s };
  get-put = λ s w. refl;
  put-get = λ w. refl;
  put-put = λ s t w. refl;
}

abbrev outer_place : Place World ℕ
outer_place = record {
  get = λ w. w.outer;
  put = λ s w. record w { outer = s };
  get-put = λ s w. refl;
  put-get = λ w. refl;
  put-put = λ s t w. refl;
}

abbrev watchers_place : Place World (Notifier (Unit {0}))
watchers_place = record {
  get = λ w. w.watchers;
  put = λ s w. record w { watchers = s };
  get-put = λ s w. refl;
  put-get = λ w. refl;
  put-put = λ s t w. refl;
}

abbrev gate_place : Bool → Place World (Shared (Unit {0}))
gate_place true = record {
  get = λ w. w.gate;
  put = λ s w. record w { gate = s };
  get-put = λ s w. refl;
  put-get = λ w. refl;
  put-put = λ s t w. refl;
}
gate_place false = record {
  get = λ w. w.other_gate;
  put = λ s w. record w { other_gate = s };
  get-put = λ s w. refl;
  put-get = λ w. refl;
  put-put = λ s t w. refl;
}

gate-Apart : (g : Bool) → Apart (gate_place g) inner_place
gate-Apart true = record {
  get-left = λ t w. refl;
  get-right = λ s w. refl;
  put-swap = λ s t w. refl;
}
gate-Apart false = record {
  get-left = λ t w. refl;
  get-right = λ s w. refl;
  put-swap = λ s t w. refl;
}

-- A new gate is the first one if that is free.
abbrev new_gate : World → Bool
new_gate w = if ltb 0 w.gate.strong then false else true

abbrev flag_listener : Listener World (Unit {0}) (Unit {0})
flag_listener = record { receive = λ l. flag_receive flag_place }

-- The outer source, to which the `Flatten` listens.
abbrev outer : Source World ℕ (outer_listener flag_listener hub_place flatten_place)
outer =
    as_source (outer_listener flag_listener hub_place flatten_place)
      (LoadStore.cell (λ a b. false) outer_place) watchers_place suc

abbrev inner : ℕ → Source World ℕ (inner_listener flag_listener hub_place)
inner s = constant_source (inner_listener flag_listener hub_place) (record { value = s * 10 })

abbrev here : World
here = record {
  flatten = record { strong = 1; value = new_inner };
  hub = record {
    strong = 1;
    value = new_rw_lock (
        opened
          (record { listeners = record { listener = tt; was_alive = true } ∷ []; capacity = 1 }));
  };
  flag = record { strong = 1; value = false };
  outer = 5;
  watchers = new_rw_lock (
      opened
        (record { listeners = record { listener = tt; was_alive = true } ∷ []; capacity = 1 }));
  gate = record { strong = 1; value = tt };
  other_gate = record { strong = 0; value = tt };
}

abbrev flattened : Source World ℕ flag_listener
flattened =
    flatten_source flag_listener hub_place inner (record { from_listener = λ l. l }) gate_place
      new_gate inner_place suc outer

abbrev with_state : ℕ → Option (State ℕ Bool) → World → World
with_state n o = inner_place.put (at n o)

-- The second gate is made, and the first one dropped.
abbrev moved : World
moved = record here {
  gate = record { strong = 0; value = tt };
  other_gate = record { strong = 1; value = tt };
}

abbrev joined : World
joined = record here { other_gate = record { strong = 1; value = tt } }

get_lem_example :
    (flattened.get (with_state 0 none here) ≡ (ok 50, with_state 0 (some (kept 5 false)) joined))
    × (flattened.get (with_state (after_changes 2 0) (some (kept 4 true)) here)
        ≡ (ok 50, with_state (after_changes 2 0) (some (kept 5 false)) moved))
unfolding Gate.drop release as_source LoadStore.cell constant_source
get_lem_example =
    get_lem flag_listener hub_place inner (record { from_listener = λ l. l }) gate_place new_gate
      outer inner_place suc (λ w. w.outer) (λ s w. s * 10) (λ s g w. w) (λ w. Unit) (λ i w c. refl)
      (λ s i w c. refl) (λ s g i w c. refl) (λ s g w c. tt) (λ g x w c. tt) gate-Apart (λ i w. refl)
      2 4 true here tt

-- A second read without a change in between makes another gate: the state that the first one
-- stored does not count as current.
again_test :
    (let read_once = λ (w : World). (flattened.get w).1 in
      let once = read_once (with_state 1 (some (kept 4 true)) here) in
      (once.flatten.value.state.value ≡ some (kept 5 false))
      × ((read_once once).flatten.value.state.value ≡ some (kept 5 true)))
unfolding flatten_source as_source LoadStore.cell constant_source
again_test = (refl, refl)
