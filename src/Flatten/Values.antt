-- ===== src/Flatten/Values.antt =====
-- Reading a `Flatten` is reading the source that the outer source holds.
use nosy.Prelude.{
  ℕ, ◌≡◌, ap, ◌∙◌, ◌%◌, ◌^◌, none, some, ◌==◌, ◌-◌, Bool-cases, inl, inr, if◌then◌else◌, refl,
}
use nosy.Exec.{ok}
use nosy.Listener.{Listener}
use nosy.Memory.{Place, Shared, Apart, release}
use nosy.Convert.{FromListener}
use nosy.Gate
use nosy.Notifier.Locked.{Notifier}
use nosy.Source.{Source}
use nosy.Flatten
use nosy.Flatten.{State, Inner}
use nosy.Flatten.Wiring.{inner_listener, subscribe, flatten_source}
use nosy.Flatten.Reading.{at, kept, after_changes, get_source_lem, first_lem}

-- The outer source holds `current w` in the world `w`, and the inner source `s` has the value
-- `value s w`; to listen to it behind the gate `g` is `heed s g`. Where `Inv` holds none of the
-- three panics or touches the state of the `Flatten`, and the gates are apart from that state.
module _ {W S V G L K J : Type 0} (lis : Listener W L (Unit {0}))
    (n : Place W (Shared (Notifier L))) {to : Listener W K (Unit {0})} (inner : S → Source W V to)
    (f : FromListener (inner_listener lis n) to) (gate_place : G → Place W (Shared (Unit {0})))
    (new_gate : W → G) {out : Listener W J (Unit {0})} (outer : Source W S out)
    (q : Place W (Inner S G)) (grow : ℕ → ℕ) (current : W → S) (value : S → W → V)
    (heed : S → G → W → W) (Inv : W → Type 0)
    (reads : (i : Inner S G) (w : W) → Inv w → outer.get (q.put i w) ≡ (ok (current w), q.put i w))
    (inner_reads : (s : S) (i : Inner S G) (w : W)
      → Inv w
      → (inner s).get (q.put i w) ≡ (ok (value s w), q.put i w))
    (listens : (s : S) (g : G) (i : Inner S G) (w : W)
      → Inv w
      → (inner s).listen f (record { weak = gate_place g; target = tt }) (q.put i w)
        ≡ (ok tt, q.put i (heed s g w)))
    (told : (s : S) (g : G) (w : W) → Inv w → Inv (heed s g w))
    (gated : (g : G) (x : Shared (Unit {0})) (w : W) → Inv w → Inv ((gate_place g).put x w))
    (apart : (g : G) → Apart (gate_place g) q)
    (steady : (i : Inner S G) (w : W) → new_gate (q.put i w) ≡ new_gate w) where
  -- The world with a new gate.
  abbrev made : W → W
  made w = (gate_place (new_gate w)).put (record { strong = 1; value = tt }) w

  -- The world with a new gate, and with the source told of the listener behind it.
  abbrev pub heeded : S → W → W
  heeded s w = heed s (new_gate w) (made w)

  subscribed :
      (s : S) (i : Inner S G) (w : W)
      → Inv w
      → subscribe lis n inner f gate_place new_gate s (q.put i w)
        ≡ (ok (new_gate w), q.put i (heeded s w))
  unfolding subscribe Gate.new
  subscribed s i w c =
      let g = new_gate w in
      rw (steady i w) (
        rw ((apart g).put-swap (record { strong = 1; value = tt }) i w)
          (rw (listens s g i (made w) (gated g _ w c)) refl))

  let_go :
      (g : G) (i : Inner S G) (w : W)
      → Gate.drop (gate_place g) (q.put i w) ≡ q.put i (Gate.drop (gate_place g) w)
  unfolding Gate.drop release
  let_go g i w =
      ap
        (λ (x : Shared (Unit {0})).
          (gate_place g).put (record x { strong = x.strong - 1 }) (q.put i w))
        ((apart g).get-left i w)
      ∙ (apart g).put-swap _ i w

  heeded-Inv : (s : S) (w : W) → Inv w → Inv (heeded s w)
  heeded-Inv s w c = told s (new_gate w) (made w) (gated (new_gate w) _ w c)

  dropped-Inv : (g : G) (w : W) → Inv w → Inv (Gate.drop (gate_place g) w)
  unfolding Gate.drop release
  dropped-Inv g w c = gated g _ w c

  -- A `Flatten` reads as the source that the outer source holds now, when it is new, and when it is
  -- read again after any number of changes of the outer source that is not a multiple of 2 ^ 32,
  -- with a stored source of generation 0. It listens to that source behind a new gate, stores it,
  -- with generation 0, and drops the gate of the one that was stored. After a multiple of 2 ^ 32
  -- changes it reads as the stored source, and nothing changes. Its lock is free, its gates are
  -- apart from its state, and none of the sources panics or touches that state.
  pub get_lem :
      (k : ℕ) (source : S) (g : G) (w : W)
      → Inv w
      → (let get = (flatten_source lis n inner f gate_place new_gate q grow outer).get in
          let m = after_changes k 0 in
          let old = some (kept source g) in
          let new = some (kept (current w) (new_gate w)) in
          let listened = heeded (current w) w in
          let dropped = Gate.drop (gate_place g) listened in
          (get (q.put (at 0 none) w) ≡ (ok (value (current w) listened), q.put (at 0 new) listened))
          × (get (q.put (at m old) w) ≡ (
              if k % 2 ^ 32 == 0
              then (ok (value source w), q.put (at m old) w)
              else (ok (value (current w) dropped), q.put (at m new) dropped))))
  unfolding flatten_source Flatten.get
  get_lem k source g w c =
      let subscribes = subscribe lis n inner f gate_place new_gate in
      let drops = λ (g : G). Gate.drop (gate_place g) in
      let first =
        first_lem q current outer.get subscribes drops (λ s w. new_gate w) heeded Inv reads
          subscribed let_go w c in
      let later =
        get_source_lem q current outer.get subscribes drops (λ s w. new_gate w) heeded Inv reads
          subscribed let_go k source g w c in
      let listened = heeded-Inv (current w) w c in
      (
        rw first (inner_reads (current w) _ _ listened),
        elim (Bool-cases (k % 2 ^ 32 == 0)) [
          | inl e ↦ rw later (rw e (inner_reads source _ _ c))
          | inr e ↦
              rw later
                (rw e (inner_reads (current w) _ _ (dropped-Inv g (heeded (current w) w) listened)))
        ],
      )
