-- ===== src/Source/Map.antt =====
-- src/source/map.rs: `Map`, a source whose values are made from another source's by a function.
use nosy.Prelude.{◌≡◌, refl, ap, inl, inr}
use nosy.Exec.{Exec, ok, pure, ◌>>=◌, Result-cases}
use nosy.Listener.{Listener}
use nosy.Convert.{FromListener}
use nosy.Source.{Source, IsSource}
use mathlib.Core.Path.{fun_ext}

pub record Map {ℓ κ} (S : Type ℓ) (F : Type κ) : Type (ℓ ⊔ κ) where
  pub function : F
  pub source : S

-- Where the mapped source holds `o`: the function makes it of what the source holds there.
abbrev pub Mapped : {W V O : Type 0} → (V → O) → (V → W → Type 0) → O → W → Type 0
Mapped {V = V} f Holds o w = (v : V) × (Holds v w × (f v ≡ o))

module _ {W V L O : Type 0} {lis : Listener W L (Unit {0})} where
  -- `Source::map`
  unfoldable pub map : Source W V lis → (V → O) → Map (Source W V lis) (V → O)
  map source function = record { function = function; source = source }

  unfoldable pub get : Map (Source W V lis) (V → O) → Exec W O
  get m = do v ← m.source.get; pure (m.function v)

  unfoldable pub listen_raw : Map (Source W V lis) (V → O) → L → Exec W (Unit {0})
  listen_raw m listener = m.source.listen_raw listener

  unfoldable pub listen :
      {K : Type 0} {from : Listener W K (Unit {0})}
      → Map (Source W V lis) (V → O)
      → FromListener from lis
      → K
      → Exec W (Unit {0})
  listen m f listener = m.source.listen f listener

  unfoldable pub map_source : Map (Source W V lis) (V → O) → Source W O lis
  unfolding get listen_raw listen
  map_source m = record { get = get m; listen_raw = listen_raw m; listen = listen m }

  abbrev pub mapped : Source W V lis → (V → O) → Source W O lis
  mapped source f = map_source (map source f)

  pub mapped-IsSource :
      (source : Source W V lis) (f : V → O) (Holds : V → W → Type 0)
      → IsSource source Holds
      → IsSource (mapped source f) (Mapped f Holds)
  unfolding map map_source get listen_raw listen
  mapped-IsSource source f Holds h = record {
    gets = λ o w (v, (held, e)). rw (h.gets v w held) (ap (λ x. (ok x, w)) e);
    listens = h.listens;
  }

module _ {W V L O P : Type 0} {lis : Listener W L (Unit {0})} where
  -- A mapped source that is mapped again is the source mapped by the two functions together, in
  -- what it reads, in how it panics, and in how it is listened to.
  pub mapped-mapped :
      (source : Source W V lis) (f : V → O) (g : O → P)
      → mapped (mapped source f) g ≡ mapped source (λ v. g (f v))
  unfolding map map_source get listen_raw listen
  mapped-mapped source f g =
      let both : get (map (mapped source f) g) ≡ get (map source (λ v. g (f v))) = fun_ext (λ w.
        elim (Result-cases (source.get w).0) [ inl (v, e) ↦ rw e refl | inr (p, e) ↦ rw e refl ]) in
      ap
        (λ (m : Exec W P). record {
          get = m;
          listen_raw = source.listen_raw;
          listen = source.listen;
        })
        both
