-- ===== src/Cell/Sources.antt =====
-- src/cell.rs: `CellSource` as a `Source`, and what is read from it and from what is made of it.
use nosy.Prelude.{ℕ, Bool, ◌≡◌, refl}
use nosy.Exec.{Exec, ok, ◌>>◌}
use nosy.Listener.{Listener}
use nosy.Memory.{Place, Apart}
use nosy.LoadStore.{LoadStore, IsLoadStore}
use nosy.Convert.{FromListener}
use nosy.Notifier.Conversion.{listen-listen_raw}
use nosy.Notifier.Raw.{RawNotifier}
use nosy.Notifier.Locked
use nosy.Notifier.Locked.{Notifier}
use nosy.Notifier.Outside.{AllOutside}
use nosy.Source.{Source, IsSource}
use nosy.Source.Map.{mapped, mapped-IsSource}
use nosy.Cell.{get, set, listen_raw}
use nosy.Cell.Updates.{Heard, holding, told, set_lem, told-gets, contained}

module _ {W V L : Type 0} (lis : Listener W L (Unit {0})) (ls : LoadStore W V)
    (q : Place W (Notifier L)) (grow : ℕ → ℕ) where
  -- `CellSource::listen`
  unfoldable pub listen :
      {K : Type 0} {from : Listener W K (Unit {0})} → FromListener from lis → K → Exec W (Unit {0})
  unfolding Locked.listen
  listen {from = from} f listener = Locked.listen lis q from f.from_listener grow listener

  -- What `Cell::as_source` gives.
  unfoldable pub as_source : Source W V lis
  unfolding get listen_raw listen
  as_source = record { get = get lis ls q; listen_raw = listen_raw lis ls q grow; listen = listen }

module _ {W S V L : Type 0} (lis : Listener W L (Unit {0})) (Inv : W → Type 0) (p : Place W S)
    (q : Place W (Notifier L)) (stored : V → S) (same : V → V → Bool) (ls : LoadStore W V)
    (h : IsLoadStore same ls p stored) (grow : ℕ → ℕ) where
  -- The container holds `v`, and nobody is in it.
  abbrev pub Contains : V → W → Type 0
  Contains v w = p.get w ≡ stored v

  -- A cell's source keeps the contract of a source if the container keeps that of `LoadStore`.
  pub as_source-IsSource : IsSource (as_source lis ls q grow) Contains
  unfolding as_source get listen listen_raw
  as_source-IsSource = record {
    gets = contained same p stored ls h;
    listens = λ {K} {from} f k l. listen-listen_raw f k q grow l;
  }

  module _ (a : Apart p q) (unaffected : (s : Notifier L) (w : W) → Inv w → Inv (q.put s w)) where
    -- What is set in a cell is what a source made of it by a function reads, through the function,
    -- once every listener has been told, on a cell with an open notifier that nobody holds, whose
    -- listeners keep the requirements, do not touch each other and reach back neither into the
    -- notifier nor into the container, and whose container keeps the contract of `LoadStore`.
    pub set-get :
        {O : Type 0} (f : V → O) (raw : RawNotifier L) (v new : V) (w : W)
        → Heard lis Inv p q stored same ls h a unaffected raw
        → AllOutside lis p raw.listeners
        → Inv (p.put (stored new) w)
        → (set lis ls q new >> (mapped (as_source lis ls q grow) f).get)
            (holding lis Inv p q stored same ls h a unaffected raw v w)
          ≡ (ok (f new), told lis Inv p q stored same ls h a unaffected raw new w)
    set-get f raw v new w k o i =
        rw (set_lem lis Inv p q stored same ls h a unaffected raw v new w k i) (
          (mapped-IsSource (as_source lis ls q grow) f Contains as_source-IsSource).gets (f new) _
            (new, (told-gets lis Inv p q stored same ls h a unaffected raw new w o, refl)))
