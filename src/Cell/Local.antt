-- ===== src/Cell/Local.antt =====
-- src/cell.rs: `CellWithLocal` keeps its own copy of the value equal to the cell's.
use nosy.Prelude.{Bool, ◌≡◌, refl, sym, ap, ◌∙◌, ◌∷◌, []}
use nosy.Exec.{ok}
use nosy.Listener.{Listener}
use nosy.Memory.{Place, Apart}
use nosy.LoadStore.{LoadStore, IsLoadStore}
use nosy.Notifier.Raw.{RawNotifier}
use nosy.Notifier.Delivery.{world}
use nosy.Notifier.Locked.{Notifier}
use nosy.Notifier.Outside.{AllOutside, world-put}
use nosy.Cell.{get, new, new_local, set_local, get_local}
use nosy.Cell.Updates.{Heard, holding, told, set_lem, told-gets, contained}

module _ {W S V L : Type 0} (lis : Listener W L (Unit {0})) (Inv : W → Type 0) (p : Place W S)
    (q : Place W (Notifier L)) (local : Place W V) (stored : V → S) (same : V → V → Bool)
    (ls : LoadStore W V) (h : IsLoadStore same ls p stored) (a : Apart p q) (b : Apart local q)
    (c : Apart local p) (unaffected : (s : Notifier L) (w : W) → Inv w → Inv (q.put s w)) where
  -- The owner and the cell's sources read the same.
  pub record Agrees (v : V) (w : W) : Type 0 where
    pub owner : get_local lis ls q local w ≡ (ok v, w)
    pub sources : get lis ls q w ≡ (ok v, w)

  agree : (v : V) (w : W) → local.get w ≡ v → p.get w ≡ stored v → Agrees v w
  unfolding get_local get
  agree v w e f = record {
    owner = ap (λ x. (ok x, w)) e;
    sources = contained same p stored ls h v w f;
  }

  pub new_local-Agrees : (v : V) (w : W) → Agrees v (new_local lis ls q local p stored v w)
  unfolding new_local new
  new_local-Agrees v w =
      agree v _ (b.get-left _ _ ∙ c.get-left _ _ ∙ local.get-put v w)
        (a.get-left _ _ ∙ p.get-put (stored v) _)

  -- The owner's copy is written first; the rest is `Cell::set`.
  started :
      (raw : RawNotifier L) (v new : V) (w : W)
      → local.put new (holding lis Inv p q stored same ls h a unaffected raw v w)
        ≡ holding lis Inv p q stored same ls h a unaffected raw v (local.put new w)
  started raw v new w = b.put-swap new _ _ ∙ ap (q.put _) (c.put-swap new (stored v) w)

  told-local :
      (raw : RawNotifier L) (v : V) (w : W)
      → AllOutside lis local raw.listeners
      → local.get (told lis Inv p q stored same ls h a unaffected raw v (local.put v w)) ≡ v
  told-local raw v w o =
      b.get-left _ _
      ∙ ap (λ u. local.get (world lis raw.listeners (tt ∷ []) u)) (sym (c.put-swap v (stored v) w))
      ∙ ap local.get (world-put lis local raw.listeners (tt ∷ []) v (p.put (stored v) w) o)
      ∙ local.get-put v _

  -- After `CellWithLocal::set`, on a cell with an open notifier that nobody holds, whose listeners
  -- keep the requirements, do not touch each other and reach back neither into the notifier nor
  -- into the container nor into the local copy, and whose container keeps the contract of
  -- `LoadStore`, its owner and its sources read the same value, the one that was set.
  pub set_local-Agrees :
      (raw : RawNotifier L) (v new : V) (w : W)
      → Heard lis Inv p q stored same ls h a unaffected raw
      → AllOutside lis p raw.listeners
      → AllOutside lis local raw.listeners
      → Inv (p.put (stored new) (local.put new w))
      → (let done =
            set_local lis ls q local new
              (holding lis Inv p q stored same ls h a unaffected raw v w) in
          (done.0 ≡ ok tt) × Agrees new done.1)
  unfolding set_local
  set_local-Agrees raw v new w k o o' i = rw (started raw v new w) (
      rw (set_lem lis Inv p q stored same ls h a unaffected raw v new (local.put new w) k i) (
        refl,
        agree new _ (told-local raw new w o')
            (told-gets lis Inv p q stored same ls h a unaffected raw new (local.put new w) o),
      ))
