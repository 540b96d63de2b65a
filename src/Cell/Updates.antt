-- ===== src/Cell/Updates.antt =====
-- What the listeners of a cell hear when it is written, and what is left of it when it is dropped.
use mathlib.Core.Path.{subst}
use nosy.Prelude.{
  ℕ, ◌≡◌, sym, ap, ◌∙◌, Bool, true, false, [], ◌∷◌, inl, inr, Bool-cases, if◌then◌else◌,
}
use nosy.Exec.{ok, ◌>>◌}
use nosy.Listener.{Listener}
use nosy.Memory.{Place, Apart}
use nosy.LoadStore.{LoadStore, IsLoadStore}
use nosy.Notifier.Raw.{RawNotifier}
use nosy.Notifier.Delivery.{world, marked, AllLawful, AllApart}
use nosy.Notifier.Locked
use nosy.Notifier.Locked.{Notifier}
use nosy.Notifier.Outside.{AllOutside, world-put}
use nosy.Notifier.Shared.{idle, closed_idle, close-idle, closed_lem, notify_many-opened}
use nosy.Cell.{new, get, set, set_if_unequal, update_mut, listen_raw, drop}

-- The cell's value is at `p` and its notifier at `q`. Nothing that `Inv` says is about either.
module _ {W S V L : Type 0} (lis : Listener W L (Unit {0})) (Inv : W → Type 0) (p : Place W S)
    (q : Place W (Notifier L)) (stored : V → S) (same : V → V → Bool) (ls : LoadStore W V)
    (h : IsLoadStore same ls p stored) (a : Apart p q)
    (unaffected : (s : Notifier L) (w : W) → Inv w → Inv (q.put s w)) where
  -- A cell that holds `v`, with an open notifier that nobody holds.
  abbrev pub holding : RawNotifier L → V → W → W
  holding raw v w = q.put (idle lis q raw) (p.put (stored v) w)

  -- The listeners that a delivery to them all needs: they keep the requirements, do not touch each
  -- other, and do not reach back into the notifier.
  pub record Heard (raw : RawNotifier L) : Type 0 where
    pub lawful : AllLawful lis Inv raw.listeners
    pub apart : AllApart lis Inv raw.listeners
    pub outside : AllOutside lis q raw.listeners

  -- Each listener has received one message, in a world in which the cell held `v` already.
  abbrev pub told : RawNotifier L → V → W → W
  told raw v w =
      let w' = p.put (stored v) w in
      q.put (idle lis q (record raw { listeners = marked lis raw.listeners (tt ∷ []) w' }))
        (world lis raw.listeners (tt ∷ []) w')

  replaced :
      (raw : RawNotifier L) (v new : V) (w : W)
      → ls.replace new (holding raw v w) ≡ (ok v, holding raw new w)
  replaced raw v new w =
      ap (ls.replace new) (sym (a.put-swap (stored v) (idle lis q raw) w))
      ∙ h.replaces v new (q.put (idle lis q raw) w)
      ∙ ap (λ u. (ok v, u)) (a.put-swap (stored new) (idle lis q raw) w)

  notified :
      (raw : RawNotifier L) (v : V) (w : W)
      → Heard raw
      → Inv (p.put (stored v) w)
      → Locked.notify lis q tt (holding raw v w) ≡ (ok tt, told raw v w)
  unfolding Locked.notify
  notified raw v w k i =
      notify_many-opened lis Inv q unaffected raw (tt ∷ []) (p.put (stored v) w) i k.lawful k.apart
        k.outside

  -- `Cell::set` on a cell with an open notifier that nobody holds, whose listeners keep the
  -- requirements, do not touch each other and do not reach back into the notifier, and whose
  -- container keeps the contract of `LoadStore`: each listener hears of it once, when the cell
  -- holds the new value already, and the lock is free afterwards.
  pub set_lem :
      (raw : RawNotifier L) (v new : V) (w : W)
      → Heard raw
      → Inv (p.put (stored new) w)
      → set lis ls q new (holding raw v w) ≡ (ok tt, told raw new w)
  unfolding set
  set_lem raw v new w k i = rw (replaced raw v new w) (notified raw new w k i)

  changed :
      (raw : RawNotifier L) (v new : V) (w : W)
      → Heard raw
      → Inv (p.put (stored new) w)
      → same new v ≡ false
      → set_if_unequal lis ls q new (holding raw v w) ≡ (ok tt, told raw new w)
  unfolding set_if_unequal
  changed raw v new w k i e =
      let n = idle lis q raw in
      rw (sym (a.put-swap (stored v) n w)) (
        rw (h.unequal v new (q.put n w) e)
          (rw (a.put-swap (stored new) n w) (notified raw new w k i)))

  unchanged :
      (raw : RawNotifier L) (v new : V) (w : W)
      → same new v ≡ true
      → set_if_unequal lis ls q new (holding raw v w) ≡ (ok tt, holding raw v w)
  unfolding set_if_unequal
  unchanged raw v new w e =
      let n = idle lis q raw in
      rw (sym (a.put-swap (stored v) n w)) (rw (h.equal v new (q.put n w) e))

  -- `Cell::set_if_unequal` on a cell with an open notifier that nobody holds, whose listeners keep
  -- the requirements, do not touch each other and do not reach back into the notifier, and whose
  -- container keeps the contract of `LoadStore`: a value that is equal changes nothing and nobody
  -- hears of it, and any other value is set as by `Cell::set`.
  pub set_if_unequal_lem :
      (raw : RawNotifier L) (v new : V) (w : W)
      → Heard raw
      → Inv (p.put (stored new) w)
      → set_if_unequal lis ls q new (holding raw v w)
        ≡ (ok tt, if same new v then holding raw v w else told raw new w)
  set_if_unequal_lem raw v new w k i = elim (Bool-cases (same new v)) [
    | inl e ↦ rw e (unchanged raw v new w e)
    | inr e ↦ rw e (changed raw v new w k i e)
  ]

  read_back :
      (n : Notifier L) (v : V) (w : W)
      → get lis ls q (q.put n (p.put (stored v) w)) ≡ (ok v, q.put n (p.put (stored v) w))
  unfolding get
  read_back n v w = rw (sym (a.put-swap (stored v) n w)) (h.gets v (q.put n w))

  -- `Cell::update_mut` on a cell with an open notifier that nobody holds, whose listeners keep the
  -- requirements, do not touch each other and do not reach back into the notifier, and whose
  -- container keeps the contract of `LoadStore`, sets what the function makes of the value that the
  -- cell held.
  pub update_mut_lem :
      (f : V → V) (raw : RawNotifier L) (v : V) (w : W)
      → Heard raw
      → Inv (p.put (stored (f v)) w)
      → update_mut lis ls q f (holding raw v w) ≡ (ok tt, told raw (f v) w)
  unfolding update_mut
  update_mut_lem f raw v w k i = rw (read_back (idle lis q raw) v w) (set_lem raw v (f v) w k i)

  -- Once a cell is dropped whose notifier was open and not held, and whose container keeps the
  -- contract of `LoadStore`, its sources still read its last value, and a listener that is added to
  -- one is dropped at once.
  pub drop_lem :
      (grow : ℕ → ℕ) (l : L) (raw : RawNotifier L) (v : V) (w : W)
      → (drop q >> listen_raw lis ls q grow l >> get lis ls q) (holding raw v w)
        ≡ (ok v, q.put (closed_idle lis q) (p.put (stored v) w))
  unfolding drop listen_raw
  drop_lem grow l raw v w =
      let w' = p.put (stored v) w in
      rw (close-idle lis q raw w')
        (let (_, b, _) = closed_lem lis q grow l [] w' in rw b (read_back (closed_idle lis q) v w))

  -- A cell whose listeners leave its container alone holds its new value when it has told them.
  pub told-gets :
      (raw : RawNotifier L) (v : V) (w : W)
      → AllOutside lis p raw.listeners
      → p.get (told raw v w) ≡ stored v
  told-gets raw v w o =
      a.get-left _ _
      ∙ ap p.get (world-put lis p raw.listeners (tt ∷ []) (stored v) w o)
      ∙ p.get-put (stored v) _

module _ {W S V : Type 0} (same : V → V → Bool) (p : Place W S) (stored : V → S)
    (ls : LoadStore W V) (h : IsLoadStore same ls p stored) where
  -- To read a container in which nobody is.
  pub contained : (v : V) (w : W) → p.get w ≡ stored v → ls.get w ≡ (ok v, w)
  contained v w e =
      subst (λ u. ls.get u ≡ (ok v, u)) (ap (λ s. p.put s w) (sym e) ∙ p.put-get w) (h.gets v w)
