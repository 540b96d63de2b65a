-- ===== src/Convert.antt =====
-- src/convert.rs and the conversions of src/listener.rs: `FromListener`, `IntoListener`, and the
-- listeners behind a trait object, `DynListener`.
use nosy.Prelude.{◌≡◌, refl, Bool, List}
use nosy.Exec.{Exec}
use mathlib.Core.Path.{fun_ext}
use nosy.Listener.{Listener, IsLawful, Independent}

-- `dyn Listener<M>`: what can be called through the pointer. Both flavours have the same.
pub record DynListener (W M : Type 0) : Type 0 where
  pub receive : List M → Exec W Bool

abbrev pub dyn_listener : {W M : Type 0} → Listener W (DynListener W M) M
dyn_listener = record { receive = λ l. l.receive }

pub record FromListener {W L K M : Type 0} (from : Listener W L M) (to : Listener W K M)
    : Type 0 where
  pub from_listener : L → K

module _ {W L M : Type 0} (lis : Listener W L M) where
  -- `into_dyn_listener_unsync` and `into_dyn_listener_sync`, as they are by default.
  unfoldable pub into_dyn_listener : L → DynListener W M
  into_dyn_listener l = record { receive = lis.receive l }

  unfoldable pub dyn_from : FromListener lis dyn_listener
  unfolding into_dyn_listener
  dyn_from = record { from_listener = into_dyn_listener }

  -- The implementation that a listener type has for itself.
  unfoldable pub reflexive : FromListener lis lis
  reflexive = record { from_listener = λ l. l }

module _ {W M : Type 0} where
  -- A trait object stays as it is.
  unfoldable pub dyn_into_dyn_listener : DynListener W M → DynListener W M
  dyn_into_dyn_listener l = l

module _ {W L K M : Type 0} {from : Listener W L M} {to : Listener W K M} where
  -- The one implementation of `IntoListener`.
  unfoldable pub into_listener : FromListener from to → L → K
  into_listener f l = f.from_listener l

  -- A conversion after which the listener receives as it did before.
  pub record Keeps (f : FromListener from to) : Type 0 where
    pub same :
        (l : L) (ms : List M) (w : W) → to.receive (f.from_listener l) ms w ≡ from.receive l ms w

  module _ {f : FromListener from to} (k : Keeps f) where
    pub alike : (l : L) → to.receive (f.from_listener l) ≡ from.receive l
    alike l = fun_ext (λ ms. fun_ext (λ w. k.same l ms w))

  module _ {f : FromListener from to} (k : Keeps f) (Inv : W → Type 0) where
    pub converted-IsLawful : (l : L) → IsLawful from Inv l → IsLawful to Inv (f.from_listener l)
    converted-IsLawful l h = record {
      keeps = rw (alike k l) h.keeps;
      total = rw (alike k l) h.total;
      empty = rw (alike k l) h.empty;
      batch = rw (alike k l) h.batch;
      dead = rw (alike k l) h.dead;
    }

    pub converted-Independent :
        (j l : L)
        → Independent from Inv j l
        → Independent to Inv (f.from_listener j) (f.from_listener l)
    converted-Independent j l a = record {
      swap = rw (alike k j, alike k l) a.swap;
      left = rw (alike k j, alike k l) a.left;
      right = rw (alike k j, alike k l) a.right;
    }

-- The conversions of the library change nothing of what a listener does.
pub dyn_from-Keeps : {W L M : Type 0} (lis : Listener W L M) → Keeps (dyn_from lis)
unfolding dyn_from
dyn_from-Keeps lis = record { same = λ l ms w. refl }

pub reflexive-Keeps : {W L M : Type 0} (lis : Listener W L M) → Keeps (reflexive lis)
unfolding reflexive
reflexive-Keeps lis = record { same = λ l ms w. refl }

-- Converting a trait object to another one of the same kind is no second layer.
pub into_dyn_listener-dyn :
    {W M : Type 0} (l : DynListener W M)
    → into_dyn_listener dyn_listener l ≡ dyn_into_dyn_listener l
unfolding into_dyn_listener dyn_into_dyn_listener
into_dyn_listener-dyn l = refl
