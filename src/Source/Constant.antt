-- ===== src/Source/Constant.antt =====
-- src/source.rs: `Constant`, a source that never changes.
use nosy.Prelude.{◌≡◌, refl, ap, Bool}
use nosy.Exec.{Exec, ok, pure}
use nosy.Listener.{Listener}
use nosy.Convert.{FromListener}
use nosy.Source.{Source, IsSource}

pub record Constant (T : Type 0) : Type 0 where
  pub value : T

unfoldable pub new : {T : Type 0} → T → Constant T
new value = record { value = value }

unfoldable pub into_inner : {T : Type 0} → Constant T → T
into_inner c = c.value

unfoldable pub clone : {T : Type 0} → Constant T → Constant T
clone c = record { value = c.value }

unfoldable pub as_ref : {T : Type 0} → Constant T → T
as_ref c = c.value

-- The traits that constants have when their values do go to the values.
unfoldable pub eq : {T : Type 0} → (T → T → Bool) → Constant T → Constant T → Bool
eq same a b = same a.value b.value

unfoldable pub cmp : {T Ordering : Type 0} → (T → T → Ordering) → Constant T → Constant T → Ordering
cmp compare a b = compare a.value b.value

unfoldable pub hash : {T H : Type 0} → (T → H → H) → Constant T → H → H
hash hash_value c state = hash_value c.value state

-- A new listener is dropped.
module _ {W L : Type 0} (lis : Listener W L (Unit {0})) where
  unfoldable pub listen_raw : {T : Type 0} → Constant T → L → Exec W (Unit {0})
  listen_raw c listener = pure tt

  unfoldable pub listen :
      {T K : Type 0} {from : Listener W K (Unit {0})}
      → Constant T
      → FromListener from lis
      → K
      → Exec W (Unit {0})
  listen c f listener = pure tt

  unfoldable pub get : {T : Type 0} → Constant T → Exec W T
  get c = pure c.value

  unfoldable pub constant_source : {T : Type 0} → Constant T → Source W T lis
  unfolding listen_raw listen get
  constant_source c = record { get = get c; listen_raw = listen_raw c; listen = listen c }

  -- It holds its value everywhere.
  pub constant-IsSource :
      {T : Type 0} (c : Constant T) → IsSource (constant_source c) (λ v w. into_inner c ≡ v)
  unfolding constant_source listen_raw listen get into_inner
  constant-IsSource c = record { gets = λ v w e. ap (λ x. (ok x, w)) e; listens = λ f k l. refl }
