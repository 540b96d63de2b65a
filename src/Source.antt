-- ===== src/Source.antt =====
-- src/source.rs and the trait `Listen` of src/listener.rs: sources of a value that notify, and the
-- implementations for pointers, which `DynSource` uses.
pub mod Constant
pub mod Map
use nosy.Prelude.{◌≡◌, refl, List}
use nosy.Exec.{Exec, ok}
use nosy.Listener.{Listener}
use nosy.Convert.{FromListener, Keeps, into_listener}

-- `Listen` with messages of type `()`, and `Source`.
pub record Source (W V : Type 0) {L : Type 0} (lis : Listener W L (Unit {0})) : Type 1 where
  pub get : Exec W V
  pub listen_raw : L → Exec W (Unit {0})
  pub listen :
      {K : Type 0} {from : Listener W K (Unit {0})} → FromListener from lis → K → Exec W (Unit {0})

-- The default of `Listen::listen`.
unfoldable pub default_listen :
    {W L K : Type 0} {lis : Listener W L (Unit {0})} {from : Listener W K (Unit {0})}
    → (L → Exec W (Unit {0}))
    → FromListener from lis
    → K
    → Exec W (Unit {0})
unfolding into_listener
default_listen listen_raw f listener = listen_raw (into_listener f listener)

-- `&T`, `&mut T`, `Box<T>`, `Rc<T>` and `Arc<T>` pass `get` and `listen_raw` on, and leave `listen`
-- as it is by default.
unfoldable pub pointer_listen_raw :
    {W V L : Type 0} {lis : Listener W L (Unit {0})} → Source W V lis → L → Exec W (Unit {0})
pointer_listen_raw source = source.listen_raw

unfoldable pub pointer :
    {W V L : Type 0} {lis : Listener W L (Unit {0})} → Source W V lis → Source W V lis
unfolding default_listen pointer_listen_raw
pointer source = record {
  get = source.get;
  listen_raw = pointer_listen_raw source;
  listen = default_listen (pointer_listen_raw source);
}

-- What a client may rely on: wherever the source holds `v`, it reads as `v` and nothing changes;
-- and `listen` does what the documentation says it does by default, if the conversion keeps what
-- the listener does.
pub record IsSource {W V L : Type 0} {lis : Listener W L (Unit {0})} (source : Source W V lis)
    (Holds : V → W → Type 0) : Type 1 where
  pub gets : (v : V) (w : W) → Holds v w → source.get w ≡ (ok v, w)
  pub listens :
      {K : Type 0} {from : Listener W K (Unit {0})} (f : FromListener from lis)
      → Keeps f
      → (l : K) → source.listen f l ≡ source.listen_raw (into_listener f l)

pub pointer-IsSource :
    {W V L : Type 0} {lis : Listener W L (Unit {0})} (source : Source W V lis)
    (Holds : V → W → Type 0)
    → IsSource source Holds
    → IsSource (pointer source) Holds
unfolding pointer default_listen pointer_listen_raw
pointer-IsSource source Holds h = record { gets = h.gets; listens = λ f k l. refl }
