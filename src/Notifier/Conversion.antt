-- ===== src/Notifier/Conversion.antt =====
-- `listen`, which asks a listener before it converts it, against `listen_raw` after the conversion.
use nosy.Prelude.{ℕ, ◌≡◌, refl}
use nosy.Listener.{Listener}
use nosy.Memory.{Place}
use nosy.Convert.{FromListener, Keeps, alike, into_listener}
use nosy.Notifier.Raw
use nosy.Notifier.Raw.{RawNotifier}
use nosy.Notifier.Locked
use nosy.Notifier.Locked.{Notifier}

module _ {W K L M : Type 0} {unconverted : Listener W K M} {lis : Listener W L M}
    (f : FromListener unconverted lis) (k : Keeps f) where
  -- What a notifier does with a listener that it is to convert is what it does with the result of
  -- the conversion, though it asks before it converts.
  raw_listen :
      (grow : ℕ → ℕ) (l : K)
      → Raw.listen lis unconverted f.from_listener grow l
        ≡ Raw.listen_raw lis grow (into_listener f l)
  unfolding Raw.listen Raw.listen_raw into_listener
  raw_listen grow l = rw (alike k l) refl

  -- `Notifier::listen`, which asks a listener whether it is alive before it converts it, does what
  -- `listen_raw` does with the converted listener, if that receives as the listener did before.
  pub listen-listen_raw :
      (p : Place W (Notifier L)) (grow : ℕ → ℕ) (l : K)
      → Locked.listen lis p unconverted f.from_listener grow l
        ≡ Locked.listen_raw lis p grow (into_listener f l)
  unfolding Locked.listen Locked.listen_raw
  listen-listen_raw p grow l = rw (raw_listen grow l) refl
