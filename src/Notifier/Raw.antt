-- ===== src/Notifier/Raw.antt =====
-- src/notifier.rs: `RawNotifier` and its entries. Its methods act on the notifier beside the rest
-- of the world, which the listeners change.
use nosy.Prelude.{
  ℕ, zero, suc, Bool, true, false, ◌&&◌, Option, none, some, List, [], ◌∷◌, ◌++◌, leb, ◌==◌, length,
  if◌then◌else◌,
}
use nosy.Exec.{Exec, Result, ok, panic, pure, ◌>>=◌, ◌>>◌}
use nosy.Listener.{Listener}

pub record NotifierEntry (L : Type 0) : Type 0 where
  pub listener : L
  pub was_alive : Bool

-- `listeners` is a `Vec`, so it has a capacity beside its items.
pub record RawNotifier (L : Type 0) : Type 0 where
  pub listeners : List (NotifierEntry L)
  pub capacity : ℕ

unfoldable pub new : {L : Type 0} → RawNotifier L
new = record { listeners = []; capacity = 0 }

unfoldable pub count_approximate : {L : Type 0} → RawNotifier L → ℕ
count_approximate raw = length raw.listeners

abbrev pub get_elem? {ℓ} : {A : Type ℓ} → List A → ℕ → Option A
get_elem? [] i = none
get_elem? (x ∷ xs) zero = some x
get_elem? (x ∷ xs) (suc i) = get_elem? xs i

-- A list without its last item, which goes to the front.
unfoldable pub rotate_last {ℓ} : {A : Type ℓ} → List A → List A
rotate_last [] = []
rotate_last (x ∷ xs) = elim (rotate_last xs) [ [] ↦ x ∷ [] | y ∷ ys ↦ y ∷ x ∷ ys ]

-- `Vec::swap_remove`: the last item takes the place of the one that goes.
unfoldable pub swap_remove {ℓ} : {A : Type ℓ} → List A → ℕ → List A
unfolding rotate_last
swap_remove [] i = []
swap_remove (x ∷ xs) zero = rotate_last xs
swap_remove (x ∷ xs) (suc i) = x ∷ swap_remove xs i

-- `grow` is the capacity that a full `Vec` takes when it is pushed to: `Vec` leaves it open.
unfoldable pub push_entry : {L : Type 0} → (ℕ → ℕ) → NotifierEntry L → RawNotifier L → RawNotifier L
push_entry grow e raw = record {
  listeners = raw.listeners ++ e ∷ [];
  capacity = if length raw.listeners == raw.capacity then grow raw.capacity else raw.capacity;
}

module _ {W L M : Type 0} (lis : Listener W L M) where
  open lis use {receive}

  -- The loop of `notify_many`. What a panicking listener leaves undelivered stays as it was.
  unfoldable pub deliver :
      List (NotifierEntry L) → List M → W → Result (Unit {0}) × (List (NotifierEntry L) × W)
  deliver [] ms w = (ok tt, ([], w))
  deliver (e ∷ es) ms w = elim (receive e.listener ms w).0 [
    | panic p ↦ (panic p, (e ∷ es, (receive e.listener ms w).1))
    | ok alive ↦
        let rest = deliver es ms (receive e.listener ms w).1 in
        (rest.0, (record e { was_alive = e.was_alive && alive } ∷ rest.1.0, rest.1.1))
  ]

  unfoldable pub notify_many : List M → Exec (RawNotifier L × W) (Unit {0})
  unfolding deliver
  notify_many ms (raw, w) =
      let done = deliver raw.listeners ms w in
      (done.0, (record raw { listeners = done.1.0 }, done.1.1))

  unfoldable pub notify : M → Exec (RawNotifier L × W) (Unit {0})
  unfolding notify_many
  notify m = notify_many (m ∷ [])

  -- `entry.was_alive.load(Relaxed) && entry.listener.receive(&[])`
  unfoldable pub ask : NotifierEntry L → Exec W Bool
  ask e w = elim e.was_alive [ true ↦ receive e.listener [] w | false ↦ (ok false, w) ]

  -- The loop of `drop_dead_listeners`, at index `i`. The first argument bounds its rounds.
  unfoldable pub drop_loop :
      ℕ → ℕ → List (NotifierEntry L) → W → Result (Unit {0}) × (List (NotifierEntry L) × W)
  unfolding ask swap_remove
  drop_loop zero i es w = (ok tt, (es, w))
  drop_loop (suc rounds) i es w = elim (get_elem? es i) [
    | none ↦ (ok tt, (es, w))
    | some e ↦ elim (ask e w).0 [
      | panic p ↦ (panic p, (es, (ask e w).1))
      | ok alive ↦ elim alive [
        | true ↦ drop_loop rounds (suc i) es (ask e w).1
        | false ↦ drop_loop rounds i (swap_remove es i) (ask e w).1
      ]
    ]
  ]

  -- Each round moves on by one item or takes one away, so there are as many as items.
  unfoldable pub drop_dead_listeners : Exec (RawNotifier L × W) (Unit {0})
  unfolding drop_loop
  drop_dead_listeners (raw, w) =
      let done = drop_loop (length raw.listeners) 0 raw.listeners w in
      (done.0, (record raw { listeners = done.1.0 }, done.1.1))

  unfoldable pub drop_dead_if_full : Exec (RawNotifier L × W) (Unit {0})
  unfolding drop_dead_listeners
  drop_dead_if_full (raw, w) =
      if leb raw.capacity (length raw.listeners)
      then drop_dead_listeners (raw, w)
      else (ok tt, (raw, w))

  abbrev pub on_world {κ} : {A : Type κ} → Exec W A → Exec (RawNotifier L × W) A
  on_world m (raw, w) = ((m w).0, (raw, (m w).1))

  -- The part of `listen_raw` behind its early return.
  unfoldable pub add_entry : (ℕ → ℕ) → L → Bool → Exec (RawNotifier L × W) (Unit {0})
  unfolding drop_dead_if_full push_entry
  add_entry grow l false = pure tt
  add_entry grow l true = do
    drop_dead_if_full
    λ s. (ok tt, (push_entry grow (record { listener = l; was_alive = true }) s.0, s.1))

  -- A listener that is dead already is not added.
  unfoldable pub listen_raw : (ℕ → ℕ) → L → Exec (RawNotifier L × W) (Unit {0})
  unfolding add_entry
  listen_raw grow l = do alive ← on_world (receive l []); add_entry grow l alive

  -- `listen` asks the listener before it is converted, as `into` says, to the type that is stored.
  unfoldable pub listen :
      {K : Type 0} (unconverted : Listener W K M) (into : K → L)
      → (ℕ → ℕ)
      → K
      → Exec (RawNotifier L × W) (Unit {0})
  unfolding add_entry
  listen unconverted into grow l = do
    alive ← on_world (unconverted.receive l [])
    add_entry grow (into l) alive

  unfoldable pub count_entries : List (NotifierEntry L) → Exec W ℕ
  unfolding ask
  count_entries [] = pure 0
  count_entries (e ∷ es) = do alive ← ask e; n ← count_entries es; pure (if alive then suc n else n)

  unfoldable pub count : Exec (RawNotifier L × W) ℕ
  unfolding count_entries
  count s = on_world (count_entries s.0.listeners) s
