-- ===== src/Flatten.antt =====
-- src/source/flatten.rs: `Flatten`, a source whose value is that of the source which another source
-- holds. The two kinds of source are parameters: how the outer one is read, and what it takes to
-- listen to an inner one through a new gate and to drop such a gate.
pub mod Reading
pub mod Values
pub mod Wiring
pub mod Forwarding
use nosy.Prelude.{
  ℕ, ◌+◌, ◌%◌, ◌^◌, ◌≡◌, ap, ◌∙◌, Bool, true, Option, none, some, List, leb, ◌==◌, if◌then◌else◌,
}
use nosy.Exec.{Exec, ok, pure, ◌>>=◌, ◌>>◌}
use nosy.Memory.{Place, Shared, inside, with_upgraded, upgraded_or_dead}
use nosy.MaybeSync.{Mutex, new_mutex, lock, unlock}
use nosy.Store.{is_empty}

pub record State (S G : Type 0) : Type 0 where
  pub generation : ℕ
  pub source : S
  pub gate : G

-- `Inner`, without the outer source and the notifier, which are parameters below.
pub record Inner (S G : Type 0) : Type 0 where
  pub state : Mutex (Option (State S G))
  pub generation_from_listening : ℕ

unfoldable pub new_inner : {S G : Type 0} → Inner S G
new_inner = record { state = new_mutex none; generation_from_listening = 0 }

-- `AtomicU32::fetch_add(1)`, which wraps around.
unfoldable pub next_generation : ℕ → ℕ
next_generation n = (n + 1) % 2 ^ 32

module _ {W S G : Type 0} (q : Place W (Inner S G)) where
  unfoldable pub state_place : Place W (Mutex (Option (State S G)))
  state_place = record {
    get = λ w. (q.get w).state;
    put = λ s w. q.put (record (q.get w) { state = s }) w;
    get-put = λ s w. ap (λ i. i.state) (q.get-put (record (q.get w) { state = s }) w);
    put-get = q.put-get;
    put-put = λ s t w.
        ap (λ i. q.put (record i { state = s }) (q.put (record (q.get w) { state = t }) w))
          (q.get-put (record (q.get w) { state = t }) w)
        ∙ q.put-put _ _ w;
  }

  abbrev pub current_at : ℕ → Option (State S G) → Option S
  current_at needed none = none
  current_at needed (some st) = if st.generation == needed then some st.source else none

  abbrev pub newer_at : ℕ → Option (State S G) → Option S
  newer_at needed none = none
  newer_at needed (some st) = if leb needed st.generation then some st.source else none

  module _ (outer_get : Exec W S) (subscribe : S → Exec W G) (drop_gate : G → W → W) where
    abbrev pub drop_state : Option (State S G) → W → W
    drop_state none w = w
    drop_state (some st) w = drop_gate st.gate w

    -- The second match, behind the lock. If somebody else has stored a source that is new enough,
    -- that one is used, and the new gate is dropped.
    unfoldable pub store_new : S → G → Option (State S G) → Option S → Exec W S
    unfolding state_place unlock
    store_new source gate old (some theirs) w =
        (ok theirs, drop_gate gate (unlock state_place old w))
    store_new source gate old none w =
        let stored : State S G = record { generation = 0; source = source; gate = gate } in
        (ok source, unlock state_place (some stored) (drop_state old w))

    -- The first match, and what follows it.
    unfoldable pub renew : ℕ → Option S → Exec W S
    unfolding store_new lock
    renew needed (some source) = pure source
    renew needed none = do
      source ← outer_get
      gate ← subscribe source
      old ← lock state_place
      store_new source gate old (newer_at needed old)

    abbrev peek : Exec W (Option (State S G))
    peek = do old ← lock state_place; λ w. (ok old, unlock state_place old w)

    unfoldable pub get_source_and_listen_if_new : Exec W S
    unfolding renew state_place lock unlock
    get_source_and_listen_if_new w =
        let needed = (q.get w).generation_from_listening in
        (do old ← peek; renew needed (current_at needed old)) w

    -- `Source::get`
    unfoldable pub get : {V : Type 0} → (S → Exec W V) → Exec W V
    unfolding get_source_and_listen_if_new
    get inner_get = do source ← get_source_and_listen_if_new; inner_get source

module _ {W S G : Type 0} (p : Place W (Shared (Inner S G))) (notify : Exec W (Unit {0})) where
  abbrev count_change : Exec W (Unit {0})
  count_change w =
      let i = (inside p).get w in
      (
        ok tt,
        (inside p).put
            (record i { generation_from_listening = next_generation i.generation_from_listening })
            w,
      )

  -- `OuterListener::receive`
  unfoldable pub outer_receive : List (Unit {0}) → Exec W Bool
  unfolding next_generation inside with_upgraded
  outer_receive messages =
      upgraded_or_dead p
        (if is_empty messages then pure true else do count_change; notify; pure true)
