-- ===== src/Notifier/Threads/Sequence.antt =====
-- The calls of a thread that is the only one to call a notifier, against the methods one after the
-- other.
use nosy.Prelude.{
  ℕ, ◌≡◌, refl, sym, ap, ◌∙◌, Bool, true, false, ◌&&◌, List, [], ◌∷◌, ◌++◌, inl, inr,
}
use nosy.Exec.{Result-cases}
use nosy.Listener.{Listener}
use nosy.MaybeSync.{RwLock, new_rw_lock}
use nosy.Notifier.Raw
use nosy.Notifier.Raw.{NotifierEntry, RawNotifier, deliver}
use nosy.Notifier.Delivery.{deliver-ok, deliver-panic}
use nosy.Notifier.Locked.{State, opened, shut, and_bits}
use nosy.Notifier.Calls.{Call, listening, notifying, counting, closing, perform, perform_all}
use nosy.Notifier.Threads.{Round, outside, Client, run, listeners_of}
use nosy.Notifier.Raw.{get_elem?}
use nosy.Notifier.Threads.Finished.{run-append}
use nosy.Notifier.Threads.Lifted.{
  lock_place, lifted, at, deliver-lifted, drop_dead-lifted, listen_raw-lifted,
}
use nosy.Notifier.Threads.Alone.{delivered_alone}

and_self : (a : Bool) → a && a ≡ a
and_self true = refl
and_self false = refl

and_again : (a b : Bool) → a && (a && b) ≡ a && b
and_again true b = refl
and_again false b = refl

and_bits_self : {L : Type 0} (es : List (NotifierEntry L)) → and_bits es es ≡ es
unfolding and_bits
and_bits_self [] = refl
and_bits_self (e ∷ es) = rw (and_self e.was_alive, and_bits_self es) refl

module _ {W L M : Type 0} (lis : Listener W L M) (grow : ℕ → ℕ) where
  -- Joining what a delivery cleared to the bits again changes nothing.
  and_bits-deliver :
      (es : List (NotifierEntry L)) (ms : List M) (w : W)
      → and_bits es (deliver lis es ms w).1.0 ≡ (deliver lis es ms w).1.0
  unfolding and_bits
  and_bits-deliver [] ms w = unfold deliver in refl
  and_bits-deliver (e ∷ es) ms w = elim (Result-cases (lis.receive e.listener ms w).0) [
    | inr (p, q) ↦
        let v = (lis.receive e.listener ms w).1 in
        rw (deliver-panic lis e es ms p v w (ap (λ x. (x, v)) q)) (and_bits_self (e ∷ es))
    | inl (alive, q) ↦
        let v = (lis.receive e.listener ms w).1 in
        rw (deliver-ok lis e es ms alive v w (ap (λ x. (x, v)) q))
          (rw (and_again e.was_alive alive, and_bits-deliver es ms v) refl)
  ]

  abbrev client : List (Call L M) → List (Round L M) → Client L M
  client calls h = record { calls = calls; stage = outside; history = h }

  -- The turns of the thread for one call, and the method.
  record Same (call : Call L M) (calls : List (Call L M)) (h : List (Round L M)) (state : State L)
      (w : W) : Type 0 where
    schedule : List ℕ
    later : List (Round L M)
    state_after : State L
    world_after : W
    turns :
        run lis grow schedule (client (call ∷ calls) h ∷ []) (at lis (new_rw_lock state) w)
        ≡ (client calls later ∷ [], at lis (new_rw_lock state_after) world_after)
    method :
        (perform (lifted lis) lock_place grow call (at lis (new_rw_lock state) w)).1
        ≡ at lis (new_rw_lock state_after) world_after

  notifying_alone :
      (ms : List M) (calls : List (Call L M)) (h : List (Round L M)) (raw : RawNotifier L) (w : W)
      → Same (notifying ms) calls h (opened raw) w
  unfolding perform run Raw.notify_many
  notifying_alone ms calls h raw w =
      let res = deliver lis raw.listeners ms w in
      let r : Round L M = record {
        messages = ms;
        present = listeners_of raw.listeners;
        called = [];
        panicked = false;
      } in
      let (schedule, later, t) =
        delivered_alone lis grow raw.capacity calls h ms [] raw.listeners r w in
      let k : RwLock (State L) = record { readers = 1; writing = false; value = opened raw } in
      record {
        schedule = 0 ∷ schedule;
        later = later;
        state_after = opened (record raw { listeners = res.1.0 });
        world_after = res.1.1;
        turns = t;
        method =
            rw (deliver-lifted lis k raw.listeners ms w)
              (rw (and_bits-deliver raw.listeners ms w) refl);
      }

  counting_method :
      (raw : RawNotifier L) (w : W)
      → (let done = Raw.drop_dead_listeners lis (raw, w) in
          (perform (lifted lis) lock_place grow counting (at lis (new_rw_lock (opened raw)) w)).1
          ≡ at lis (new_rw_lock (opened done.1.0)) done.1.1)
  unfolding perform
  counting_method raw w =
      let k : RwLock (State L) = record { readers = 0; writing = true; value = opened raw } in
      elim (Result-cases (Raw.drop_dead_listeners lis (raw, w)).0) [
        | inl (t, q) ↦ rw (drop_dead-lifted lis k raw w) (rw q refl)
        | inr (x, q) ↦ rw (drop_dead-lifted lis k raw w) (rw q refl)
      ]

  counting_alone :
      (calls : List (Call L M)) (h : List (Round L M)) (raw : RawNotifier L) (w : W)
      → Same counting calls h (opened raw) w
  unfolding perform run
  counting_alone calls h raw w =
      let done = Raw.drop_dead_listeners lis (raw, w) in
      let k : RwLock (State L) = record { readers = 0; writing = true; value = opened raw } in
      record {
        schedule = 0 ∷ 0 ∷ [];
        later = h;
        state_after = opened done.1.0;
        world_after = done.1.1;
        turns = refl;
        method = counting_method raw w;
      }

  call_alone :
      (call : Call L M) (calls : List (Call L M)) (h : List (Round L M)) (state : State L) (w : W)
      → Same call calls h state w
  unfolding perform run
  call_alone closing calls h state w = record {
    schedule = 0 ∷ 0 ∷ [];
    later = h;
    state_after = shut;
    world_after = w;
    turns = refl;
    method = refl;
  }
  call_alone (listening l) calls h shut w = record {
    schedule = 0 ∷ 0 ∷ [];
    later = h;
    state_after = shut;
    world_after = w;
    turns = refl;
    method = refl;
  }
  call_alone (listening l) calls h (opened raw) w =
      let done = Raw.listen_raw lis grow l (raw, w) in
      let k : RwLock (State L) = record { readers = 0; writing = true; value = opened raw } in
      record {
        schedule = 0 ∷ 0 ∷ [];
        later = h;
        state_after = opened done.1.0;
        world_after = done.1.1;
        turns = refl;
        method = rw (listen_raw-lifted lis k grow l raw w) refl;
      }
  call_alone counting calls h shut w = record {
    schedule = 0 ∷ 0 ∷ [];
    later = h;
    state_after = shut;
    world_after = w;
    turns = refl;
    method = refl;
  }
  call_alone counting calls h (opened raw) w = counting_alone calls h raw w
  call_alone (notifying ms) calls h shut w = record {
    schedule = 0 ∷ 0 ∷ [];
    later = record { messages = ms; present = []; called = []; panicked = false } ∷ h;
    state_after = shut;
    world_after = w;
    turns = refl;
    method = refl;
  }
  call_alone (notifying ms) calls h (opened raw) w = notifying_alone ms calls h raw w

  -- A thread that is the only one to call a notifier: some number of its turns does what the
  -- methods do, one after the other, panics of the listeners included, and all its calls are made.
  pub sequence :
      (calls : List (Call L M)) (h : List (Round L M)) (state : State L) (w : W)
      → (schedule : List ℕ) × (later : List (Round L M)) × (run lis grow schedule
            (client calls h ∷ [])
            (at lis (new_rw_lock state) w)
          ≡ (
            client [] later ∷ [],
            perform_all (lifted lis) lock_place grow calls (at lis (new_rw_lock state) w),
          ))
  unfolding perform_all run
  sequence [] h state w = ([], h, refl)
  sequence (call ∷ calls) h state w =
      let one = call_alone call calls h state w in
      let (schedule, later, t) = sequence calls one.later one.state_after one.world_after in
      (
        one.schedule ++ schedule,
        later,
        run-append lis grow 0 one.schedule schedule (client (call ∷ calls) h ∷ [])
              (at lis (new_rw_lock state) w)
            ∙ ap (λ x. run lis grow schedule x.0 x.1) one.turns
            ∙ t
            ∙ ap (λ s. (client [] later ∷ [], perform_all (lifted lis) lock_place grow calls s))
                (sym one.method),
      )
