-- ===== src/Tests/Listeners.antt =====
-- The simple listeners, gates, containers and cells.
use nosy.Prelude.{
  inl, inr, ℕ, zero, suc, ◌≡◌, refl, ap, ◌∙◌, Bool, false, List, [], ◌∷◌, arith, ◌==◌,
}
use nosy.Exec.{ok, ◌>>◌}
use nosy.Listener.{IsLawful, Independent}
use nosy.Store.{vec_store, vec_store-IsStore}
use nosy.StoreLock.Delivery.{
  lock_listener, unlocked, listener_receive_lem, listener_receive-IsLawful,
}
use nosy.StoreLock.{listener_receive}
use nosy.SimpleListeners.Pairs.{either, both-IsLawful}
use nosy.SimpleListeners.{both, log_receive, drain, flag_receive}
use nosy.SimpleListeners.Delivery.{drain_lem}
use nosy.Gate
use nosy.Gate.{GateListener, gate_listener}
use nosy.Gate.Delivery.{gate_lem, gate_listener-IsLawful}
use nosy.LoadStore.{IsLoadStore, atomic, atomic-IsLoadStore}
use nosy.Tests.World.{
  World, Which, to_log, to_flag, log_place, gate_place, value_place, listeners, receive_at, Free,
  lawful, log_flag-Independent, start,
}

abbrev here : World ℕ
here = start

-- The log has its one owner, and nobody holds its lock.
Owned : World ℕ → Type 0
Owned w = (v : List ℕ) × (w.log ≡ record { strong = 1; value = unlocked v })

delivered-Owned :
    (ms : List ℕ) (w : World ℕ) → Owned w → Owned (listener_receive vec_store log_place ms w).1
unfolding Owned
delivered-Owned ms w (v, e) = (
  vec_store.receive v ms,
  ap (λ s. (listener_receive vec_store log_place ms (record w { log = s })).1.log) e
      ∙ ap (λ r. r.1.log) (listener_receive_lem vec_store log_place 0 v ms w vec_store-IsStore),
)

Owned-free : (w : World ℕ) → Owned w → w.log.value.locked ≡ false
unfolding Owned
Owned-free w (v, e) = ap (λ s. s.value.locked) e

listener_receive-IsLawful_example : IsLawful (lock_listener vec_store log_place) Owned tt
listener_receive-IsLawful_example =
    listener_receive-IsLawful vec_store log_place Owned Owned-free delivered-Owned vec_store-IsStore

drain_lem_example :
    (log_receive log_place (5 ∷ []) >> log_receive log_place (6 ∷ []) >> drain log_place) here
    ≡ (ok (5 ∷ 6 ∷ []), here)
drain_lem_example = drain_lem log_place 0 [] (5 ∷ []) (6 ∷ []) here

abbrev gated : GateListener (World ℕ) Which
gated = (Gate.new gate_place to_log here).0

gate_lem_example :
    (Gate.receive listeners gated (5 ∷ []) here ≡ listeners.receive to_log (5 ∷ []) here)
    × (Gate.receive listeners gated (5 ∷ []) (Gate.drop gate_place (Gate.clone gate_place here))
        ≡ listeners.receive to_log (5 ∷ []) here)
    × (Gate.receive listeners gated (5 ∷ []) (Gate.drop gate_place here)
        ≡ (ok false, Gate.drop gate_place here))
unfolding Gate.new
gate_lem_example = gate_lem listeners gate_place to_log (5 ∷ []) here

abbrev flag_gate : GateListener (World ℕ) Which
flag_gate = record { weak = gate_place; target = to_flag }

leaves_at :
    (ms : List ℕ) (n : ℕ) (v : Bool) (w : World ℕ)
    → (receive_at to_flag ms (record w { flag = record { strong = n; value = v } })).1.gate.strong
      ≡ w.gate.strong
unfolding receive_at flag_receive
leaves_at ms zero v w = refl
leaves_at [] (suc n) v w = refl
leaves_at (m ∷ ms) (suc n) v w = refl

gate_listener-IsLawful_example : IsLawful (gate_listener listeners) Free flag_gate
gate_listener-IsLawful_example =
    gate_listener-IsLawful listeners Free flag_gate (lawful to_flag)
      (λ ms w i. leaves_at ms w.flag.strong w.flag.value w)

-- The log and the flag as a pair.
log_and_flag : Independent (either listeners listeners) (Free {M = ℕ}) (inl to_log) (inr to_flag)
log_and_flag = record {
  swap = log_flag-Independent.swap;
  left = log_flag-Independent.left;
  right = log_flag-Independent.right;
}

both-IsLawful_example : IsLawful (both listeners listeners) (Free {M = ℕ}) (to_log, to_flag)
both-IsLawful_example =
    both-IsLawful listeners listeners Free to_log to_flag (lawful to_log) (lawful to_flag)
      log_and_flag

abbrev same : ℕ → ℕ → Bool
same a b = a == b

atomic-IsLoadStore_example :
    IsLoadStore same (atomic same (value_place {M = ℕ})) value_place (λ v. v)
atomic-IsLoadStore_example =
    atomic-IsLoadStore same value_place (λ a b. ground arith) (λ a b e. ground arith)
