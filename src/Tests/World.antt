-- ===== src/Tests/World.antt =====
-- A world with a notifier, a log, a flag, a gate, a cell's value and its local copy, and a second
-- notifier that is shared; and the listeners that deliver to the log and to the flag.
use nosy.Prelude.{ℕ, zero, suc, ◌≡◌, refl, Bool, true, false, List, [], ◌∷◌}
use nosy.Exec.{Exec}
use nosy.Listener.{Listener, IsLawful, Independent}
use nosy.Listener.Local.{local-Independent}
use nosy.Listener.Weak.{IsWeak, IsWeak-as, weak-IsLocal, weak-IsLawful}
use nosy.Memory.{Place, Shared, Apart, Framed}
use nosy.Memory.Within.{part-commutes}
use nosy.MaybeSync.{Mutex, new_rw_lock}
use nosy.Notifier.Raw.{RawNotifier}
use nosy.Notifier.Locked.{Notifier, opened}
use nosy.Notifier.Delivery.{AllLawful, AllApart}
use nosy.Notifier.Outside.{AllOutside}
use nosy.StoreLock.{listener_receive}
use nosy.Store.{vec_store, vec_store-IsStore}
use nosy.StoreLock.Delivery.{listener_receive-IsWeak, stored}
use nosy.SimpleListeners.{log_receive, flag_receive}
use nosy.SimpleListeners.Delivery.{flag_receive-IsWeak, raised}

pub data Which : Type 0 where
  to_log : Which
  to_flag : Which

pub record World (M : Type 0) : Type 0 where
  pub notifier : Notifier Which
  pub log : Shared (Mutex (List M))
  pub flag : Shared Bool
  pub gate : Shared (Unit {0})
  pub value : ℕ
  pub local : ℕ
  pub hub : Shared (Notifier Which)

-- The part of the world that the listeners leave alone.
record Rest : Type 0 where
  pub notifier : Notifier Which
  pub gate : Shared (Unit {0})
  pub value : ℕ
  pub local : ℕ
  pub hub : Shared (Notifier Which)

module _ {M : Type 0} where
  abbrev pub notifier_place : Place (World M) (Notifier Which)
  notifier_place = record {
    get = λ w. w.notifier;
    put = λ s w. record w { notifier = s };
    get-put = λ s w. refl;
    put-get = λ w. refl;
    put-put = λ s t w. refl;
  }

  abbrev pub log_place : Place (World M) (Shared (Mutex (List M)))
  log_place = record {
    get = λ w. w.log;
    put = λ s w. record w { log = s };
    get-put = λ s w. refl;
    put-get = λ w. refl;
    put-put = λ s t w. refl;
  }

  abbrev pub flag_place : Place (World M) (Shared Bool)
  flag_place = record {
    get = λ w. w.flag;
    put = λ s w. record w { flag = s };
    get-put = λ s w. refl;
    put-get = λ w. refl;
    put-put = λ s t w. refl;
  }

  abbrev pub gate_place : Place (World M) (Shared (Unit {0}))
  gate_place = record {
    get = λ w. w.gate;
    put = λ s w. record w { gate = s };
    get-put = λ s w. refl;
    put-get = λ w. refl;
    put-put = λ s t w. refl;
  }

  abbrev pub value_place : Place (World M) ℕ
  value_place = record {
    get = λ w. w.value;
    put = λ s w. record w { value = s };
    get-put = λ s w. refl;
    put-get = λ w. refl;
    put-put = λ s t w. refl;
  }

  abbrev pub local_place : Place (World M) ℕ
  local_place = record {
    get = λ w. w.local;
    put = λ s w. record w { local = s };
    get-put = λ s w. refl;
    put-get = λ w. refl;
    put-put = λ s t w. refl;
  }

  abbrev pub hub_place : Place (World M) (Shared (Notifier Which))
  hub_place = record {
    get = λ w. w.hub;
    put = λ s w. record w { hub = s };
    get-put = λ s w. refl;
    put-get = λ w. refl;
    put-put = λ s t w. refl;
  }

  abbrev rest_place : Place (World M) Rest
  rest_place = record {
    get = λ w. record {
      notifier = w.notifier;
      gate = w.gate;
      value = w.value;
      local = w.local;
      hub = w.hub;
    };
    put = λ s w. record w {
      notifier = s.notifier;
      gate = s.gate;
      value = s.value;
      local = s.local;
      hub = s.hub;
    };
    get-put = λ s w. refl;
    put-get = λ w. refl;
    put-put = λ s t w. refl;
  }

  pub log_flag-Apart : Apart (log_place) flag_place
  log_flag-Apart = record {
    get-left = λ t w. refl;
    get-right = λ s w. refl;
    put-swap = λ s t w. refl;
  }

  pub value_notifier-Apart : Apart (value_place) notifier_place
  value_notifier-Apart = record {
    get-left = λ t w. refl;
    get-right = λ s w. refl;
    put-swap = λ s t w. refl;
  }

  pub local_notifier-Apart : Apart (local_place) notifier_place
  local_notifier-Apart = record {
    get-left = λ t w. refl;
    get-right = λ s w. refl;
    put-swap = λ s t w. refl;
  }

  pub local_value-Apart : Apart (local_place) value_place
  local_value-Apart = record {
    get-left = λ t w. refl;
    get-right = λ s w. refl;
    put-swap = λ s t w. refl;
  }

  unfoldable pub receive_at : Which → List M → Exec (World M) Bool
  unfolding log_receive flag_receive
  receive_at to_log = log_receive log_place
  receive_at to_flag = flag_receive flag_place

  abbrev pub listeners : Listener (World M) Which M
  listeners = record { receive = receive_at }

  -- Nobody holds the lock of the log.
  abbrev pub Free : World M → Type 0
  Free w = w.log.value.locked ≡ false

  to_log-IsWeak :
      IsWeak listeners Free log_place (λ m. m.locked ≡ false) (stored vec_store log_place) to_log
  unfolding receive_at log_receive
  to_log-IsWeak =
      IsWeak-as to_log
        (listener_receive-IsWeak vec_store log_place Free (λ w i. i) (λ n v w i. refl)
          vec_store-IsStore)
        (λ ms w. refl)

  to_flag-IsWeak : IsWeak listeners Free flag_place (λ _. Unit) (raised flag_place) to_flag
  unfolding receive_at
  to_flag-IsWeak =
      IsWeak-as to_flag (flag_receive-IsWeak flag_place Free (λ n b w i. i)) (λ ms w. refl)

  pub lawful : (l : Which) → IsLawful listeners Free l
  lawful to_log = weak-IsLawful to_log-IsWeak
  lawful to_flag = weak-IsLawful to_flag-IsWeak

  pub log_flag-Independent : Independent listeners Free to_log to_flag
  log_flag-Independent =
      local-Independent (weak-IsLocal to_log-IsWeak) (weak-IsLocal to_flag-IsWeak) log_flag-Apart

  log-commutes :
      (ms : List M) (s : Rest) (n : ℕ) (locked : Bool) (v : List M) (w : World M)
      → (let u : World M = record w {
        log = record { strong = n; value = record { locked = locked; value = v } };
      } in
          receive_at to_log ms (rest_place.put s u)
          ≡ ((receive_at to_log ms u).0, rest_place.put s (receive_at to_log ms u).1))
  unfolding receive_at log_receive listener_receive
  log-commutes ms s zero locked v w = refl
  log-commutes [] s (suc n) locked v w = refl
  log-commutes (m ∷ ms) s (suc n) false v w = refl
  log-commutes (m ∷ ms) s (suc n) true v w = refl

  flag-commutes :
      (ms : List M) (s : Rest) (n : ℕ) (v : Bool) (w : World M)
      → (let u : World M = record w { flag = record { strong = n; value = v } } in
          receive_at to_flag ms (rest_place.put s u)
          ≡ ((receive_at to_flag ms u).0, rest_place.put s (receive_at to_flag ms u).1))
  unfolding receive_at flag_receive
  flag-commutes ms s zero v w = refl
  flag-commutes [] s (suc n) v w = refl
  flag-commutes (m ∷ ms) s (suc n) v w = refl

  rest_outside : (l : Which) (ms : List M) → Framed rest_place (receive_at l ms)
  rest_outside to_log ms = record {
    commutes = λ s w. log-commutes ms s w.log.strong w.log.value.locked w.log.value.value w;
  }
  rest_outside to_flag ms = record {
    commutes = λ s w. flag-commutes ms s w.flag.strong w.flag.value w;
  }

  pub outside : (l : Which) (ms : List M) → Framed notifier_place (receive_at l ms)
  outside l ms = record {
    commutes = λ n. part-commutes rest_place (rest_outside l ms) (λ s. record s { notifier = n });
  }

  pub value_outside : (l : Which) (ms : List M) → Framed value_place (receive_at l ms)
  value_outside l ms = record {
    commutes = λ n. part-commutes rest_place (rest_outside l ms) (λ s. record s { value = n });
  }

  pub local_outside : (l : Which) (ms : List M) → Framed local_place (receive_at l ms)
  local_outside l ms = record {
    commutes = λ n. part-commutes rest_place (rest_outside l ms) (λ s. record s { local = n });
  }

  pub hub_outside : (l : Which) (ms : List M) → Framed hub_place (receive_at l ms)
  hub_outside l ms = record {
    commutes = λ n. part-commutes rest_place (rest_outside l ms) (λ s. record s { hub = n });
  }

-- A notifier with the two listeners, whose vector is full.
abbrev pub two : RawNotifier Which
two = record {
  listeners =
      record { listener = to_log; was_alive = true }
      ∷ record { listener = to_flag; was_alive = true }
      ∷ [];
  capacity = 2;
}

module _ {M : Type 0} where
  -- Everything has one owner and is empty.
  abbrev pub start : World M
  start = record {
    notifier = new_rw_lock (opened two);
    log = record { strong = 1; value = record { locked = false; value = [] } };
    flag = record { strong = 1; value = false };
    gate = record { strong = 1; value = tt };
    value = 0;
    local = 0;
    hub = record { strong = 1; value = new_rw_lock (opened two) };
  }

  pub two-AllLawful : AllLawful (listeners {M = M}) Free two.listeners
  two-AllLawful = (lawful to_log, (lawful to_flag, tt))

  pub two-AllApart : AllApart (listeners {M = M}) Free two.listeners
  two-AllApart = ((log_flag-Independent, tt), (tt, tt))

  pub two-AllOutside : AllOutside (listeners {M = M}) notifier_place two.listeners
  two-AllOutside = (outside to_log, (outside to_flag, tt))

  pub two-AllOutside_value : AllOutside (listeners {M = M}) value_place two.listeners
  two-AllOutside_value = (value_outside to_log, (value_outside to_flag, tt))

  pub two-AllOutside_local : AllOutside (listeners {M = M}) local_place two.listeners
  two-AllOutside_local = (local_outside to_log, (local_outside to_flag, tt))

  pub two-AllOutside_hub : AllOutside (listeners {M = M}) hub_place two.listeners
  two-AllOutside_hub = (hub_outside to_log, (hub_outside to_flag, tt))
