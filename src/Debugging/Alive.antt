-- ===== src/Debugging/Alive.antt =====
-- What `Debug` prints of a listener, against what the listener answers.
use nosy.Prelude.{
  ℕ, zero, suc, ◌+◌, ◌≡◌, refl, ap, ◌∙◌, Bool, true, false, ltb, Option, none, some, [], arith,
}
use nosy.Exec.{Exec, ok, pure}
use nosy.Memory.{
  Place, Shared, shared, inside, strong_count, upgraded_or_dead, with_upgraded, with_upgraded_alive,
  with_upgraded_dead,
}
use nosy.MaybeSync.{Mutex}
use nosy.Store.{Store}
use nosy.StoreLock
use nosy.StoreLock.{listener_receive}
use Prim.Native.String.{String}
use nosy.SimpleListeners.{flag_receive}
use nosy.WakeFlag.{WakeFlagShared, AtomicWaker, receive}
use nosy.Debugging.{
  unquote, finish, Formatted, Fields, boolean, field, debug_struct, strong_fields,
  debug_flag_listener, debug_wake_flag_listener, debug_store_lock_listener,
}

abbrev has_owner : ℕ → Bool
has_owner zero = false
has_owner (suc n) = true

abbrev if_owned : ℕ → Bool → Option Bool
if_owned zero b = none
if_owned (suc n) b = some b

fields-alive :
    (n : ℕ) (b : Bool)
    → (rest : Fields) × (strong_fields (if_owned n b) ≡ field "alive" (boolean (has_owner n)) rest)
fields-alive zero b = (finish, refl)
fields-alive (suc n) b = (field "value" (boolean b) finish, refl)

positive : (n : ℕ) → ltb 0 (suc n) ≡ true
positive n = ground arith

module _ {W T : Type 0} (p : Place W (Shared T)) where
  -- A look through a weak reference.
  look :
      (part : T → Bool) (n : ℕ) (v : T) (w : W)
      → with_upgraded p (λ u. (ok (part ((inside p).get u)), u)) (p.put (shared p n v) w)
        ≡ (ok (if_owned n (part v)), p.put (shared p n v) w)
  unfolding inside
  look part zero v w = with_upgraded_dead p _ v w
  look part (suc n) v w =
      with_upgraded_alive p (λ u. (ok (part ((inside p).get u)), u)) (ok (part v)) n v v w w
        (ap (λ x. (ok (part x.value), p.put (shared p (suc n + 1) v) w))
          (p.get-put (shared p (suc n + 1) v) w))

  -- What a listener that is a weak reference answers to an empty slice.
  asked :
      (n : ℕ) (v : T) (w : W)
      → upgraded_or_dead p (pure true) (p.put (shared p n v) w)
        ≡ (ok (has_owner n), p.put (shared p n v) w)
  asked zero v w = rw (with_upgraded_dead p (pure true) v w) refl
  asked (suc n) v w = rw (with_upgraded_alive p (pure true) (ok true) n v v w w refl) refl

  counted : (n : ℕ) (v : T) (w : W) → ltb 0 (strong_count p (p.put (shared p n v) w)) ≡ has_owner n
  counted zero v w = ap (λ x. ltb 0 x.strong) (p.get-put (shared p 0 v) w)
  counted (suc n) v w = ap (λ x. ltb 0 x.strong) (p.get-put (shared p (suc n) v) w) ∙ positive n

-- What is printed of a listener says that it is alive just if an empty slice is answered `true`,
-- and neither changes anything. `whole` is what stands around the field.
abbrev pub Tells : {W : Type 0} → Exec W Bool → Exec W Formatted → (Fields → Formatted) → W → Type 0
Tells answer print whole u =
    (b : Bool) × (rest : Fields) × (answer u ≡ (ok b, u))
    × (print u ≡ (ok (whole (field "alive" (boolean b) rest)), u))

module _ {W : Type 0} (p : Place W (Shared Bool)) (M : Type 0) where
  flag-Tells :
      (n : ℕ) (v : Bool) (w : W)
      → Tells
          (flag_receive p {M = M} [])
          (debug_flag_listener p)
          (debug_struct "FlagListener")
          (p.put (shared p n v) w)
  unfolding flag_receive debug_flag_listener
  flag-Tells n v w =
      let (rest, e) = fields-alive n v in
      (
        has_owner n,
        rest,
        asked p n v w,
        rw (look p (λ b. b) n v w)
            (ap (λ f. (ok (debug_struct "FlagListener" f), p.put (shared p n v) w)) e),
      )

module _ {W Waker Task : Type 0} (aw : AtomicWaker Waker Task)
    (p : Place W (Shared (WakeFlagShared Waker Task))) (M : Type 0) where
  wake_flag-Tells :
      (n : ℕ) (v : WakeFlagShared Waker Task) (w : W)
      → Tells
          (receive aw p {M = M} [])
          (debug_wake_flag_listener p)
          (debug_struct "WakeFlagListener")
          (p.put (shared p n v) w)
  unfolding receive debug_wake_flag_listener
  wake_flag-Tells n v w =
      let (rest, e) = fields-alive n v.notified in
      (
        has_owner n,
        rest,
        asked p n v w,
        rw (look p (λ s. s.notified) n v w)
            (ap (λ f. (ok (debug_struct "WakeFlagListener" f), p.put (shared p n v) w)) e),
      )

module _ {W T M : Type 0} (st : Store T M) (p : Place W (Shared (Mutex T)))
    (type_name : String) where
  store_lock-Tells :
      (n : ℕ) (v : Mutex T) (w : W)
      → Tells
          (listener_receive st p [])
          (λ u. (ok (debug_store_lock_listener p type_name u), u))
          (λ f. debug_struct "StoreLockListener" (field "type" (unquote type_name) f))
          (p.put (shared p n v) w)
  unfolding listener_receive debug_store_lock_listener StoreLock.alive
  store_lock-Tells n v w = (
    has_owner n,
    finish,
    asked p n v w,
    ap
        (λ b. (
          ok (
              debug_struct "StoreLockListener"
                (field "type" (unquote type_name) (field "alive" (boolean b) finish))),
          p.put (shared p n v) w,
        ))
        (counted p n v w),
  )

module _ {U V W Waker Task T M : Type 0} (aw : AtomicWaker Waker Task) (st : Store T M)
    (p : Place U (Shared Bool)) (q : Place V (Shared (WakeFlagShared Waker Task)))
    (r : Place W (Shared (Mutex T))) where
  -- What is printed of a listener of a flag, of a wake flag or of a store lock says that it is
  -- alive just if the listener answers `true` to an empty slice, however many owners there are and
  -- whether the store lock is held or not. Neither changes anything.
  pub alive_lem :
      (type_name : String) (n : ℕ) (b : Bool) (s : WakeFlagShared Waker Task) (m : Mutex T) (u : U)
      (v : V) (w : W)
      → Tells
          (flag_receive p {M = M} [])
          (debug_flag_listener p)
          (debug_struct "FlagListener")
          (p.put (shared p n b) u)
        × Tells
            (receive aw q {M = M} [])
            (debug_wake_flag_listener q)
            (debug_struct "WakeFlagListener")
            (q.put (shared q n s) v)
        × Tells
            (listener_receive st r [])
            (λ x. (ok (debug_store_lock_listener r type_name x), x))
            (λ f. debug_struct "StoreLockListener" (field "type" (unquote type_name) f))
            (r.put (shared r n m) w)
  alive_lem type_name n b s m u v w =
      (flag-Tells p M n b u, wake_flag-Tells aw q M n s v, store_lock-Tells st r type_name n m w)
