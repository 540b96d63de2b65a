-- ===== src/Store.antt =====
-- src/store.rs: the traits `Store` and `StoreRef`, their implementations for the standard
-- containers and locks, and the weak references that make a `StoreRef` a listener.
use mathlib.Core.List.{foldl}
use nosy.Prelude.{
  ◌≡◌, refl, Bool, true, false, ◌||◌, List, [], ◌∷◌, ◌++◌, append-nil, append_assoc, sym, ltb,
  if◌then◌else◌,
}
use nosy.Exec.{Exec, ok, pure, ◌>>=◌, ◌>>◌}
use nosy.Memory.{Place, Shared, strong_count, with_upgraded, upgraded_or_dead}
use nosy.MaybeSync.{Mutex, lock, unlock}

-- `Store::receive` takes `&mut self`, so it is a function of the state.
pub record Store (T M : Type 0) : Type 0 where
  pub receive : T → List M → T

-- The requirements of `Store::receive()`: an empty slice has no effect, and a slice is processed
-- like its parts.
pub record IsStore {T M : Type 0} (st : Store T M) : Type 0 where
  pub empty : (t : T) → st.receive t [] ≡ t
  pub batch : (t : T) (xs ys : List M) → st.receive t (xs ++ ys) ≡ st.receive (st.receive t xs) ys

-- `Vec::extend_from_slice`
abbrev pub vec_store : {M : Type 0} → Store (List M) M
vec_store = record { receive = λ v messages. v ++ messages }

vec_empty : {M : Type 0} (v : List M) → v ++ [] ≡ v
vec_empty v = append-nil v

vec_batch : {M : Type 0} (v xs ys : List M) → v ++ (xs ++ ys) ≡ (v ++ xs) ++ ys
vec_batch v xs ys = sym (append_assoc v xs ys)

pub vec_store-IsStore : {M : Type 0} → IsStore (vec_store {M = M})
vec_store-IsStore = record { empty = vec_empty; batch = vec_batch }

-- A `BTreeSet` or `HashSet` is seen through its membership test. `same` is the equality of the
-- messages that the set goes by.
module _ {M : Type 0} (same : M → M → Bool) where
  abbrev insert : (M → Bool) → M → M → Bool
  insert set m x = same m x || set x

  unfoldable pub extend : (M → Bool) → List M → M → Bool
  extend set [] = set
  extend set (m ∷ messages) = extend (insert set m) messages

  abbrev pub set_store : Store (M → Bool) M
  set_store = record { receive = extend }

  extend-append :
      (set : M → Bool) (xs ys : List M) → extend set (xs ++ ys) ≡ extend (extend set xs) ys
  unfolding extend
  extend-append set [] ys = refl
  extend-append set (x ∷ xs) ys = extend-append (insert set x) xs ys

  extend-nil : (set : M → Bool) → extend set [] ≡ set
  unfolding extend
  extend-nil set = refl

  pub set_store-IsStore : IsStore set_store
  set_store-IsStore = record { empty = extend-nil; batch = extend-append }

  -- A set holds what it held before and each message that it received, and nothing else.
  pub extend_lem :
      (set : M → Bool) (messages : List M) (x : M)
      → extend set messages x ≡ foldl (λ found m. same m x || found) (set x) messages
  unfolding extend
  extend_lem set [] x = refl
  extend_lem set (m ∷ messages) x = extend_lem (insert set m) messages x

abbrev pub is_empty : {M : Type 0} → List M → Bool
is_empty [] = true
is_empty (m ∷ ms) = false

-- `StoreRef` for a `RefCell` or a `Mutex` that holds a `Store`.
unfoldable pub locked_receive :
    {W T M : Type 0} → Store T M → Place W (Mutex T) → List M → Exec W (Unit {0})
unfolding lock unlock
locked_receive st p messages = do
  state ← lock p
  λ w. (ok tt, unlock p (st.receive state messages) w)

-- The listener `Weak<T>` for a `StoreRef` `T`, whose `receive` is a parameter.
module _ {W T M : Type 0} (p : Place W (Shared T)) (store_ref : List M → Exec W (Unit {0})) where
  unfoldable pub weak_receive : List M → Exec W Bool
  unfolding with_upgraded
  weak_receive messages w =
      if is_empty messages
      then (ok (ltb 0 (strong_count p w)), w)
      else upgraded_or_dead p (do store_ref messages; pure true) w
