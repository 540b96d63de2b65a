-- ===== src/Filter/Batches.antt =====
-- `Filter` may pass messages on in any batches: a target that keeps the requirements cannot tell.
use nosy.Prelude.{
  ℕ, ◌<◌, ◌≡◌, refl, sym, ap, ◌∙◌, Bool, true, false, Option, none, some, List, [], ◌∷◌, ◌++◌,
  append-nil, append_assoc, arith, ◌==◌, Bool-cases, Option-cases, inl, inr,
}
use nosy.Exec.{Exec, ok, pure, ◌>>=◌, ◌>>◌, continue}
use nosy.Listener.{Listener, IsLawful}
use nosy.ArrayVec.{ArrayVec}
use nosy.Filter.{Filter, filter_map, make_room, filter_loop, receive_buffered, receive_zst, receive}
use nosy.Notifier.Slices.{receive-append}

module _ {W T MO Buf : Type 0} {batch : ℕ} (target : Listener W T MO) (av : ArrayVec Buf MO batch)
    (Inv : W → Type 0) (t : T) (h : IsLawful target Inv t) (room : 0 < batch) where
  open target use {receive as deliver}
  open av use {new, push, is_full, clear, as_slice}

  not_full : (b : Buf) → as_slice b ≡ [] → is_full b ≡ false
  not_full b e = av.is_full_lem b ∙ rw e (ground arith)

  make_room-room :
      (b : Buf) (w : W) → is_full b ≡ false → make_room target av t b w ≡ (ok (some b), w)
  unfolding make_room
  make_room-room b w e = rw e

  make_room-full :
      (b : Buf) (alive : Bool) (w : W)
      → is_full b ≡ true
      → (deliver t (as_slice b) w).0 ≡ ok alive
      → make_room target av t b w
        ≡ (ok (elim alive [ true ↦ some (clear b) | false ↦ none ]), (deliver t (as_slice b) w).1)
  unfolding make_room
  make_room-full b true w e q = rw e (rw q)
  make_room-full b false w e q = rw e (rw q)

  module _ {MI : Type 0} (function : MI → Option MO) where
    abbrev f : Filter MI MO T
    f = record { function = function; target = t }

    -- What `receive` does behind the loop.
    abbrev finish : Option Buf → Exec W Bool
    finish none = pure false
    finish (some b) = deliver t (as_slice b)

    filter_loop-skip :
        (m : MI) (ms : List MI) (b : Buf)
        → function m ≡ none
        → filter_loop target av f (m ∷ ms) b ≡ filter_loop target av f ms b
    unfolding filter_loop
    filter_loop-skip m ms b e = rw e

    filter_loop-push :
        (m : MI) (ms : List MI) (b b' b'' : Buf) (y : MO) (w v : W)
        → function m ≡ some y
        → make_room target av t b w ≡ (ok (some b'), v)
        → push b' y ≡ ok b''
        → filter_loop target av f (m ∷ ms) b w ≡ filter_loop target av f ms b'' v
    unfolding filter_loop
    filter_loop-push m ms b b' b'' y w v e r q = rw e (rw r (rw q))

    filter_loop-stop :
        (m : MI) (ms : List MI) (b : Buf) (y : MO) (w v : W)
        → function m ≡ some y
        → make_room target av t b w ≡ (ok none, v)
        → filter_loop target av f (m ∷ ms) b w ≡ (ok none, v)
    unfolding filter_loop
    filter_loop-stop m ms b y w v e r = rw e (rw r)

    -- What is shown of the loop at a list of messages.
    abbrev Loops : List MI → Type 0
    Loops ms =
        (b : Buf) (w : W)
        → Inv w
        → (filter_loop target av f ms b >>= finish) w
          ≡ deliver t (as_slice b ++ filter_map function ms) w

    filter_map-some :
        (m : MI) (ms : List MI) (y : MO)
        → function m ≡ some y
        → filter_map function (m ∷ ms) ≡ y ∷ filter_map function ms
    unfolding filter_map
    filter_map-some m ms y e = rw (e, filter_map)

    filter_map-none :
        (m : MI) (ms : List MI)
        → function m ≡ none
        → filter_map function (m ∷ ms) ≡ filter_map function ms
    unfolding filter_map
    filter_map-none m ms e = rw (e, filter_map)

    Loops-room :
        (m : MI) (ms : List MI) (y : MO) (b : Buf) (w : W)
        → Inv w
        → Loops ms
        → function m ≡ some y
        → is_full b ≡ false
        → (filter_loop target av f (m ∷ ms) b >>= finish) w
          ≡ deliver t (as_slice b ++ filter_map function (m ∷ ms)) w
    Loops-room m ms y b w i ih e r =
        let (b', q, slice) = av.push_room b y r in
        rw (filter_loop-push m ms b b b' y w w e (make_room-room b w r) q) (
          rw (filter_map-some m ms y e) (
            ih b' w i
            ∙ rw slice (rw (append_assoc (as_slice b) (y ∷ []) (filter_map function ms)))))

    Loops-flush :
        (m : MI) (ms : List MI) (y : MO) (b : Buf) (w : W)
        → Inv w
        → Loops ms
        → function m ≡ some y
        → is_full b ≡ true
        → (deliver t (as_slice b) w).0 ≡ ok true
        → (filter_loop target av f (m ∷ ms) b >>= finish) w
          ≡ deliver t (as_slice b ++ filter_map function (m ∷ ms)) w
    Loops-flush m ms y b w i ih e full alive =
        let v = (deliver t (as_slice b) w).1 in
        let c = av.as_slice-clear b in
        let (b', q, slice) = av.push_room (clear b) y (not_full (clear b) c) in
        rw (filter_loop-push m ms b (clear b) b' y w v e (make_room-full b true w full alive) q) (
          rw (receive-append target Inv t (as_slice b) (filter_map function (m ∷ ms)) w i h)
            (ih b' v (h.keeps (as_slice b) w i) ∙ rw (slice, c) (rw (filter_map-some m ms y e))))

    Loops-dead :
        (m : MI) (ms : List MI) (y : MO) (b : Buf) (w : W)
        → Inv w
        → function m ≡ some y
        → is_full b ≡ true
        → (deliver t (as_slice b) w).0 ≡ ok false
        → (filter_loop target av f (m ∷ ms) b >>= finish) w
          ≡ deliver t (as_slice b ++ filter_map function (m ∷ ms)) w
    Loops-dead m ms y b w i e full gone =
        let v = (deliver t (as_slice b) w).1 in
        rw (filter_loop-stop m ms b y w v e (make_room-full b false w full gone)) (
          rw (receive-append target Inv t (as_slice b) (filter_map function (m ∷ ms)) w i h)
            (sym (h.dead (as_slice b) w i gone (filter_map function (m ∷ ms)))))

    Loops-some :
        (m : MI) (ms : List MI) (y : MO) (b : Buf) (w : W)
        → Inv w
        → Loops ms
        → function m ≡ some y
        → (filter_loop target av f (m ∷ ms) b >>= finish) w
          ≡ deliver t (as_slice b ++ filter_map function (m ∷ ms)) w
    Loops-some m ms y b w i ih e = elim (Bool-cases (is_full b)) [
      | inr r ↦ Loops-room m ms y b w i ih e r
      | inl full ↦
          let (alive, q) = h.total (as_slice b) w i in
          elim (Bool-cases alive) [
            | inl live ↦ Loops-flush m ms y b w i ih e full (q ∙ ap ok live)
            | inr gone ↦ Loops-dead m ms y b w i e full (q ∙ ap ok gone)
          ]
    ]

    filter_loop_lem : (ms : List MI) → Loops ms
    filter_loop_lem [] b w i = unfold filter_loop filter_map in rw (append-nil (as_slice b))
    filter_loop_lem (m ∷ ms) b w i = elim (Option-cases (function m)) [
      | inl e ↦
          rw (filter_loop-skip m ms b e) (rw (filter_map-none m ms e) (filter_loop_lem ms b w i))
      | inr (y, e) ↦ Loops-some m ms y b w i (filter_loop_lem ms) e
    ]

    -- Whatever its batches, and on the branch for messages of size zero too, a filter does to a
    -- target that keeps the requirements, and answers, what one delivery of all the messages that
    -- pass would, when its buffer holds at least one message.
    pub receive_lem :
        (size_of_mo : ℕ) (ms : List MI) (w : W)
        → Inv w
        → receive target av size_of_mo f ms w ≡ deliver t (filter_map function ms) w
    unfolding receive receive_zst receive_buffered
    receive_lem size_of_mo ms w i = elim (Bool-cases (size_of_mo == 0)) [
      | inl z ↦ rw z
      | inr s ↦ rw s (filter_loop_lem ms new w i ∙ rw av.as_slice-new)
    ]

    filter_map-append :
        (xs ys : List MI)
        → filter_map function (xs ++ ys) ≡ filter_map function xs ++ filter_map function ys
    filter_map-append [] ys = unfold filter_map in refl
    filter_map-append (x ∷ xs) ys = elim (Option-cases (function x)) [
      | inl e ↦
          rw (filter_map-none x (xs ++ ys) e, filter_map-none x xs e) (filter_map-append xs ys)
      | inr (y, e) ↦
          rw (filter_map-some x (xs ++ ys) y e, filter_map-some x xs y e)
            (ap (◌∷◌ y) (filter_map-append xs ys))
    ]

    -- The filter as a listener.
    abbrev pub filtered : ℕ → Listener W (Unit {0}) MI
    filtered size_of_mo = record { receive = λ _. receive target av size_of_mo f }

    receive-batch :
        (n : ℕ) (xs ys : List MI) (w : W)
        → Inv w
        → receive target av n f (xs ++ ys) w
          ≡ (receive target av n f xs >> receive target av n f ys) w
    receive-batch n xs ys w i =
        let (alive, q) = h.total (filter_map function xs) w i in
        receive_lem n (xs ++ ys) w i
        ∙ rw (filter_map-append xs ys) (
            h.batch (filter_map function xs) (filter_map function ys) w i
            ∙ rw (receive_lem n xs w i) (
                rw (q, continue) (sym (receive_lem n ys _ (h.keeps (filter_map function xs) w i)))))

    -- A filter in front of a listener that keeps the requirements keeps them too, when its buffer
    -- holds at least one message.
    pub filtered-IsLawful : (size_of_mo : ℕ) → IsLawful (filtered size_of_mo) Inv tt
    filtered-IsLawful n = record {
      keeps = λ ms w i. rw (receive_lem n ms w i) (h.keeps (filter_map function ms) w i);
      total = λ ms w i. rw (receive_lem n ms w i) (h.total (filter_map function ms) w i);
      empty = λ w i. rw (receive_lem n [] w i) (unfold filter_map in h.empty w i);
      batch = λ xs ys w i. receive-batch n xs ys w i;
      dead = λ xs w i gone ys. rw (receive_lem n xs w i) (
          receive_lem n ys _ (h.keeps (filter_map function xs) w i)
          ∙ h.dead (filter_map function xs) w i (rw (receive_lem n xs w i) at gone)
              (filter_map function ys));
    }
