-- ===== src/Buffer/Batches.antt =====
-- A buffer changes when messages are sent, and not what they do: after the drop the notifier and
-- its listeners are as if each message had been sent by itself.
use nosy.Prelude.{
  ℕ, ◌<◌, ◌≡◌, ◌≢◌, refl, sym, ap, ◌∙◌, true, false, List, [], ◌∷◌, ◌++◌, append-nil, append_assoc,
  arith, length, length-append, ◌==◌, Bool-cases, inl, inr,
}
use nosy.Exec.{Exec, ok, ◌>>◌}
use nosy.ArrayVec.{ArrayVec}
use nosy.Buffer.{flush, push, drop, push_all}

-- A `notify_many` that does not panic in the states `P`, stays in them, and is told in batches what
-- it could be told in parts. (Both notifiers are such: see the modules below `Notifier`.)
pub record Batching {S M : Type 0} (P : S → Type 0) (notify_many : List M → Exec S (Unit {0}))
    : Type 0 where
  pub returns : (ms : List M) (s : S) → P s → (notify_many ms s).0 ≡ ok tt
  pub keeps : (ms : List M) (s : S) → P s → P (notify_many ms s).1
  pub append :
      (xs ys : List M) (s : S)
      → P s
      → notify_many (xs ++ ys) s ≡ (notify_many xs >> notify_many ys) s

-- The state after each message has been sent by itself.
unfoldable pub send_each : {S M : Type 0} → (List M → Exec S (Unit {0})) → List M → S → S
send_each notify_many [] s = s
send_each notify_many (m ∷ ms) s = send_each notify_many ms (notify_many (m ∷ []) s).1

module _ {S M : Type 0} {P : S → Type 0} (notify_many : List M → Exec S (Unit {0}))
    (h : Batching P notify_many) where
  send_each-append :
      (xs ys : List M) (s : S)
      → send_each notify_many (xs ++ ys) s ≡ send_each notify_many ys (send_each notify_many xs s)
  unfolding send_each
  send_each-append [] ys s = refl
  send_each-append (x ∷ xs) ys s = send_each-append xs ys (notify_many (x ∷ []) s).1

  -- One batch that is not empty, against its messages one by one.
  send_each-cons :
      (x : M) (xs : List M) (s : S)
      → P s
      → (notify_many (x ∷ xs) s).1 ≡ send_each notify_many (x ∷ xs) s
  unfolding send_each
  send_each-cons x [] s p = refl
  send_each-cons x (y ∷ ys) s p =
      ap (λ r. r.1) (h.append (x ∷ []) (y ∷ ys) s p)
      ∙ rw (h.returns (x ∷ []) s p)
          (send_each-cons y ys (notify_many (x ∷ []) s).1 (h.keeps (x ∷ []) s p))

  send_each-batch :
      (xs : List M) (s : S)
      → P s
      → length xs ≢ 0
      → (notify_many xs s).1 ≡ send_each notify_many xs s
  send_each-batch [] s p n = absurd (n refl)
  send_each-batch (x ∷ xs) s p n = send_each-cons x xs s p

  module _ {Buf : Type 0} {capacity : ℕ} (av : ArrayVec Buf M capacity)
      (some_room : 0 < capacity) where
    open av use {as_slice, clear, is_full, is_empty}

    flush_lem :
        (b : Buf) (s : S)
        → P s
        → flush av notify_many (b, s) ≡ (ok tt, (clear b, (notify_many (as_slice b) s).1))
    unfolding flush
    flush_lem b s p = rw (h.returns (as_slice b) s p, flush)

    -- What a push leaves: room for one more message, and the state and the buffer together hold
    -- what had been sent, what was buffered, and the message.
    push_lem :
        (m : M) (b : Buf) (s : S)
        → P s
        → is_full b ≡ false
        → (b' : Buf) × (s' : S) × (push av notify_many m (b, s) ≡ (ok tt, (b', s')))
          × (is_full b' ≡ false)
          × P s'
          × (send_each notify_many (as_slice b') s'
              ≡ send_each notify_many (as_slice b ++ m ∷ []) s)
    unfolding push send_each
    push_lem m b s p r =
        let (pushed, q, slice) = av.push_room b m r in
        elim (Bool-cases (is_full pushed)) [
          | inr room ↦ (
            pushed,
            s,
            rw (q, push) (rw room),
            room,
            p,
            ap (λ xs. send_each notify_many xs s) slice,
          )
          | inl full ↦ (
            clear pushed,
            (notify_many (as_slice pushed) s).1,
            rw (q, push) (rw full (flush_lem pushed s p)),
            not_full (clear pushed) (av.as_slice-clear pushed),
            h.keeps (as_slice pushed) s p,
            rw (av.as_slice-clear pushed, send_each)
                (send_each-batch (as_slice pushed) s p (λ z.
                    absurd (omega (arith, ap length slice, length-append (as_slice b) (m ∷ []))))
                  ∙ ap (λ xs. send_each notify_many xs s) slice),
          )
        ]
      where
        not_full : (c : Buf) → as_slice c ≡ [] → is_full c ≡ false
        not_full c e = av.is_full_lem c ∙ rw e (ground arith)

    length_zero : (xs : List M) → (length xs == 0) ≡ true → xs ≡ []
    length_zero [] e = refl
    length_zero (x ∷ xs) e = absurd (ground arith)

    nonempty : (xs : List M) → length xs ≡ 0 → (length xs == 0) ≡ false → ⊥
    nonempty xs z e = ground arith

    drop_lem :
        (b : Buf) (s : S)
        → P s
        → (b' : Buf) × (drop av notify_many (b, s)
            ≡ (ok tt, (b', send_each notify_many (as_slice b) s)))
          × (as_slice b' ≡ [])
    unfolding drop send_each
    drop_lem b s p = elim (Bool-cases (is_empty b)) [
      | inl e ↦
          let z = length_zero (as_slice b) (sym (av.is_empty_lem b) ∙ e) in
          (b, rw e (ap (λ xs. (ok tt, (b, send_each notify_many xs s))) (sym z)), z)
      | inr n ↦ (
        clear b,
        rw n (
            flush_lem b s p
            ∙ ap (λ v. (ok tt, (clear b, v)))
                (send_each-batch (as_slice b) s p
                  (λ z. nonempty (as_slice b) z (sym (av.is_empty_lem b) ∙ n)))),
        av.as_slice-clear b,
      )
    ]

    session_lem :
        (ms : List M) (b : Buf) (s : S)
        → P s
        → is_full b ≡ false
        → (b' : Buf) × ((push_all av notify_many ms >> drop av notify_many) (b, s)
            ≡ (ok tt, (b', send_each notify_many (as_slice b ++ ms) s)))
          × (as_slice b' ≡ [])
    unfolding push_all
    session_lem [] b s p r = rw (append-nil (as_slice b)) (drop_lem b s p)
    session_lem (m ∷ ms) b s p r =
        let (b', s', q, r', p', e) = push_lem m b s p r in
        let (b'', q', e') = session_lem ms b' s' p' r' in
        (
          b'',
          rw q (
              q'
              ∙ ap (λ v. (ok tt, (b'', v)))
                  (send_each-append (as_slice b') ms s'
                    ∙ ap (send_each notify_many ms) e
                    ∙ sym (send_each-append (as_slice b ++ m ∷ []) ms s)
                    ∙ ap (λ xs. send_each notify_many xs s)
                        (append_assoc (as_slice b) (m ∷ []) ms))),
          e',
        )

    -- Messages pushed to a new buffer, which is then dropped: every message has been delivered, the
    -- buffer is empty, and all else is as if each message had been sent by itself.
    pub push_all-drop :
        (ms : List M) (s : S)
        → P s
        → (b' : Buf) × ((push_all av notify_many ms >> drop av notify_many) (av.new, s)
            ≡ (ok tt, (b', send_each notify_many ms s)))
          × (as_slice b' ≡ [])
    push_all-drop ms s p =
        let e = av.as_slice-new in
        let (b', q, z) = session_lem ms av.new s p (av.is_full_lem av.new ∙ rw e (ground arith)) in
        (b', q ∙ ap (λ xs. (ok tt, (b', send_each notify_many (xs ++ ms) s))) e, z)
