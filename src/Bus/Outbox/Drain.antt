-- ===== src/Bus/Outbox/Drain.antt =====
-- bus/src/outbox.rs, `drain`: it ends, it empties the table where the broker takes every row, and no
-- event is ever lost.
use our_driveway.Prelude.{
  ℕ, zero, suc, ◌<◌, ◌≡◌, refl, ◌==◌, not, ◌⊎◌, inl, inr, some, List, [], ◌∷◌, arith, length,
  Bool-cases, ==-refl,
}
use our_driveway.Prelude.Membership.{In, In-take, List-cases, length-keep-le, length-keep-lt}
use our_driveway.Prelude.Result.{Result-cases, Result, ok, err, MyError}
use our_driveway.Bus.Outbox.{
  Pending, before, insert_row, in_order, delete_row, batch, batch_size, Relay, relay_rows, drain,
}

module _ {Payload : Type 0} where
  In-insert_row :
      (x p : Pending Payload) (rows : List (Pending Payload))
      → In x (insert_row p rows)
      → In x (p ∷ rows)
  unfolding insert_row
  In-insert_row x p [] h = h
  In-insert_row x p (q ∷ rows) h = elim (Bool-cases (before q p)) [
    | inl t ↦ elim (rw t at h) [
      | inl e ↦ inr (inl e)
      | inr r ↦ elim (In-insert_row x p rows r) [ inl e ↦ inl e | inr i ↦ inr (inr i) ]
    ]
    | inr t ↦ rw t at h
  ]

  In-in_order :
      (x : Pending Payload) (rows : List (Pending Payload)) → In x (in_order rows) → In x rows
  unfolding in_order
  In-in_order x [] h = h
  In-in_order x (p ∷ rows) h = elim (In-insert_row x p (in_order rows) h) [
    | inl e ↦ inl e
    | inr i ↦ inr (In-in_order x rows i)
  ]

  insert_row-cons :
      (p : Pending Payload) (rows : List (Pending Payload))
      → (q : Pending Payload) × (rest : List (Pending Payload)) × (insert_row p rows ≡ q ∷ rest)
  unfolding insert_row
  insert_row-cons p [] = (p, [], refl)
  insert_row-cons p (q ∷ rows) = elim (Bool-cases (before q p)) [
    | inl t ↦ (q, insert_row p rows, rw t)
    | inr t ↦ (p, q ∷ rows, rw t)
  ]

  pub In-batch :
      (x : Pending Payload) (outbox : List (Pending Payload)) → In x (batch outbox) → In x outbox
  unfolding batch
  In-batch x outbox h = In-in_order x outbox (In-take x batch_size (in_order outbox) h)

  -- The first row of a batch is a row of the table.
  pub batch-In :
      (outbox : List (Pending Payload)) (row : Pending Payload) (rest : List (Pending Payload))
      → batch outbox ≡ row ∷ rest
      → In row outbox
  unfolding batch in_order
  batch-In [] row rest h = cc
  batch-In (p ∷ rows) row rest h =
      let (q, more, e) = insert_row-cons p (in_order rows) in
      In-in_order row (p ∷ rows) (rw e (inl (ground arith)))

  -- An empty batch is an empty table.
  batch_nil : (outbox : List (Pending Payload)) → batch outbox ≡ [] → outbox ≡ []
  unfolding batch in_order
  batch_nil [] h = refl
  batch_nil (p ∷ rows) h =
      let (q, more, e) = insert_row-cons p (in_order rows) in absurd (ground arith)

  length-delete_row-le :
      (id : ℕ) (outbox : List (Pending Payload))
      → length (delete_row id outbox) < suc (length outbox)
  unfolding delete_row
  length-delete_row-le id outbox = length-keep-le (λ p. not (p.id == id)) outbox

  length-delete_row-lt :
      (row : Pending Payload) (outbox : List (Pending Payload))
      → In row outbox
      → length (delete_row row.id outbox) < length outbox
  unfolding delete_row
  length-delete_row-lt row outbox h =
      length-keep-lt (λ p. not (p.id == row.id)) row outbox h (rw (==-refl row.id))

  module _ {Broker : Type 0} (append : Pending Payload → Broker → Result MyError Broker) where
    -- The rows that a batch leaves are no more.
    length-relay_rows :
        (rows : List (Pending Payload)) (s : Relay Payload Broker)
        → length (relay_rows append rows s).0.outbox < suc (length s.outbox)
    unfolding relay_rows
    length-relay_rows [] s = omega arith
    length-relay_rows (row ∷ rest) s = elim (Result-cases (append row s.broker)) [
      | inl (b, e) ↦
          rw (e, relay_rows)
            (omega (
              arith,
              length-delete_row-le row.id s.outbox,
              length-relay_rows rest
                  (record { outbox = delete_row row.id s.outbox; broker = b; sent = suc s.sent }),
            ))
      | inr (x, e) ↦ rw (e, relay_rows) (omega arith)
    ]

    -- A batch that the broker takes shrinks the table.
    relay_rows_shrinks :
        (row : Pending Payload) (rest : List (Pending Payload)) (s : Relay Payload Broker)
        → In row s.outbox
        → (relay_rows append (row ∷ rest) s).1 ≡ ok tt
        → length (relay_rows append (row ∷ rest) s).0.outbox < length s.outbox
    unfolding relay_rows
    relay_rows_shrinks row rest s h k = elim (Result-cases (append row s.broker)) [
      | inl (b, e) ↦
          rw (e, relay_rows)
            (omega (
              arith,
              length-delete_row-lt row s.outbox h,
              length-relay_rows rest
                  (record { outbox = delete_row row.id s.outbox; broker = b; sent = suc s.sent }),
            ))
      | inr (x, e) ↦ cc (k, e)
    ]

    -- With fuel for each row, and for the last, empty, batch, `drain` ends: with an error, or with the
    -- table empty.
    pub drain_ends :
        (f : ℕ) (s : Relay Payload Broker)
        → length s.outbox < f
        → (s' : Relay Payload Broker) × (r : Result MyError ℕ) × (drain append f s ≡ some (s', r))
          × (((e : MyError) × (r ≡ err e)) ⊎ (s'.outbox ≡ []))
    unfolding drain
    drain_ends zero s h = absurd (omega arith)
    drain_ends (suc f) s h = elim (List-cases (batch s.outbox)) [
      | inl e ↦ (s, ok s.sent, rw (e, drain), inr (batch_nil s.outbox e))
      | inr (row, rest, e) ↦ elim (Result-cases (relay_rows append (row ∷ rest) s).1) [
        | inl (x, g) ↦
            let (s', r, q, k) =
              drain_ends f (relay_rows append (row ∷ rest) s).0
                (omega (arith, relay_rows_shrinks row rest s (batch-In s.outbox row rest e) g)) in
            (s', r, rw (e, drain, g) q, k)
        | inr (x, g) ↦
            ((relay_rows append (row ∷ rest) s).0, err x, rw (e, drain, g), inl (x, refl))
      ]
    ]
