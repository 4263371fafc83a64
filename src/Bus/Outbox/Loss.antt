-- ===== src/Bus/Outbox/Loss.antt =====
-- bus/src/outbox.rs, `drain`: no event is ever lost, and every event is with the broker where it
-- reports no error.
use our_driveway.Prelude.{
  ℕ, zero, suc, ◌<◌, ◌≡◌, refl, ◌==◌, not, ◌⊎◌, inl, inr, some, List, [], ◌∷◌, arith, length,
  Bool-cases, ==_iff, subst,
}
use our_driveway.Prelude.Membership.{In, In-of-keep, List-cases, In-keep}
use our_driveway.Prelude.Result.{Result-cases, Result, ok, MyError}
use our_driveway.Bus.Outbox.{Pending, delete_row, batch, Relay, relay_rows, drain}
use our_driveway.Bus.Outbox.Drain.{In-batch, drain_ends}

module _ {Payload : Type 0} where
  module _ {Broker : Type 0} (append : Pending Payload → Broker → Result MyError Broker) where
    module _ (log : Broker → List (Pending Payload))
        (takes : (row x : Pending Payload) (b b' : Broker)
          → append row b ≡ ok b'
          → (x ≡ row) ⊎ In x (log b)
          → In x (log b')) where
      -- Still in the table, or with the broker.
      abbrev pub Kept : Pending Payload → Relay Payload Broker → Type 0
      Kept x s = In x s.outbox ⊎ In x (log s.broker)

      module _ (table : List (Pending Payload))
          (distinct : (x y : Pending Payload) → In x table → In y table → x.id ≡ y.id → x ≡ y) where
        abbrev Within : List (Pending Payload) → Type 0
        Within rows = (x : Pending Payload) → In x rows → In x table

        In-delete_row :
            (row x : Pending Payload) (rows : List (Pending Payload))
            → Within rows
            → In row table
            → In x rows
            → (x ≡ row) ⊎ In x (delete_row row.id rows)
        unfolding delete_row
        In-delete_row row x rows w r h = elim (Bool-cases (x.id == row.id)) [
          | inl e ↦ inl (distinct x row (w x h) r ((==_iff x.id row.id).0 e))
          | inr e ↦ inr (In-keep (λ p. not (p.id == row.id)) x rows (rw e) h)
        ]

        relay_rows-Kept :
            (rows : List (Pending Payload)) (s : Relay Payload Broker) (x : Pending Payload)
            → Within rows
            → Within s.outbox
            → Kept x s
            → Kept x (relay_rows append rows s).0 × Within (relay_rows append rows s).0.outbox
        unfolding relay_rows
        relay_rows-Kept [] s x r w k = (k, w)
        relay_rows-Kept (row ∷ rest) s x r w k = elim (Result-cases (append row s.broker)) [
          | inr (y, e) ↦ rw (e, relay_rows) (k, w)
          | inl (b, e) ↦
              rw (e, relay_rows)
                (relay_rows-Kept rest
                  (record { outbox = delete_row row.id s.outbox; broker = b; sent = suc s.sent }) x
                  (λ y h. r y (inr h))
                  (λ y h. w y (unfold delete_row in (In-of-keep _ y s.outbox h).0))
                  (elim k [
                    | inr h ↦ inr (takes row x s.broker b e (inr h))
                    | inl h ↦ elim (In-delete_row row x s.outbox w (r row (inl refl)) h) [
                      | inl q ↦ inr (takes row x s.broker b e (inl q))
                      | inr q ↦ inl q
                    ]
                  ]))
        ]

        drain-Kept :
            (f : ℕ) (s s' : Relay Payload Broker) (r : Result MyError ℕ) (x : Pending Payload)
            → Within s.outbox
            → drain append f s ≡ some (s', r)
            → Kept x s
            → Kept x s'
        unfolding drain
        drain-Kept zero s s' r x w e k = cc
        drain-Kept (suc f) s s' r x w e k = elim (List-cases (batch s.outbox)) [
          | inl g ↦ let same : s ≡ s' = ground arith in subst (Kept x) same k
          | inr (row, rest, g) ↦
              let (kept, within) =
                relay_rows-Kept (row ∷ rest) s x (λ y h. w y (In-batch y s.outbox (rw g h))) w k in
              elim (Result-cases (relay_rows append (row ∷ rest) s).1) [
                | inl (u, q) ↦
                    drain-Kept f (relay_rows append (row ∷ rest) s).0 s' r x within (ground arith)
                      kept
                | inr (u, q) ↦
                    let same : (relay_rows append (row ∷ rest) s).0 ≡ s' = ground arith in
                    subst (Kept x) same kept
              ]
        ]

      -- Whenever `drain` stops, with or without an error, each row of the table is still in the
      -- table or with the broker, where no two different rows of the table have one id and the
      -- broker keeps what it took.
      pub drain_loses_nothing :
          (f : ℕ) (s s' : Relay Payload Broker) (r : Result MyError ℕ)
          → ((x y : Pending Payload) → In x s.outbox → In y s.outbox → x.id ≡ y.id → x ≡ y)
          → drain append f s ≡ some (s', r)
          → (x : Pending Payload) → In x s.outbox
          → In x s'.outbox ⊎ In x (log s'.broker)
      drain_loses_nothing f s s' r d e x i = drain-Kept s.outbox d f s s' r x (λ y g. g) e (inl i)

      -- Where the fuel is enough, no two different rows of the table have one id, the broker keeps what it
      -- took, and `drain` reports no error, each row of the table is with the broker.
      pub drain_publishes_all :
          (f n : ℕ) (s s' : Relay Payload Broker)
          → ((x y : Pending Payload) → In x s.outbox → In y s.outbox → x.id ≡ y.id → x ≡ y)
          → length s.outbox < f
          → drain append f s ≡ some (s', ok n)
          → (x : Pending Payload) → In x s.outbox
          → In x (log s'.broker)
      drain_publishes_all f n s s' d h e x i = elim (drain_loses_nothing f s s' (ok n) d e x i) [
        | inr m ↦ m
        | inl m ↦
            let (t, q, g, empty) = drain_ends append f s h in
            let same : t ≡ s' = ground arith in
            let result : q ≡ ok n = ground arith in
            elim empty [
              | inl (y, bad) ↦ absurd (cc)
              | inr nil ↦
                  let none_left : s'.outbox ≡ [] = rw (← same) nil in absurd (rw none_left at m)
            ]
      ]
