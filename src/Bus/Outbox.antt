-- ===== src/Bus/Outbox.antt =====
-- bus/src/outbox.rs: the events that a transaction leaves for the relay, and the relay. An instant is
-- the milliseconds since the epoch, a uuid its number.
pub mod Drain
pub mod Loss
use our_driveway.Prelude.{
  ℕ, zero, suc, ◌==◌, ltb, not, ◌&&◌, ◌||◌, Bool, Option, none, some, List, [], ◌∷◌, ◌++◌, any,
  keep, take, if◌then◌else◌,
}
use our_driveway.Prelude.Result.{Result, ok, err, MyError}

-- A row of `_outbox`; its payload is the envelope with its subject.
pub record Pending (Payload : Type 0) : Type 0 where
  pub id : ℕ
  pub payload : Payload
  pub created_at : ℕ

-- The table, the broker, and the local `sent` of `drain`.
pub record Relay (Payload Broker : Type 0) : Type 0 where
  pub outbox : List (Pending Payload)
  pub broker : Broker
  pub sent : ℕ

abbrev pub batch_size : ℕ
batch_size = 128

module _ {Payload : Type 0} where
  -- `ON CONFLICT (id) DO NOTHING`: the first writer of an event id wins.
  unfoldable pub enqueue : Pending Payload → List (Pending Payload) → List (Pending Payload)
  enqueue row outbox = if any (λ p. p.id == row.id) outbox then outbox else outbox ++ row ∷ []

  -- `ORDER BY created_at, id`
  unfoldable pub before : Pending Payload → Pending Payload → Bool
  before p q = ltb p.created_at q.created_at || (p.created_at == q.created_at && ltb p.id q.id)

  unfoldable pub insert_row : Pending Payload → List (Pending Payload) → List (Pending Payload)
  insert_row p [] = p ∷ []
  insert_row p (q ∷ rows) = if before q p then q ∷ insert_row p rows else p ∷ q ∷ rows

  unfoldable pub in_order : List (Pending Payload) → List (Pending Payload)
  in_order [] = []
  in_order (p ∷ rows) = insert_row p (in_order rows)

  -- `DELETE FROM _outbox WHERE id = ..`
  unfoldable pub delete_row : ℕ → List (Pending Payload) → List (Pending Payload)
  delete_row id outbox = keep (λ p. not (p.id == id)) outbox

  -- The query of `drain`.
  unfoldable pub batch : List (Pending Payload) → List (Pending Payload)
  unfolding in_order insert_row before
  batch outbox = take batch_size (in_order outbox)

  module _ {Broker : Type 0} (append : Pending Payload → Broker → Result MyError Broker) where
    -- The inner loop of `drain`: each row is deleted only after the broker took it.
    unfoldable pub relay_rows :
        List (Pending Payload)
        → Relay Payload Broker
        → Relay Payload Broker × Result MyError (Unit {0})
    relay_rows [] s = (s, ok tt)
    relay_rows (row ∷ rest) s = elim (append row s.broker) [
      | err e ↦ (s, err e)
      | ok b ↦
          relay_rows rest
            (record { outbox = delete_row row.id s.outbox; broker = b; sent = suc s.sent })
    ]

    -- `drain`, with fuel for its loop; none if the fuel ran out.
    unfoldable pub drain :
        ℕ → Relay Payload Broker → Option (Relay Payload Broker × Result MyError ℕ)
    drain zero s = none
    drain (suc f) s = elim (batch s.outbox) [
      | [] ↦ some (s, ok s.sent)
      | row ∷ rest ↦
          let next = relay_rows (row ∷ rest) s in
          elim next.1 [ ok x ↦ drain f next.0 | err e ↦ some (next.0, err e) ]
    ]
