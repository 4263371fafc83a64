-- ===== src/Bus/Gate.antt =====
-- bus/src/projector.rs: the version gate, and the transaction around it. `Applied` is the answer
-- of bus/src/await_version.rs to "what version is this aggregate at?".
use our_driveway.Prelude.{ℕ, Option, none, some, leb, if◌then◌else◌}
use our_driveway.Prelude.Int.{ℤ, pos, ◌+ℤ◌, leb_ℤ, eqb_ℤ, i64}
use our_driveway.Prelude.Result.{Tx, ◌>>=◌, ◌>>◌, return, ok, err}

pub data Applied : Type 0 where
  at : ℤ → Applied
  pending : Applied
  unavailable : Applied

pub data Decision : Type 0 where
  apply skip park : Decision

abbrev pub max_gap_wait : ℕ
max_gap_wait = 30

-- The last two arms: a gap waits, until its deliveries are used up.
abbrev pub hatch : ℕ → Decision
hatch delivered = if leb max_gap_wait delivered then apply else park

unfoldable pub decide : Applied → ℤ → ℕ → Decision
decide unavailable incoming delivered = apply
decide pending incoming delivered = if leb_ℤ incoming (pos 1) then apply else hatch delivered
decide (at stored) incoming delivered =
    if eqb_ℤ incoming (i64 (stored +ℤ pos 1))
    then apply
    else if leb_ℤ incoming stored
    then skip
    else hatch delivered

-- What the lane answers the broker.
pub data Reply : Type 0 where
  ack nak stop : Reply

-- `Envelope`, less the event id and the actor. The aggregate is what `split_aggregate` reads:
-- nothing, where it does not parse.
pub record Envelope (Aggregate Event : Type 0) : Type 0 where
  pub aggregate : Option Aggregate
  pub version : ℤ
  pub occurred_at : ℕ
  pub payload : Event

-- A projector over the rows `S`: `VERSION_AT`, and `Projector::apply` inside the transaction.
module _ {S Aggregate Event : Type 0} (version_at : Aggregate → Tx S Applied)
    (project : Event → ℕ → ℤ → Tx S (Unit {0})) where
  unfoldable pub stored_version : Option Aggregate → Tx S Applied
  stored_version none = return unavailable
  stored_version (some aggregate) = version_at aggregate

  unfoldable pub apply_decided : Decision → Envelope Aggregate Event → Tx S (Unit {0})
  apply_decided apply e = project e.payload e.occurred_at e.version
  apply_decided skip e = return tt
  apply_decided park e = return tt

  -- `Tx::apply`, from the decoded envelope on.
  unfoldable pub apply_event : Envelope Aggregate Event → ℕ → Tx S Decision
  apply_event e delivered = do
    stored ← stored_version e.aggregate
    apply_decided (decide stored e.version delivered) e
    return (decide stored e.version delivered)

  unfoldable pub reply_to : Decision → Reply
  reply_to apply = ack
  reply_to skip = ack
  reply_to park = nak

  -- One message of `lane`: the rows it leaves, and the answer; an error stops the lane unacked.
  unfoldable pub lane_message : Envelope Aggregate Event → ℕ → S → S × Reply
  unfolding reply_to
  lane_message e delivered s = elim (apply_event e delivered s) [
    | ok (d, s') ↦ (s', reply_to d)
    | err x ↦ (s, stop)
  ]
