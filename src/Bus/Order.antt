-- ===== src/Bus/Order.antt =====
-- The order that bus/src/projector.rs takes from the data: a projection of one aggregate, under
-- deliveries in any order, each short of the one at which the code no longer waits.
use our_driveway.Prelude.{
  ℕ, zero, suc, ◌≤◌, ◌<◌, ◌≡◌, refl, ◌∙◌, Option, none, some, List, [], ◌∷◌, arith, All, get_elem?,
  length, ap, ℕ_discrete, dec_lt,
}
use our_driveway.Prelude.Int.{ℤ, pos, ◌+ℤ◌, i64, i64_fits, half_i64}
use our_driveway.Prelude.Result.{Tx, ok, gets}
use our_driveway.Bus.Gate.{
  Applied, at, pending, Decision, apply, skip, park, decide, max_gap_wait, Envelope, Reply, ack,
  nak, apply_event, apply_decided, stored_version, lane_message,
}

-- The row of one aggregate: its version and its columns.
abbrev pub Row : Type 0 → Type 0
Row St = Option (ℤ × St)

-- `version_reader!` on a table that holds the aggregate.
abbrev pub version_of : {St : Type 0} → Row St → Applied
version_of none = pending
version_of (some (v, st)) = at v

abbrev pub columns : {St : Type 0} → Row St → Option St
columns none = none
columns (some (v, st)) = some st

succ_i64 : (n : ℕ) → suc n < half_i64 → i64 (pos n +ℤ pos 1) ≡ pos (suc n)
unfolding ◌+ℤ◌
succ_i64 n h = i64_fits (pos n +ℤ pos 1) (ground arith) ∙ ground arith

get_elem?-lt {ℓ} :
    {A : Type ℓ} (xs : List A) (i : ℕ) (a : A) → get_elem? xs i ≡ some a → i < length xs
get_elem?-lt [] i a h = cc
get_elem?-lt (x ∷ xs) zero a h = omega arith
get_elem?-lt (x ∷ xs) (suc i) a h = omega (arith, get_elem?-lt xs i a h)

get_elem?-below {ℓ} :
    {A : Type ℓ} (xs : List A) (i : ℕ) → i < length xs → (a : A) × (get_elem? xs i ≡ some a)
get_elem?-below [] i h = elim h [ ]
get_elem?-below (x ∷ xs) zero h = (x, refl)
get_elem?-below (x ∷ xs) (suc i) h = get_elem?-below xs i (omega arith)

abbrev stored : ℕ → Applied
stored zero = pending
stored (suc n) = at (pos (suc n))

decide_next :
    (n delivered : ℕ) → suc n < half_i64 → decide (stored n) (pos (suc n)) delivered ≡ apply
unfolding decide
decide_next zero delivered h = ground arith
decide_next (suc n) delivered h = rw (succ_i64 (suc n) h) (ground arith)

decide_old :
    (n k delivered : ℕ)
    → suc n < half_i64
    → k < n
    → decide (stored n) (pos (suc k)) delivered ≡ skip
unfolding decide
decide_old zero k delivered h l = elim l [ ]
decide_old (suc n) k delivered h l = rw (succ_i64 (suc n) h) (ground arith)

decide_early :
    (n k delivered : ℕ)
    → suc n < half_i64
    → n < k
    → delivered < max_gap_wait
    → decide (stored n) (pos (suc k)) delivered ≡ park
unfolding decide
decide_early zero k delivered h l b = ground arith
decide_early (suc n) k delivered h l b = rw (succ_i64 (suc n) h) (ground arith)

-- A projector of one aggregate: the columns after an event, from those before it, the event and
-- its clock; the version is stored beside them.
module _ {St Event : Type 0} (fold : Option St → Event → ℕ → St) where
  unfoldable pub project : Event → ℕ → ℤ → Tx (Row St) (Unit {0})
  project e when v row = ok (tt, some (v, fold (columns row) e when))

  unfoldable pub deliver : Envelope (Unit {0}) Event → ℕ → Row St → Row St × Reply
  deliver e delivered row = lane_message (λ _. gets version_of) project e delivered row

  -- What a delivery does, by the gate's decision.
  outcome : Decision → Envelope (Unit {0}) Event → Row St → Row St × Reply
  outcome apply e row = (some (e.version, fold (columns row) e.payload e.occurred_at), ack)
  outcome skip e row = (row, ack)
  outcome park e row = (row, nak)

  deliver-outcome :
      (e : Envelope (Unit {0}) Event) (delivered : ℕ) (row : Row St) (d : Decision)
      → e.aggregate ≡ some tt
      → decide (version_of row) e.version delivered ≡ d
      → deliver e delivered row ≡ outcome d e row
  unfolding deliver lane_message apply_event stored_version apply_decided project outcome
  deliver-outcome e delivered row apply a h = ground arith
  deliver-outcome e delivered row skip a h = ground arith
  deliver-outcome e delivered row park a h = ground arith

  module _ (history : List (Event × ℕ)) where
    -- The row after the first `n` events of the history, applied in order.
    unfoldable pub replay : ℕ → Row St
    replay zero = none
    replay (suc n) = elim (get_elem? history n) [
      | none ↦ replay n
      | some (e, when) ↦ some (pos (suc n), fold (columns (replay n)) e when)
    ]

    -- An envelope that the owner published: the event after the first `index`.
    pub record Published (index : ℕ) (e : Envelope (Unit {0}) Event) : Type 0 where
      pub aggregate : e.aggregate ≡ some tt
      pub version : e.version ≡ pos (suc index)
      pub event : get_elem? history index ≡ some (e.payload, e.occurred_at)

    replay-stored : (n : ℕ) → n ≤ length history → version_of (replay n) ≡ stored n
    unfolding replay
    replay-stored zero h = refl
    replay-stored (suc n) h = let (a, e) = get_elem?-below history n h in ground arith

    module _ (e : Envelope (Unit {0}) Event) (n index delivered : ℕ) (bounded : n ≤ length history)
        (room : suc n < half_i64) (p : Published index e) where
      decided :
          (d : Decision)
          → decide (stored n) (pos (suc index)) delivered ≡ d
          → deliver e delivered (replay n) ≡ outcome d e (replay n)
      decided d h =
          deliver-outcome e delivered (replay n) d p.aggregate
            (rw (replay-stored n bounded, p.version) h)

      -- The next event is applied.
      pub deliver_next : index ≡ n → deliver e delivered (replay n) ≡ (replay (suc n), ack)
      unfolding replay outcome
      deliver_next h =
          decided apply (rw h (decide_next n delivered room)) ∙ ground (arith, p.event, p.version)

      -- An event that was applied before changes nothing, and is acknowledged.
      pub deliver_old : index < n → deliver e delivered (replay n) ≡ (replay n, ack)
      unfolding outcome
      deliver_old h = decided skip (decide_old n index delivered room h)

      -- An early event changes nothing, and comes back.
      pub deliver_early :
          n < index → delivered < max_gap_wait → deliver e delivered (replay n) ≡ (replay n, nak)
      unfolding outcome
      deliver_early h b = decided park (decide_early n index delivered room h b)

  -- The row after deliveries, each with its delivery count.
  unfoldable pub deliver_all : List (Envelope (Unit {0}) Event × ℕ) → Row St → Row St
  deliver_all [] row = row
  deliver_all ((e, delivered) ∷ rest) row = deliver_all rest (deliver e delivered row).0

  module _ (history : List (Event × ℕ)) (small : suc (length history) < half_i64) where
    -- The message is some event of the history.
    abbrev pub Genuine : Envelope (Unit {0}) Event × ℕ → Type 0
    Genuine (e, delivered) = (index : ℕ) × Published history index e

    -- The delivery is not yet one that is applied over a gap.
    abbrev pub InBudget : Envelope (Unit {0}) Event × ℕ → Type 0
    InBudget (e, delivered) = delivered < max_gap_wait

    pub index-lt :
        (index : ℕ) (e : Envelope (Unit {0}) Event)
        → Published history index e
        → index < length history
    index-lt index e p = get_elem?-lt history index _ p.event

    -- One genuine delivery to a prefix leaves a prefix: one event longer, or the same.
    pub deliver_prefix :
        (e : Envelope (Unit {0}) Event) (delivered n : ℕ)
        → n ≤ length history
        → Genuine (e, delivered)
        → InBudget (e, delivered)
        → (m : ℕ) × (n ≤ m)
          × (m ≤ length history)
          × ((deliver e delivered (replay history n)).0 ≡ replay history m)
    deliver_prefix e delivered n b (index, p) d = elim (ℕ_discrete index n) [
      | yes h ↦ (
        suc n,
        omega arith,
        omega (arith, index-lt index e p),
        ap (λ r. r.0) (deliver_next history e n index delivered b (omega arith) p h),
      )
      | no h ↦ elim (dec_lt index n) [
        | yes l ↦ (
          n,
          omega arith,
          b,
          ap (λ r. r.0) (deliver_old history e n index delivered b (omega arith) p l),
        )
        | no l ↦ (
          n,
          omega arith,
          b,
          ap (λ r. r.0)
              (deliver_early history e n index delivered b (omega arith) p (omega arith) d),
        )
      ]
    ]

    -- Whatever messages of the history are delivered to a prefix of it, in whatever order and
    -- however often, each short of its 30th delivery, at which the code applies an event over a
    -- gap, the row is the replay of a prefix that is at least as long.
    pub deliver_all-prefix :
        (messages : List (Envelope (Unit {0}) Event × ℕ)) (n : ℕ)
        → n ≤ length history
        → All Genuine messages
        → All InBudget messages
        → (m : ℕ) × (n ≤ m)
          × (m ≤ length history)
          × (deliver_all messages (replay history n) ≡ replay history m)
    unfolding deliver_all
    deliver_all-prefix [] n b g w = (n, omega arith, b, refl)
    deliver_all-prefix ((e, delivered) ∷ rest) n b g w =
        let (k, x, y, q) = deliver_prefix e delivered n b g.0 w.0 in
        let (m, u, v, r) = deliver_all-prefix rest k y g.1 w.1 in (m, omega arith, v, rw q r)
