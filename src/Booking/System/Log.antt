-- ===== src/Booking/System/Log.antt =====
-- apps/services/booking-service and bus/src/outbox.rs: the events of the bookings, on the stream and
-- in the outbox, and what a transaction that moves bookings on does to their numbering.
use our_driveway.Prelude.{
  Bool, ℕ, suc, ◌+◌, ◌==◌, ◌≤◌, ◌<◌, ◌≡◌, ◌≢◌, refl, sym, ◌∙◌, ◌⊎◌, inl, inr, false, some, List, [],
  ◌∷◌, ◌++◌, arith, any, if◌then◌else◌,
}
use our_driveway.Prelude.Membership.{
  In, In-append, In-append_left, In-append_right, any-snoc, not_any,
}
use our_driveway.Prelude.Int.{pos, half_i64}
use our_driveway.Shared.Versions.{next_version}
use our_driveway.Shared.Bookings.{Booking, BookingEvent}
use our_driveway.Bus.Outbox.{Pending, enqueue}
use our_driveway.Booking.Table.{Db, Stamp, Envelope, find_booking}
use our_driveway.Booking.Outcome.{Outcome, same, wrote, after, after-Follows}
use our_driveway.Booking.Outcome.Chain.{Chain, stop, skip, link}
use our_driveway.Booking.System.Numbered.{
  stored, Numbered, Numbered-grow, stored_next, next_version_pos, set_version_pos,
}

-- `id` is a primary key of the outbox: no two different rows have one id.
abbrev pub Distinct : List (Pending Envelope) → Type 0
Distinct rows = (x y : Pending Envelope) → In x rows → In y rows → x.id ≡ y.id → x ≡ y

-- On the stream, or still in the outbox.
abbrev pub Out : List (Pending Envelope) → List (Pending Envelope) → Pending Envelope → Type 0
Out sent outbox p = In p sent ⊎ In p outbox

pub record Orderly (sent : List (Pending Envelope)) (db : Db) : Type 0 where
  pub numbered : Numbered db.bookings (Out sent db.outbox)
  pub distinct : Distinct db.outbox

-- No row of the outbox has the id.
abbrev pub Unused : ℕ → List (Pending Envelope) → Type 0
Unused event_id outbox = any (λ p. p.id == event_id) outbox ≡ false

enqueue-Unused :
    (row : Pending Envelope) (outbox : List (Pending Envelope))
    → Unused row.id outbox
    → enqueue row outbox ≡ outbox ++ row ∷ []
unfolding enqueue
enqueue-Unused row outbox h = rw h

Distinct-snoc :
    (row : Pending Envelope) (outbox : List (Pending Envelope))
    → Unused row.id outbox
    → Distinct outbox
    → Distinct (outbox ++ row ∷ [])
Distinct-snoc row outbox h d x y i j e = elim (In-append x outbox (row ∷ []) i) [
  | inl a ↦ elim (In-append y outbox (row ∷ []) j) [
    | inl b ↦ d x y a b e
    | inr (inl b) ↦ absurd (grind (arith, not_any (λ p. p.id == row.id) x outbox h a))
    | inr (inr b) ↦ absurd b
  ]
  | inr (inr a) ↦ absurd a
  | inr (inl a) ↦ elim (In-append y outbox (row ∷ []) j) [
    | inl b ↦ absurd (grind (arith, not_any (λ p. p.id == row.id) y outbox h b))
    | inr (inl b) ↦ sym a ∙ b
    | inr (inr b) ↦ absurd b
  ]
]

-- One row with the next version, and one new event that carries it.
module _ (sent : List (Pending Envelope)) (id : ℕ) (db db' : Db) (new : Booking)
    (row : Pending Envelope)
    (others : (k : ℕ)
      → find_booking k db'.bookings ≡ (if id == k then some new else find_booking k db.bookings))
    (version : new.version ≡ pos (suc (stored id db.bookings))) (about : row.payload.aggregate ≡ id)
    (carries : row.payload.version ≡ pos (suc (stored id db.bookings)))
    (outbox : db'.outbox ≡ enqueue row db.outbox) (unused : Unused row.id db.outbox) where
  grown : db'.outbox ≡ db.outbox ++ row ∷ []
  grown = outbox ∙ enqueue-Unused row db.outbox unused

  still_out : (q : Pending Envelope) → Out sent db.outbox q → Out sent db'.outbox q
  still_out q (inl h) = inl h
  still_out q (inr h) = inr (rw grown (In-append_left q db.outbox (row ∷ []) h))

  now_out : Out sent db'.outbox row
  now_out = inr (rw grown (In-append_right row db.outbox (row ∷ []) (inl refl)))

  was_out : (q : Pending Envelope) → Out sent db'.outbox q → Out sent db.outbox q ⊎ (q ≡ row)
  was_out q (inl h) = inl (inl h)
  was_out q (inr h) = elim (In-append q db.outbox (row ∷ []) (rw grown at h)) [
    | inl k ↦ inl (inr k)
    | inr (inl k) ↦ inr (sym k)
    | inr (inr k) ↦ absurd k
  ]

  pub Orderly-grow : Orderly sent db → Orderly sent db'
  Orderly-grow o = record {
    numbered =
        Numbered-grow id db.bookings db'.bookings (Out sent db.outbox) (Out sent db'.outbox) new row
          others version about carries still_out now_out was_out o.numbered;
    distinct = rw grown (Distinct-snoc row db.outbox unused o.distinct);
  }

  pub stored_bound : (k : ℕ) → stored k db'.bookings ≤ suc (stored k db.bookings)
  stored_bound k =
      stored_next id db.bookings db'.bookings (Out sent db.outbox) (Out sent db'.outbox) new row
        others version about carries still_out now_out was_out k

  pub Unused-grow : (e : ℕ) → Unused e db.outbox → (row.id == e) ≡ false → Unused e db'.outbox
  Unused-grow e h k = rw grown (any-snoc (λ p. p.id == e) db.outbox row h k)

-- What a transaction that took the event id `e` does to the numbering.
record Keeps (sent : List (Pending Envelope)) (e : ℕ) (db db' : Db) : Type 0 where
  orderly : Orderly sent db'
  bound : (k : ℕ) → stored k db'.bookings ≤ suc (stored k db.bookings)
  others : (i : ℕ) → Unused i db.outbox → (e == i) ≡ false → Unused i db'.outbox

Outcome-Keeps :
    (sent : List (Pending Envelope)) (runs : Bool) (event : BookingEvent) (id e : ℕ) (db db' : Db)
    → Outcome runs event id e db db'
    → Unused e db.outbox
    → suc (stored id db.bookings) < half_i64
    → Orderly sent db
    → Keeps sent e db db'
Outcome-Keeps sent runs event id e db db' (same r s) u l h = record {
  orderly = rw s h;
  bound = λ k. rw s (omega arith);
  others = λ i x ne. rw s x;
}
Outcome-Keeps sent runs event id e db db' (wrote old row r f ad others sp o i a v p) u l h =
    let new = after event old in
    let follows = after-Follows event old ad in
    let at : old.version ≡ pos (stored id db.bookings) = h.numbered.signed id old f in
    let sent_as : next_version (some old.version) ≡ pos (suc (stored id db.bookings)) =
      rw at (next_version_pos (stored id db.bookings) l) in
    let written : new.version ≡ pos (suc (stored id db.bookings)) =
      rw (follows.version, sent_as, at) (set_version_pos (stored id db.bookings)) in
    let fresh : Unused row.id db.outbox = rw i u in
    record {
      orderly = Orderly-grow sent id db db' new row others written a (v ∙ sent_as) o fresh h;
      bound = stored_bound sent id db db' new row others written a (v ∙ sent_as) o fresh;
      others = λ k x ne.
          Unused-grow sent id db db' new row others written a (v ∙ sent_as) o fresh k x (rw i ne);
    }

-- The rest of a transaction's stamps, from the `n`-th on, are unused and all different.
pub record Supply (stamps : ℕ → Stamp) (n : ℕ) (outbox : List (Pending Envelope)) : Type 0 where
  pub unused : (k : ℕ) → n ≤ k → Unused (stamps k).event_id outbox
  pub apart : (j k : ℕ) → j ≢ k → ((stamps k).event_id == (stamps j).event_id) ≡ false

pub Chain-Orderly :
    (sent : List (Pending Envelope)) (stamps : ℕ → Stamp) {n m : ℕ} {db db' : Db}
    → Chain stamps n m db db'
    → Supply stamps n db.outbox
    → ((k : ℕ) → stored k db.bookings + m < half_i64)
    → Orderly sent db
    → Orderly sent db'
Chain-Orderly sent stamps {n = n} {m = m} {db = db} {db' = db'} (stop b o) s l h = record {
  numbered = rw (b, o) h.numbered;
  distinct = rw o h.distinct;
}
Chain-Orderly sent stamps {n = n} {m = suc m} {db = db} {db' = db'} (skip os) s l h =
    Chain-Orderly sent stamps os
      (record { unused = λ k le. s.unused k (omega arith); apart = s.apart })
      (λ k. omega (arith, l k)) h
Chain-Orderly sent stamps {n = n} {m = suc m} {db = db} {db' = db'}
      (link {mid = mid} {runs = runs} {event = event} id o os) s l h =
    let keeps =
      Outcome-Keeps sent runs event id (stamps n).event_id db mid o (s.unused n (omega arith))
        (omega (arith, l id)) h in
    Chain-Orderly sent stamps os
      (record {
        unused = λ k le.
            keeps.others (stamps k).event_id (s.unused k (omega arith))
              (s.apart k n (λ e. absurd (omega (arith, e))));
        apart = s.apart;
      })
      (λ k. omega (arith, l k, keeps.bound k)) keeps.orderly
