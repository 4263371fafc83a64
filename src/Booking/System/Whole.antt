-- ===== src/Booking/System/Whole.antt =====
-- apps/services/booking-service and bus/src/outbox.rs: every transaction and every step of the relay
-- keeps the numbering of the events whole.
use our_driveway.Prelude.{
  ℕ, suc, ◌+◌, ◌==◌, ◌<◌, ◌≡◌, refl, sym, subst, inl, inr, Bool-cases, not, List, [], ◌∷◌, ◌++◌,
  arith, length, ==_iff,
}
use our_driveway.Prelude.Membership.{
  In, In-append, In-append_left, In-append_right, In-keep, In-of-keep,
}
use our_driveway.Prelude.Int.{half_i64}
use our_driveway.Bus.Outbox.{Pending, delete_row}
use our_driveway.Booking.Schedule.{Calendar}
use our_driveway.Booking.Table.{Db, Stamp, Envelope}
use our_driveway.Booking.Table.Laws.{find-put_row}
use our_driveway.Booking.Service.{CreateBookingRequest, Clock}
use our_driveway.Booking.Outcome.Creation.{Creation, kept, made}
use our_driveway.Booking.System.Effects.{Chained, run_call-Chained}
use our_driveway.Booking.System.Numbered.{stored, Numbered-same}
use our_driveway.Booking.System.{
  Call, creates, stamps_of, run_call, System, Fresh, Step, runs, relays, publishes, Reach, here,
  next,
}
use our_driveway.Booking.System.Log.{Distinct, Out, Orderly, Unused, Orderly-grow, Chain-Orderly}

Creation-Orderly :
    (sent : List (Pending Envelope)) (cal : Calendar) (renter_id : ℕ)
    (request : CreateBookingRequest) (booking_id : ℕ) (stamp : Stamp) (clock : Clock) (db db' : Db)
    → Creation cal renter_id request booking_id stamp clock db db'
    → Unused stamp.event_id db.outbox
    → Orderly sent db
    → Orderly sent db'
Creation-Orderly sent cal renter_id request booking_id stamp clock db db' (kept r e) u h = rw e h
Creation-Orderly sent cal renter_id request booking_id stamp clock db db'
      (made av minutes row out free c rid s r st ve e f g a v off to sp) u h =
    let none_yet : stored booking_id db.bookings ≡ 0 = rw free in
    Orderly-grow sent booking_id db db' row out
      (λ k. rw (e, sym rid) (find-put_row k row db.bookings)) (rw none_yet ve) a (rw none_yet v) f
      (rw g u) h

-- One row goes from the outbox to the stream.
module _ (row : Pending Envelope) (sent outbox : List (Pending Envelope)) (i : In row outbox) where
  was_sent : (p : Pending Envelope) → In p (sent ++ row ∷ []) → Out sent outbox p
  was_sent p h = elim (In-append p sent (row ∷ []) h) [
    | inl l ↦ inl l
    | inr (inl e) ↦ inr (subst (λ q. In q outbox) e i)
    | inr (inr x) ↦ absurd x
  ]

  relayed :
      Distinct outbox
      → (p : Pending Envelope) → Out sent outbox p
      → Out (sent ++ row ∷ []) (delete_row row.id outbox) p
  unfolding delete_row
  relayed d p (inl h) = inl (In-append_left p sent (row ∷ []) h)
  relayed d p (inr h) = elim (Bool-cases (p.id == row.id)) [
    | inl e ↦
        inl (In-append_right p sent (row ∷ []) (inl (d row p i h (sym ((==_iff p.id row.id).0 e)))))
    | inr e ↦ inr (In-keep (λ q. not (q.id == row.id)) p outbox (rw e refl) h)
  ]

In-of-delete_row :
    (row p : Pending Envelope) (outbox : List (Pending Envelope))
    → In p (delete_row row.id outbox)
    → In p outbox
unfolding delete_row
In-of-delete_row row p outbox h = (In-of-keep _ p outbox h).0

-- The event ids of the call are new, and its versions are short of the last `i64`.
pub record Admissible (c : Call) (db : Db) : Type 0 where
  pub fresh : Fresh (stamps_of c) db
  pub room : (id : ℕ) → stored id db.bookings + suc (length db.bookings) < half_i64

module _ (cal : Calendar) where
  run_call-Orderly :
      (sent : List (Pending Envelope)) (c : Call) (db : Db)
      → Admissible c db
      → Orderly sent db
      → Orderly sent (run_call cal c db)
  run_call-Orderly sent c db ad h = by_effect c _ (run_call-Chained cal c db) ad
    where
      by_effect : (c : Call) (db' : Db) → Chained cal c db db' → Admissible c db → Orderly sent db'
      by_effect (creates renter_id request booking_id stamps clock) db' o ad =
          Creation-Orderly sent cal renter_id request booking_id (stamps 0) clock db db' o
            (ad.fresh.unused 0) h
      by_effect c db' (m, l, o) ad =
          Chain-Orderly sent (stamps_of c) o
            (record { unused = λ k le. ad.fresh.unused k; apart = ad.fresh.distinct })
            (λ k. omega (arith, ad.room k, l)) h

  Step-Orderly :
      (t : ℕ) (u v : System) → Step cal t Admissible u v → Orderly u.sent u.db → Orderly v.sent v.db
  Step-Orderly t u v (runs s c r ad) h = run_call-Orderly s.sent c s.db ad h
  Step-Orderly t u v (relays s row i) h = record {
    numbered =
        Numbered-same s.db.bookings (Out s.sent s.db.outbox)
          (Out (s.sent ++ row ∷ []) (delete_row row.id s.db.outbox))
          (relayed row s.sent s.db.outbox i h.distinct)
          (λ p. elim [
            | inl q ↦ was_sent row s.sent s.db.outbox i p q
            | inr q ↦ inr (In-of-delete_row row p s.db.outbox q)
          ])
          h.numbered;
    distinct = λ x y a b.
        h.distinct x y (In-of-delete_row row x s.db.outbox a)
          (In-of-delete_row row y s.db.outbox b);
  }
  Step-Orderly t u v (publishes s row i) h = record {
    numbered =
        Numbered-same s.db.bookings (Out s.sent s.db.outbox) (Out (s.sent ++ row ∷ []) s.db.outbox)
          (λ p. elim [ inl q ↦ inl (In-append_left p s.sent (row ∷ []) q) | inr q ↦ inr q ])
          (λ p. elim [ inl q ↦ was_sent row s.sent s.db.outbox i p q | inr q ↦ inr q ]) h.numbered;
    distinct = h.distinct;
  }

  -- From tables and a stream whose events are whole, whatever transactions run and in whatever
  -- order, and wherever the relay stops, they stay whole, where the event ids are new and the
  -- versions short of the last `i64`: the versions of the events of one booking, on the stream or in
  -- the outbox, are 1, 2, .. up to the version of its row, each of them on exactly one event, and no two
  -- different rows of the outbox have one id.
  pub Reach-Orderly :
      (t : ℕ) (u v : System)
      → Reach cal t Admissible u v
      → Orderly u.sent u.db
      → Orderly v.sent v.db
  Reach-Orderly t u v here h = h
  Reach-Orderly t u v (next {u = w} r st) h = Step-Orderly t w v st (Reach-Orderly t u w r h)
