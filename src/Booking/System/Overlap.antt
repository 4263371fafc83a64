-- ===== src/Booking/System/Overlap.antt =====
-- apps/services/booking-service: the bookings that hold a spot never overlap, whatever order the
-- transactions run in.
use our_driveway.Prelude.{
  Bool, [], ◌∷◌, subst₂, ap, ℕ, ◌==◌, ◌≤◌, ◌≡◌, refl, sym, subst, ◌∙◌, true, false, some, List,
  arith, if◌then◌else◌, Bool-cases, inl, inr, ==_iff,
}
use our_driveway.Prelude.Result.{ok}
use our_driveway.Shared.Bookings.{Booking, BookingEvent, Status, among}
use our_driveway.Prelude.Int.{ℤ}
use our_driveway.Shared.Slots.{Availability}
use our_driveway.Booking.Availability.{check}
use our_driveway.Booking.Schedule.{Calendar}
use our_driveway.Booking.Table.{Db, Stamp, find_booking, blocks, taken_for_spot}
use our_driveway.Booking.Table.Laws.{find-put_row}
use our_driveway.Booking.Service.{CreateBookingRequest, Clock}
use our_driveway.Booking.NoOverlap.{NoOverlap, Disjoint, Disjoint-sym, check-Disjoint}
use our_driveway.Booking.Outcome.{
  Moves, pays, lets_go, withdraws, rates, Follows, Outcome, same, wrote, after, after-Follows,
}
use our_driveway.Booking.Outcome.Creation.{Creation, kept, made}
use our_driveway.Booking.Outcome.Chain.{Chain, stop, skip, link}
use our_driveway.Booking.System.Effects.{Chained, run_call-Chained}
use our_driveway.Booking.System.{
  Call, creates, stamps_of, ReadBy, run_call, System, Step, runs, relays, publishes, Reach, here,
  next,
}

alive : {s s' : Status} → Moves s s' → among (Status.released ∷ Status.cancelled ∷ []) s ≡ false
alive pays = refl
alive lets_go = refl
alive withdraws = refl
alive rates = refl

-- A booking that blocks after a move blocked before it.
blocks-Follows :
    (t : ℕ) (old new : Booking)
    → Follows old new
    → blocks new.spot_id t new ≡ true
    → blocks old.spot_id t old ≡ true
unfolding blocks
blocks-Follows t old new f h = rw (alive f.status) (ground (arith, f.spot, f.ending))

-- A booking that blocks at an instant blocked before it.
blocks_earlier :
    (spot_id now t : ℕ) (b : Booking)
    → now ≤ t
    → blocks spot_id t b ≡ true
    → blocks spot_id now b ≡ true
unfolding blocks
blocks_earlier spot_id now t b h e = ground arith

module _ (t : ℕ) where
  -- The row that a booking was before.
  record Before (rows : List Booking) (k : ℕ) (b : Booking) : Type 0 where
    row : Booking
    found : find_booking k rows ≡ some row
    spot : row.spot_id ≡ b.spot_id
    slots : row.booked ≡ b.booked
    held : blocks b.spot_id t b ≡ true → blocks row.spot_id t row ≡ true

  module _ (id : ℕ) (rows rows' : List Booking) (old new : Booking)
      (found : find_booking id rows ≡ some old)
      (others : (k : ℕ)
        → find_booking k rows' ≡ (if id == k then some new else find_booking k rows))
      (f : Follows old new) where
    Before-Follows : (k : ℕ) (b : Booking) → find_booking k rows' ≡ some b → Before rows k b
    Before-Follows k b h = elim (Bool-cases (id == k)) [
      | inl e ↦
          let same : new ≡ b = ground (arith, others k) in
          subst (Before rows k) same (record {
            row = old;
            found = subst (λ i. find_booking i rows ≡ some old) ((==_iff id k).0 e) found;
            spot = sym f.spot;
            slots = sym f.slots;
            held = blocks-Follows t old new f;
          })
      | inr e ↦ record {
        row = b;
        found = ground (arith, others k);
        spot = refl;
        slots = refl;
        held = λ u. u;
      }
    ]

    -- A table that finds the same rows, but for one that moved on, keeps the bookings apart.
    NoOverlap-Follows : NoOverlap t rows → NoOverlap t rows'
    NoOverlap-Follows n i j a b ne p q spot u v =
        let x = Before-Follows i a p in
        let y = Before-Follows j b q in
        subst₂ Disjoint x.slots y.slots
          (n i j x.row y.row ne x.found y.found (x.spot ∙ spot ∙ sym y.spot) (x.held u) (y.held v))

  Outcome-NoOverlap :
      (go : Bool) (event : BookingEvent) (id event_id : ℕ) (db db' : Db)
      → Outcome go event id event_id db db'
      → NoOverlap t db.bookings
      → NoOverlap t db'.bookings
  Outcome-NoOverlap go event id event_id db db' (same r e) n = rw e n
  Outcome-NoOverlap go event id event_id db db' (wrote old row r f ad g sp o i a v p) n =
      NoOverlap-Follows id db.bookings db'.bookings old (after event old) f g
        (after-Follows event old ad) n

  Chain-NoOverlap :
      (stamps : ℕ → Stamp) {n m : ℕ} {db db' : Db}
      → Chain stamps n m db db'
      → NoOverlap t db.bookings
      → NoOverlap t db'.bookings
  Chain-NoOverlap stamps (stop e f) n = rw e n
  Chain-NoOverlap stamps (skip os) n = Chain-NoOverlap stamps os n
  Chain-NoOverlap stamps (link id o os) n =
      Chain-NoOverlap stamps os (Outcome-NoOverlap _ _ id _ _ _ o n)

  module _ (cal : Calendar) (renter_id : ℕ) (request : CreateBookingRequest) (booking_id : ℕ)
      (stamp : Stamp) (clock : Clock) (early : clock.read_at ≤ t) where
    -- The new row is apart from each row that holds its spot.
    new-Disjoint :
        (rows : List Booking) (row b : Booking) (availability : Availability) (minutes : ℤ) (k : ℕ)
        → check cal.weekday_of availability
            (taken_for_spot request.spot_id clock.read_at rows)
            request.booked
          ≡ ok minutes
        → row.spot_id ≡ request.spot_id
        → row.booked ≡ request.booked
        → find_booking k rows ≡ some b
        → row.spot_id ≡ b.spot_id
        → blocks b.spot_id t b ≡ true
        → Disjoint b.booked row.booked
    new-Disjoint rows row b availability minutes k c s r f e u = rw r (
        check-Disjoint cal.weekday_of availability request.spot_id clock.read_at rows request.booked
          minutes k b c f
          (subst (λ i. blocks i clock.read_at b ≡ true) (sym e ∙ s)
            (blocks_earlier b.spot_id clock.read_at t b early u)))

    module _ (rows rows' : List Booking) (row : Booking) (availability : Availability) (minutes : ℤ)
        (c : check cal.weekday_of availability
            (taken_for_spot request.spot_id clock.read_at rows)
            request.booked
          ≡ ok minutes)
        (s : row.spot_id ≡ request.spot_id) (r : row.booked ≡ request.booked)
        (was : (k : ℕ)
          → find_booking k rows' ≡ (if row.id == k then some row else find_booking k rows)) where
      made-NoOverlap : NoOverlap t rows → NoOverlap t rows'
      made-NoOverlap n i j a b ne p q spot u v = elim (Bool-cases (row.id == i)) [
        | inl x ↦ elim (Bool-cases (row.id == j)) [
          | inl y ↦ absurd (ne (sym ((==_iff row.id i).0 x) ∙ (==_iff row.id j).0 y))
          | inr y ↦
              let same : row ≡ a = ground (arith, was i) in
              subst (λ (o : Booking). Disjoint o.booked b.booked) same
                (Disjoint-sym b.booked row.booked (
                  new-Disjoint rows row b availability minutes j c s r (ground (arith, was j))
                    (ap (λ (o : Booking). o.spot_id) same ∙ spot) v))
        ]
        | inr x ↦ elim (Bool-cases (row.id == j)) [
          | inl y ↦
              let same : row ≡ b = ground (arith, was j) in
              subst (λ (o : Booking). Disjoint a.booked o.booked) same
                (new-Disjoint rows row a availability minutes i c s r (ground (arith, was i))
                  (ap (λ (o : Booking). o.spot_id) same ∙ sym spot) u)
          | inr y ↦ n i j a b ne (ground (arith, was i)) (ground (arith, was j)) spot u v
        ]
      ]

    Creation-NoOverlap :
        (db db' : Db)
        → Creation cal renter_id request booking_id stamp clock db db'
        → NoOverlap t db.bookings
        → NoOverlap t db'.bookings
    Creation-NoOverlap db db' (kept r e) = λ n. rw e n
    Creation-NoOverlap db db' (made av minutes row out free c rid s r st ve e f g h l off to sp) =
        made-NoOverlap db.bookings db'.bookings row av minutes c s r
          (λ k. rw e (find-put_row k row db.bookings))

module _ (cal : Calendar) (t : ℕ) where
  run_call-NoOverlap :
      (c : Call) (db : Db)
      → ReadBy t c
      → NoOverlap t db.bookings
      → NoOverlap t (run_call cal c db).bookings
  run_call-NoOverlap c db r n = by_effect c _ (run_call-Chained cal c db) r
    where
      by_effect :
          (c : Call) (db' : Db) → Chained cal c db db' → ReadBy t c → NoOverlap t db'.bookings
      by_effect (creates renter_id request booking_id stamps clock) db' o early =
          Creation-NoOverlap t cal renter_id request booking_id (stamps 0) clock early db db' o n
      by_effect c db' (m, l, o) early = Chain-NoOverlap t (stamps_of c) o n

  Step-NoOverlap :
      {Admits : Call → Db → Type 0} {u v : System}
      → Step cal t Admits u v
      → NoOverlap t u.db.bookings
      → NoOverlap t v.db.bookings
  Step-NoOverlap (runs s c r x) n = run_call-NoOverlap c s.db r n
  Step-NoOverlap (relays s row h) n = n
  Step-NoOverlap (publishes s row h) n = n

  -- From tables in which no two bookings that hold one spot at the instant `t` overlap, whatever
  -- transactions run and in whatever order, none do afterwards, where every creation reads its
  -- clock no later than `t`.
  pub Reach-NoOverlap :
      (Admits : Call → Db → Type 0) (u v : System)
      → Reach cal t Admits u v
      → NoOverlap t u.db.bookings
      → NoOverlap t v.db.bookings
  Reach-NoOverlap Admits u v here n = n
  Reach-NoOverlap Admits u v (next r st) n = Step-NoOverlap st (Reach-NoOverlap Admits u _ r n)
