-- ===== src/Booking/System.antt =====
-- apps/services/booking-service: the service as a whole. Every handler, the sweeper, the payment worker
-- and the projector of SPOTS run as transactions on one database, in any order, and the relay
-- publishes what they leave in the outbox (bus/src/outbox.rs).
pub mod Effects
pub mod Overlap
pub mod Numbered
pub mod Log
pub mod Whole
use our_driveway.Prelude.{ℕ, ◌==◌, ◌≤◌, ◌≡◌, ◌≢◌, Bool, false, List, [], ◌∷◌, ◌++◌, any}
use our_driveway.Prelude.Membership.{In}
use our_driveway.Prelude.Int.{ℤ}
use our_driveway.Prelude.Result.{committed}
use our_driveway.Shared.Bookings.{Booking}
use our_driveway.Shared.Spots.{SpotEvent}
use our_driveway.Bus.Outbox.{Pending, delete_row}
use our_driveway.Booking.Schedule.{Calendar}
use our_driveway.Booking.Table.{Db, Stamp, Envelope}
use our_driveway.Booking.Service.{
  CreateBookingRequest, Clock, create_booking, release, cancel, rate, confirm_paid, sweep_one,
}
use our_driveway.Booking.Reactor.{apply_spot}

-- One transaction and its inputs. A `Db` among them is the snapshot that the handler read before.
pub data Call : Type 0 where
  creates : ℕ → CreateBookingRequest → ℕ → (ℕ → Stamp) → Clock → Call
  releases : Db → (ℕ → Stamp) → ℕ → ℕ → Call
  cancels : Db → (ℕ → Stamp) → ℕ → ℕ → ℕ → Call
  rates_one : Db → (ℕ → Stamp) → ℕ → ℕ → ℕ → ℤ → Call
  confirms : Db → (ℕ → Stamp) → ℕ → Call
  sweeps : (ℕ → Stamp) → Booking → Call
  mirrors : (ℕ → Stamp) → SpotEvent → ℕ → ℤ → Call

-- The stamps that a call takes from outside, in the order of its events; all but `mirrors` take one.
abbrev pub stamps_of : Call → ℕ → Stamp
stamps_of (creates renter_id request booking_id stamps clock) = stamps
stamps_of (releases read stamps renter_id booking_id) = stamps
stamps_of (cancels read stamps now renter_id booking_id) = stamps
stamps_of (rates_one read stamps now renter_id booking_id rating) = stamps
stamps_of (confirms read stamps booking_id) = stamps
stamps_of (sweeps stamps hold) = stamps
stamps_of (mirrors stamps event when version) = stamps

-- A creation reads the clock no later than `t`.
abbrev pub ReadBy : ℕ → Call → Type 0
ReadBy t (creates renter_id request booking_id stamps clock) = clock.read_at ≤ t
ReadBy t _ = Unit {0}

module _ (cal : Calendar) where
  -- The tables after a call, committed or rolled back.
  unfoldable pub run_call : Call → Db → Db
  run_call (creates renter_id request booking_id stamps clock) db =
      committed (create_booking cal renter_id request booking_id (stamps 0) clock) db
  run_call (releases read stamps renter_id booking_id) db =
      committed (release read (stamps 0) renter_id booking_id) db
  run_call (cancels read stamps now renter_id booking_id) db =
      committed (cancel cal read (stamps 0) now renter_id booking_id) db
  run_call (rates_one read stamps now renter_id booking_id rating) db =
      committed (rate read (stamps 0) now renter_id booking_id rating) db
  run_call (confirms read stamps booking_id) db =
      committed (confirm_paid read (stamps 0) booking_id) db
  run_call (sweeps stamps hold) db = committed (sweep_one (stamps 0) hold) db
  run_call (mirrors stamps event when version) db =
      committed (apply_spot cal stamps event when version) db

-- The database, and what the stream took so far.
pub record System : Type 0 where
  pub db : Db
  pub sent : List (Pending Envelope)

-- `Uuid::now_v7`: the event ids of a call are new, and no two of them are the same.
pub record Fresh (stamps : ℕ → Stamp) (db : Db) : Type 0 where
  pub unused : (n : ℕ) → any (λ p. p.id == (stamps n).event_id) db.outbox ≡ false
  pub distinct : (m n : ℕ) → m ≢ n → ((stamps n).event_id == (stamps m).event_id) ≡ false

-- The last case of a relay is a stop between the publication and the deletion.
pub data Step (cal : Calendar) (t : ℕ) (Admits : Call → Db → Type 0)
    : System → System → Type 0 where
  runs :
      (s : System) (c : Call)
      → ReadBy t c
      → Admits c s.db
      → Step cal t Admits s (record s { db = run_call cal c s.db })
  relays :
      (s : System) (row : Pending Envelope)
      → In row s.db.outbox
      → Step cal t Admits s (record {
        db = record s.db { outbox = delete_row row.id s.db.outbox };
        sent = s.sent ++ row ∷ [];
      })
  publishes :
      (s : System) (row : Pending Envelope)
      → In row s.db.outbox
      → Step cal t Admits s (record s { sent = s.sent ++ row ∷ [] })

pub data Reach (cal : Calendar) (t : ℕ) (Admits : Call → Db → Type 0) (s : System)
    : System → Type 0 where
  here : Reach cal t Admits s s
  next : {u v : System} → Reach cal t Admits s u → Step cal t Admits u v → Reach cal t Admits s v
