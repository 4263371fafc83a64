-- ===== src/Booking/Outcome/Chain.antt =====
-- apps/services/booking-service/src: transactions that move bookings on one after another, whichever they
-- are.
use our_driveway.Prelude.{ℕ, suc, Bool, ◌≡◌, ◌∙◌}
use our_driveway.Shared.Bookings.{BookingEvent}
use our_driveway.Booking.Table.{Db, Stamp}
use our_driveway.Booking.Outcome.{Outcome}

-- Outcomes in a row, at most `m` of them; the `n`-th booking takes the `n`-th stamp. The bookings and
-- the outbox are all that counts.
pub data Chain (stamps : ℕ → Stamp) : ℕ → ℕ → Db → Db → Type 0 where
  stop :
      {n m : ℕ} {db db' : Db}
      → db'.bookings ≡ db.bookings
      → db'.outbox ≡ db.outbox
      → Chain stamps n m db db'
  skip : {n m : ℕ} {db db' : Db} → Chain stamps (suc n) m db db' → Chain stamps n (suc m) db db'
  link :
      {n m : ℕ} {db mid db' : Db} {runs : Bool} {event : BookingEvent} (id : ℕ)
      → Outcome runs event id (stamps n).event_id db mid
      → Chain stamps (suc n) m mid db'
      → Chain stamps n (suc m) db db'

module _ (stamps : ℕ → Stamp) where
  pub Chain-extend :
      {n m : ℕ} {db mid db' : Db}
      → Chain stamps n m db mid
      → db'.bookings ≡ mid.bookings
      → db'.outbox ≡ mid.outbox
      → Chain stamps n m db db'
  Chain-extend (stop b o) e f = stop (e ∙ b) (f ∙ o)
  Chain-extend (skip os) e f = skip (Chain-extend os e f)
  Chain-extend (link id o os) e f = link id o (Chain-extend os e f)
