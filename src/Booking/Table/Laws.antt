-- ===== src/Booking/Table/Laws.antt =====
-- The laws of the `booking` table: what is found after a write.
use our_driveway.Prelude.{ℕ, ◌==◌, ◌≡◌, refl, ◌∙◌, some, List, [], ◌∷◌, arith, if◌then◌else◌}
use our_driveway.Prelude.Int.{ℤ}
use our_driveway.Shared.Versions.{set_version}
use our_driveway.Shared.Bookings.{Booking}
use our_driveway.Booking.Table.{find_booking, put_row, set_booking_version}

pub find-put_row :
    (k : ℕ) (row : Booking) (rows : List Booking)
    → find_booking k (put_row row rows) ≡ (if row.id == k then some row else find_booking k rows)
unfolding find_booking put_row
find-put_row k row [] = refl
find-put_row k row (b ∷ rows) = ground (arith, find-put_row k row rows)

pub find-id : (k : ℕ) (rows : List Booking) (b : Booking) → find_booking k rows ≡ some b → b.id ≡ k
unfolding find_booking
find-id k [] b h = cc
find-id k (a ∷ rows) b h = ground (arith, find-id k rows b)

-- The row that a transition with a new version leaves.
abbrev pub renumbered : ℤ → Booking → Booking
renumbered v b = record b { version = set_version b.version v }

pub set_booking_version_lem :
    (id : ℕ) (v : ℤ) (rows : List Booking) (b : Booking)
    → find_booking id rows ≡ some b
    → set_booking_version id v rows ≡ put_row (renumbered v b) rows
unfolding set_booking_version
set_booking_version_lem id v rows b h = rw (h, set_booking_version)

-- To replace a row and number it anew is to write one row.
pub find-set_booking_version-put_row :
    (k id : ℕ) (v : ℤ) (row : Booking) (rows : List Booking)
    → row.id ≡ id
    → find_booking k (set_booking_version id v (put_row row rows))
      ≡ (if id == k then some (renumbered v row) else find_booking k rows)
find-set_booking_version-put_row k id v row rows h =
    rw
      (set_booking_version_lem id v (put_row row rows) row
        (find-put_row id row rows ∙ ground (arith)))
      (find-put_row k (renumbered v row) (put_row row rows)
        ∙ ground (arith, find-put_row k row rows))
