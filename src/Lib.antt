-- ===== src/Lib.antt =====
-- OurDriveway rents out parking spots: a renter books hours on a spot, pays through Stripe within a
-- quarter of an hour, and the host withdraws what has settled. Each service owns its tables. A change is one
-- transaction that writes the rows, gives the row the next version, and leaves an event in the service's
-- outbox; a relay publishes the outbox to the log, and projectors and workers of other services take
-- the events from there, in any order and more than once.
--
-- Prelude holds what all files share: tests on numbers, lists, integers with the wrap-around of i32 and i64
-- (Prelude.Int), texts as code points, transactions that an error rolls back (Prelude.Result), and the rules for what a
-- transaction keeps (Prelude.Keeping).
--
-- Shared models shared/src: Shared.Slots the slot grid and its validation
-- (general_models/spot.rs), Shared.Bookings and Shared.Spots the rows and events of bookings and spots
-- (domain_models/booking, events), Shared.Versions `next_version!`, `set_version!` and
-- `version_gap` (db.rs), Shared.Tokens the texts of aggregates and versions (events/mod.rs),
-- Shared.Keyed a table whose rows have an id, Shared.EmailTokens the tokens of a link in a mail (email_token.rs).
--
-- Bus models bus/src: Bus.Gate the version gate, `Tx::apply` and one message of a lane (projector.rs), Bus.Order
-- and Bus.Redelivery what a lane makes of deliveries, Bus.Outbox `enqueue` and `drain` (outbox.rs), Bus.Await
-- the header that waits for a version (await_version.rs).
--
-- Booking models apps/services/booking-service/src: Booking.Availability and Booking.Schedule
-- policy/availability.rs and policy/schedule.rs, Booking.Table the statements of repository/, Booking.Service the
-- handlers of service/ and sweeper.rs (Create has `create_booking`, Settle the transitions),
-- Booking.Reactor projector.rs, Booking.Outcome what these leave in the tables, and Booking.System all of
-- them on one database, in any order, with the relay beside them.
--
-- Payment models apps/services/payment-service/src: Payment.Rows the rows and events, Payment.Policy
-- policy/, Payment.Table the statements of repository/, Payment.Service `create_session`,
-- `record_webhook` and `request_payout` (service/payment_service.rs), Payment.Workers `settle_up`, `pay_out`
-- and the handlers of worker.rs, Payment.Mirror the mirror of the bookings (projector.rs), Payment.Funds a
-- host's balance, Payment.Life the life of a payment.
--
-- User models apps/services/user-service/src: User.Rows the rows and events of accounts and sessions, User.Table
-- the statements of repository/, User.Service and User.Profile the handlers of service/user_service.rs (Profile
-- has `update_user`) and policy/mail.rs, User.Sessions service/refresh_token_service.rs, User.Keeping what each
-- handler keeps, User.Reset what a new password leaves, User.Passwords what a caller has to know, User.Edits an edit of nothing,
-- User.Races and User.Links what a stale read or an old link does, and User.System the handlers on one
-- database, in any order.
--
-- Notification models apps/services/notification-service/src: the mail of an event (service/user_worker_service.rs),
-- what is sent of it (policy/template.rs, client/mailer.rs), and in Notification.ResetLink the way from a
-- forgotten password through the mail to a new one.
--
-- View models parts of apps/services/view-service/src: View.Page policy/page.rs, View.Listings the listings of a
-- host a window at a time, View.Wallet the totals of a month and when a charge settles.
--
-- A table is the list of its rows, and a row is found by its key. A transaction is atomic, and what a handler
-- read before its transaction is an argument, an earlier state of the tables or any other. Uuids,
-- event ids and instants are natural numbers; a clock reading, a new id, an answer of Stripe's, the
-- password hasher, the JWT library and the date library are arguments too, and so is how a uuid is printed and read. A field of a changeset that
-- is `None` leaves its column alone, in an update and in an upsert. A hash map is the list of its entries in the order in which it is
-- walked. A column of texts with few values is a data type, with a case for any other text where
-- the code has one. Of an error the status and the title are kept. Two withdrawals of one host run one
-- after the other, which is what the advisory lock is for.
--
-- `drain` takes fuel, one for each row of the table and one more; Bus.Outbox.Drain has that this is enough.
-- `walk` in View.Listings takes fuel too, one for each window that is asked for; one for each listing and one more is
-- enough. Other loops are structural. A delivery budget of 30, as in projector.rs, bounds what
-- Bus.Redelivery delivers before a gap is applied over.
--
-- Not modelled: HTTP routes and decoding, the database's and the broker's connections, the
-- Stripe client, the mail provider, media, geocoding, the rest of the read side (view-service), the
-- creation of spots, the frontend, the migrator and the end-to-end tests.
pub mod Prelude
pub mod Shared
pub mod Bus
pub mod Booking
pub mod Payment
pub mod User
pub mod Notification
pub mod View
