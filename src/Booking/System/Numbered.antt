-- ===== src/Booking/System/Numbered.antt =====
-- apps/services/booking-service and bus/src/outbox.rs: the numbering of the events. The versions of a
-- booking's events are 1, 2, .. up to the version of its row, each on one event.
use our_driveway.Prelude.{
  ℕ, suc, ◌==◌, ◌≤◌, ◌<◌, ◌≡◌, sym, subst, ◌∙◌, ap, dec_lt, Bool-cases, ◌⊎◌, inl, inr, Option, none,
  some, List, arith, if◌then◌else◌, ==_iff, false,
}
use our_driveway.Prelude.Int.{ℤ, pos, pos_part, ◌+ℤ◌, i64, i64_fits, half_i64}
use our_driveway.Shared.Versions.{max_ℤ, next_version, set_version}
use our_driveway.Shared.Bookings.{Booking}
use our_driveway.Bus.Outbox.{Pending}
use our_driveway.Booking.Table.{Envelope, find_booking}

-- The version of a booking's row; 0 where there is none.
abbrev pub version_now : Option Booking → ℕ
version_now none = 0
version_now (some b) = pos_part b.version

abbrev pub stored : ℕ → List Booking → ℕ
stored id rows = version_now (find_booking id rows)

-- The events `M` are the whole numbering of the rows.
pub record Numbered (rows : List Booking) (M : Pending Envelope → Type 0) : Type 0 where
  pub signed :
      (id : ℕ) (b : Booking) → find_booking id rows ≡ some b → b.version ≡ pos (stored id rows)
  pub sound :
      (p : Pending Envelope)
      → M p
      → (k : ℕ) × (p.payload.version ≡ pos (suc k)) × (k < stored p.payload.aggregate rows)
  pub complete :
      (id k : ℕ)
      → k < stored id rows
      → (p : Pending Envelope) × M p
        × (p.payload.aggregate ≡ id)
        × (p.payload.version ≡ pos (suc k))
  pub unique :
      (p q : Pending Envelope)
      → M p
      → M q
      → p.payload.aggregate ≡ q.payload.aggregate
      → p.payload.version ≡ q.payload.version
      → p ≡ q

pos_of-eq : (v : ℤ) (m : ℕ) → v ≡ pos m → v ≡ pos (pos_part v)
pos_of-eq v m e = rw e

-- The same events in another place.
pub Numbered-same :
    (rows : List Booking) (M N : Pending Envelope → Type 0)
    → ((p : Pending Envelope) → M p → N p)
    → ((p : Pending Envelope) → N p → M p)
    → Numbered rows M
    → Numbered rows N
Numbered-same rows M N to from n = record {
  signed = n.signed;
  sound = λ p h. n.sound p (from p h);
  complete = λ id k l. let (p, m, a, v) = n.complete id k l in (p, to p m, a, v);
  unique = λ p q h g. n.unique p q (from p h) (from q g);
}

-- `next_version!` and `set_version!` on a row at version `n`, short of the last `i64`.
pub next_version_pos : (n : ℕ) → suc n < half_i64 → next_version (some (pos n)) ≡ pos (suc n)
unfolding next_version ◌+ℤ◌
next_version_pos n h =
    let e : max_ℤ (pos n) (pos 0) +ℤ pos 1 ≡ pos (suc n) = ground arith in
    ap i64 e ∙ i64_fits (pos (suc n)) (omega arith)

pub set_version_pos : (n : ℕ) → set_version (pos n) (pos (suc n)) ≡ pos (suc n)
unfolding set_version
set_version_pos n = ground arith

-- One row is written with the next version, and one event carries it.
module _ (id : ℕ) (rows rows' : List Booking) (M N : Pending Envelope → Type 0) (new : Booking)
    (p : Pending Envelope)
    (others : (k : ℕ) → find_booking k rows' ≡ (if id == k then some new else find_booking k rows))
    (numbered : new.version ≡ pos (suc (stored id rows))) (about : p.payload.aggregate ≡ id)
    (carries : p.payload.version ≡ pos (suc (stored id rows)))
    (to : (q : Pending Envelope) → M q → N q) (added : N p)
    (from : (q : Pending Envelope) → N q → M q ⊎ (q ≡ p)) where
  stored_here : stored id rows' ≡ suc (stored id rows)
  stored_here = ground (arith, others id, numbered)

  stored_there : (k : ℕ) → (id == k) ≡ false → stored k rows' ≡ stored k rows
  stored_there k e = ground (arith, others k)

  stored_grows : (k : ℕ) → stored k rows ≤ stored k rows'
  stored_grows k = elim (Bool-cases (id == k)) [
    | inl e ↦
        subst (λ i. stored i rows ≤ stored i rows') ((==_iff id k).0 e) (omega (arith, stored_here))
    | inr e ↦ omega (arith, stored_there k e)
  ]

  pub stored_next : (k : ℕ) → stored k rows' ≤ suc (stored k rows)
  stored_next k = elim (Bool-cases (id == k)) [
    | inl e ↦
        subst (λ i. stored i rows' ≤ suc (stored i rows)) ((==_iff id k).0 e)
          (omega (arith, stored_here))
    | inr e ↦ omega (arith, stored_there k e)
  ]

  signed_grow :
      Numbered rows M
      → (k : ℕ) (b : Booking) → find_booking k rows' ≡ some b
      → b.version ≡ pos (pos_part b.version)
  signed_grow n k b h = elim (Bool-cases (id == k)) [
    | inl e ↦ pos_of-eq b.version (suc (stored id rows)) (ground (arith, others k, numbered))
    | inr e ↦ pos_of-eq b.version (stored k rows) (n.signed k b (ground (arith, others k)))
  ]

  complete_here :
      Numbered rows M
      → (i : ℕ) → i < suc (stored id rows)
      → (q : Pending Envelope) × N q
        × (q.payload.aggregate ≡ id)
        × (q.payload.version ≡ pos (suc i))
  complete_here n i l = elim (dec_lt i (stored id rows)) [
    | yes h ↦ let (q, m, a, v) = n.complete id i h in (q, to q m, a, v)
    | no h ↦
        let e : stored id rows ≡ i = omega arith in
        (p, added, about, carries ∙ ap (λ (j : ℕ). pos (suc j)) e)
  ]

  complete_grow :
      Numbered rows M
      → (k i : ℕ) → i < stored k rows'
      → (q : Pending Envelope) × N q × (q.payload.aggregate ≡ k) × (q.payload.version ≡ pos (suc i))
  complete_grow n k i l = elim (Bool-cases (id == k)) [
    | inl e ↦
        let here : id ≡ k = (==_iff id k).0 e in
        let (q, m, a, v) =
          complete_here n i (omega (arith, stored_here, ap (λ (j : ℕ). stored j rows') here)) in
        (q, m, a ∙ here, v)
    | inr e ↦
        let (q, m, a, v) = n.complete k i (omega (arith, stored_there k e)) in (q, to q m, a, v)
  ]

  -- No earlier event is the new one's twin.
  no_twin :
      Numbered rows M
      → (q : Pending Envelope) → M q
      → q.payload.aggregate ≡ p.payload.aggregate
      → q.payload.version ≡ p.payload.version
      → ⊥
  no_twin n q m a v =
      let (k, e, l) = n.sound q m in
      let same : suc k ≡ suc (stored id rows) = ap pos_part (sym e ∙ v ∙ carries) in
      absurd (omega (arith, ap (λ (j : ℕ). stored j rows) (a ∙ about)))

  unique_grow :
      Numbered rows M
      → (q r : Pending Envelope) → N q
      → N r
      → q.payload.aggregate ≡ r.payload.aggregate
      → q.payload.version ≡ r.payload.version
      → q ≡ r
  unique_grow n q r h g a v = elim (from q h) [
    | inl m ↦ elim (from r g) [
      | inl o ↦ n.unique q r m o a v
      | inr e ↦ absurd (no_twin n q m (rw e at a) (rw e at v))
    ]
    | inr d ↦ elim (from r g) [
      | inl o ↦ absurd (no_twin n r o (sym (rw d at a)) (sym (rw d at v)))
      | inr e ↦ d ∙ sym e
    ]
  ]

  pub Numbered-grow : Numbered rows M → Numbered rows' N
  Numbered-grow n = record {
    signed = λ k b h. rw h (signed_grow n k b h);
    sound = λ q h. elim (from q h) [
      | inl m ↦
          let (k, v, l) = n.sound q m in (k, v, omega (arith, stored_grows q.payload.aggregate))
      | inr e ↦ (stored id rows, rw e carries, rw (e, about) (omega (arith, stored_here)))
    ];
    complete = complete_grow n;
    unique = unique_grow n;
  }
