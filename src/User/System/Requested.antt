-- ===== src/User/System/Requested.antt =====
-- apps/services/user-service/src: the mails that wait in the outbox, and the instant of the last one.
use mathlib.Core.Option
use our_driveway.Prelude.{
  ℕ, ◌==◌, ◌&&◌, ◌≡◌, refl, ap, ◌∙◌, subst, Bool, true, false, Option, none, some, List, [], ◌∷◌,
  ◌++◌, arith, if◌then◌else◌, Bool-cases, Option-cases, inl, inr, length, length-append, keep, any,
  ==_iff,
}
use our_driveway.Shared.Keyed.{find_row, put, update_where}
use our_driveway.Shared.Keyed.Laws.{find-put, find-update_where, find-id}
use our_driveway.Bus.Outbox.{Pending, enqueue}
use our_driveway.User.Rows.{User, user_id_of}
use our_driveway.User.Table.{
  Payload, Envelope, UserRow, row_id, kept_user, mailed_at, mail_requested_at,
  set_mail_requested_at,
}
use our_driveway.User.Keeping.{asks_mail, is_mail}

-- An event that the account is mailed for at a request.
unfoldable pub mails_to : ℕ → Payload → Bool
mails_to uid (Payload.of_user event) = asks_mail event && user_id_of event == uid
mails_to uid (Payload.of_session event) = false

-- How many such events wait in the outbox.
unfoldable pub mails : ℕ → List (Pending Envelope) → ℕ
mails uid outbox = length (keep (λ p. mails_to uid p.payload.payload) outbox)

keep-append :
    (p : Pending Envelope → Bool) (xs ys : List (Pending Envelope))
    → keep p (xs ++ ys) ≡ keep p xs ++ keep p ys
keep-append p [] ys = refl
keep-append p (x ∷ xs) ys = elim (Bool-cases (p x)) [
  | inl t ↦ rw t (ap (λ zs. x ∷ zs) (keep-append p xs ys))
  | inr f ↦ rw f (keep-append p xs ys)
]

pub not_mailed : (uid : ℕ) (p : Payload) → is_mail p ≡ false → mails_to uid p ≡ false
unfolding is_mail mails_to
not_mailed uid (Payload.of_user event) quiet = rw quiet refl
not_mailed uid (Payload.of_session event) quiet = refl

-- An event of another kind or about another account.
pub mails-enqueue :
    (uid : ℕ) (row : Pending Envelope) (outbox : List (Pending Envelope))
    → mails_to uid row.payload.payload ≡ false
    → mails uid (enqueue row outbox) ≡ mails uid outbox
unfolding mails enqueue
mails-enqueue uid row outbox quiet = elim (Bool-cases (any (λ p. p.id == row.id) outbox)) [
  | inl t ↦ rw t refl
  | inr f ↦ rw f (
      ap length (keep-append (λ p. mails_to uid p.payload.payload) outbox (row ∷ []))
      ∙ rw quiet
          (length-append (keep (λ p. mails_to uid p.payload.payload) outbox) [] ∙ omega arith))
]

bind_map :
    (o : Option UserRow) (f : UserRow → UserRow)
    → Option.bind (Option.map f o) mailed_at ≡ Option.bind o (λ a. mailed_at (f a))
unfolding Option.bind
bind_map none f = refl
bind_map (some a) f = refl

kept_in :
    (o : Option UserRow) (id : ℕ) (change : UserRow → UserRow)
    → ((a : UserRow) → mailed_at (change a) ≡ mailed_at a)
    → Option.bind o (λ a. mailed_at (if row_id a == id then change a else a))
      ≡ Option.bind o mailed_at
unfolding Option.bind
kept_in none id change same = refl
kept_in (some a) id change same = elim (Bool-cases (row_id a == id)) [
  | inl t ↦ rw t (same a)
  | inr f ↦ rw f refl
]

-- What leaves the instant of the last mail alone.
module _ (uid id : ℕ) (rows : List UserRow) (change : UserRow → UserRow)
    (keeps : (a : UserRow) → row_id (change a) ≡ row_id a) where
  requested-update :
      mail_requested_at uid (update_where (λ r. row_id r == id) change rows)
      ≡ Option.bind
          (find_row row_id uid rows)
          (λ a. mailed_at (if row_id a == id then change a else a))
  unfolding mail_requested_at
  requested-update =
      ap (λ o. Option.bind o mailed_at)
        (find-update_where row_id (λ r. row_id r == id) change keeps uid rows)
      ∙ bind_map (find_row row_id uid rows) (λ a. if row_id a == id then change a else a)

  pub requested_kept :
      ((a : UserRow) → mailed_at (change a) ≡ mailed_at a)
      → mail_requested_at uid (update_where (λ r. row_id r == id) change rows)
        ≡ mail_requested_at uid rows
  unfolding mail_requested_at
  requested_kept same = requested-update ∙ kept_in (find_row row_id uid rows) id change same

pub inserted_requested :
    (uid : ℕ) (u : User) (rows : List UserRow)
    → find_row row_id u.id rows ≡ none
    → mail_requested_at uid (put row_id (kept_user (find_row row_id u.id rows) u) rows)
      ≡ mail_requested_at uid rows
unfolding mail_requested_at Option.bind
inserted_requested uid u rows new =
    ap (λ o. Option.bind o mailed_at)
      (find-put row_id uid (kept_user (find_row row_id u.id rows) u) rows)
    ∙ elim (Bool-cases (u.id == uid)) [
      | inl t ↦
          let same : u.id ≡ uid = ground arith in
          let gone : find_row row_id uid rows ≡ none =
            subst (λ k. find_row row_id k rows ≡ none) same new in
          rw (t, gone, new) refl
      | inr f ↦ rw f refl
    ]

elsewhere : (a uid id : ℕ) → a ≡ uid → (id == uid) ≡ false → (a == id) ≡ false
elsewhere a uid id e f = ground arith

pub and_false : (b : Bool) → (b && false) ≡ false
and_false true = refl
and_false false = refl

requested_elsewhere :
    (uid id : ℕ) (rows : List UserRow) (change : UserRow → UserRow)
    → ((a : UserRow) → row_id (change a) ≡ row_id a)
    → (id == uid) ≡ false
    → mail_requested_at uid (update_where (λ r. row_id r == id) change rows)
      ≡ mail_requested_at uid rows
unfolding mail_requested_at Option.bind
requested_elsewhere uid id rows change keeps away =
    requested-update uid id rows change keeps ∙ elim (Option-cases (find_row row_id uid rows)) [
      | inl e ↦ rw e refl
      | inr (a, e) ↦
          let other : (row_id a == id) ≡ false =
            elsewhere (row_id a) uid id (find-id row_id uid rows a e) away in
          rw (e, other) refl
    ]

pub set_elsewhere :
    (uid id now : ℕ) (rows : List UserRow)
    → (id == uid) ≡ false
    → mail_requested_at uid (set_mail_requested_at id now rows) ≡ mail_requested_at uid rows
unfolding set_mail_requested_at
set_elsewhere uid id now rows away =
    requested_elsewhere uid id rows (λ r. record r { mail_requested_at = some now }) (λ a. refl)
      away

pub requested_here :
    (uid now : ℕ) (rows : List UserRow) (r : UserRow)
    → find_row row_id uid rows ≡ some r
    → mail_requested_at uid (set_mail_requested_at uid now rows) ≡ some now
unfolding set_mail_requested_at Option.bind
requested_here uid now rows r e =
    let here : (row_id r == uid) ≡ true = (==_iff (row_id r) uid).1 (find-id row_id uid rows r e) in
    requested-update uid uid rows (λ r. record r { mail_requested_at = some now }) (λ a. refl)
    ∙ rw (e, here) refl
