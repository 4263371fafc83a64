-- ===== src/User/System/Spacing.antt =====
-- apps/services/user-service/src/policy/mail.rs: how often the requests mail one account.
use our_driveway.Prelude.{
  ℕ, ◌+◌, ◌≤◌, ◌==◌, ◌&&◌, ◌≡◌, refl, ap, ◌∙◌, subst, Bool, true, false, Option, none, some, List,
  [], ◌∷◌, arith, if◌then◌else◌, Bool-cases, inl, inr, ◌⊎◌, ==_iff,
}
use our_driveway.Prelude.Int.{ℤ, InWord, half_i64}
use our_driveway.Prelude.Keeping.{Keeps, Left, Leads-gets}
use our_driveway.Bus.Outbox.{enqueue}
use our_driveway.User.Rows.{UserEvent, UserPatch, user_id_of}
use our_driveway.User.Table.{
  Aggregate, Payload, Db, Stamp, UserRow, row_id, edit_user, patch_user, at_version,
  mail_requested_at, set_mail_requested_at, set_user_version,
}
use our_driveway.User.Service.{ask_for_mail, queue_mail, may_send, cooldown}
use our_driveway.User.Keeping.{Stable, both-Stable, asks_mail, Keeps-version_for}
use our_driveway.User.System.Once.{Past, Past-Stable, queued-Past}
use our_driveway.User.System.{Libraries, Call, run_call, run_call-keeps, IsNew, asked_at}
use our_driveway.User.System.Requested.{
  mails_to, mails, not_mailed, mails-enqueue, requested_kept, inserted_requested, and_false,
  set_elsewhere, requested_here,
}

-- `t` is a cooldown or more behind the last mail.
abbrev pub Waits : Option ℕ → ℕ → Type 0
Waits none t = Unit
Waits (some last) t = last + cooldown ≤ t

-- Each instant waits for the one before it.
abbrev pub Spaced : Option ℕ → List ℕ → Type 0
Spaced last [] = Unit
Spaced last (t ∷ ts) = Waits last t × Spaced (some t) ts

module _ (lib : Libraries) (uid : ℕ) where
  -- The instants at which the account's requested mails were queued.
  unfoldable pub sent : List Call → Db → List ℕ
  sent [] db = []
  sent (c ∷ cs) db =
      let rest = sent cs (run_call lib c db) in
      if mails uid (run_call lib c db).outbox == mails uid db.outbox
      then rest
      else asked_at c ∷ rest

  abbrev pub AllNew : List Call → Db → Type 0
  AllNew [] db = Unit
  AllNew (c ∷ cs) db = IsNew lib c db × AllNew cs (run_call lib c db)

may_send-Waits : (last : Option ℕ) (now : ℕ) → may_send last now ≡ true → Waits last now
unfolding may_send
may_send-Waits none now h = tt
may_send-Waits (some last) now h = ground arith

Spaced-later :
    (last : Option ℕ) (t : ℕ) (ts : List ℕ) → Waits last t → Spaced (some t) ts → Spaced last ts
Spaced-later last t [] w h = tt
Spaced-later none t (a ∷ ts) w (h, hs) = (tt, hs)
Spaced-later (some last) t (a ∷ ts) w (h, hs) = (omega arith, hs)

-- Against the tables of the start: no requested mail was queued for the account, or one at `now`, which was due.
abbrev Untouched : ℕ → Db → Db → Type 0
Untouched uid start db =
    (mails uid db.outbox ≡ mails uid start.outbox)
    × (mail_requested_at uid db.users ≡ mail_requested_at uid start.users)

abbrev Mailed : ℕ → ℕ → Db → Db → Type 0
Mailed uid now start db =
    Waits (mail_requested_at uid start.users) now × (mail_requested_at uid db.users ≡ some now)

pub record Due (uid now : ℕ) (start db : Db) : Type 0 where
  pub either : Untouched uid start db ⊎ Mailed uid now start db

-- A step that moves neither.
Due-kept :
    (uid now : ℕ) (start db db' : Db)
    → mails uid db'.outbox ≡ mails uid db.outbox
    → mail_requested_at uid db'.users ≡ mail_requested_at uid db.users
    → Due uid now start db
    → Due uid now start db'
Due-kept uid now start db db' e f h = record {
  either = elim h.either [ inl (m, r) ↦ inl (e ∙ m, f ∙ r) | inr (w, r) ↦ inr (w, f ∙ r) ];
}

patched_id : (patch : UserPatch) (a : UserRow) → row_id (edit_user (patch_user patch) a) ≡ row_id a
unfolding patch_user
patched_id patch a = refl

Due-Stable : (uid now : ℕ) (start : Db) → Stable (Due uid now start)
Due-Stable uid now start = record {
  patched = λ db id patch h.
      Due-kept uid now start db _ refl
        (requested_kept uid id db.users (edit_user (patch_user patch)) (patched_id patch)
          (λ a. refl))
        h;
  numbered = λ db id v w h.
      Due-kept uid now start db _ refl
        (requested_kept uid id db.users (edit_user (at_version v)) (λ a. refl) (λ a. refl)) h;
  sessions = λ db rows h. Due-kept uid now start db _ refl refl h;
  published = λ db row quiet h.
      Due-kept uid now start db _
        (mails-enqueue uid row db.outbox (not_mailed uid row.payload.payload quiet)) refl h;
  inserted =
      λ db u new h. Due-kept uid now start db _ refl (inserted_requested uid u db.users new) h;
}

-- The account is there, and its mails are due.
abbrev Both : ℕ → ℕ → Db → Db → Type 0
Both uid now start db = Past uid 0 db × Due uid now start db

-- What a mail that is queued leaves.
abbrev pub after_mail : ℕ → ℤ → ℕ → Stamp → UserEvent → Db → Db
after_mail id v now stamp event s = record {
  users = set_user_version id v (set_mail_requested_at id now s.users);
  tokens = s.tokens;
  outbox =
      enqueue
        (record {
          id = stamp.event_id;
          payload = record {
            subject = id;
            aggregate = Aggregate.user id;
            version = v;
            occurred_at = stamp.occurred_at;
            actor_id = some id;
            payload = Payload.of_user event;
          };
          created_at = stamp.created_at;
        })
        s.outbox;
}

-- No second mail at one instant.
never_twice : (now : ℕ) → may_send (some now) now ≡ true → ⊥
unfolding may_send
never_twice now h = ground arith

module _ (uid now : ℕ) (start s : Db) (p : Past uid 0 s) (d : Due uid now start s) where
  after_mail-Due :
      (id : ℕ) (v : ℤ) (stamp : Stamp) (event : UserEvent)
      → user_id_of event ≡ id
      → may_send (mail_requested_at id s.users) now ≡ true
      → Due uid now start (after_mail id v now stamp event s)
  unfolding set_user_version mails_to
  after_mail-Due id v stamp event about may = elim (Bool-cases (id == uid)) [
    | inl t ↦
        let it : id ≡ uid = (==_iff id uid).0 t in
        let at : mail_requested_at uid (after_mail id v now stamp event s).users ≡ some now =
          requested_kept uid id (set_mail_requested_at id now s.users) (edit_user (at_version v))
            (λ a. refl) (λ a. refl)
          ∙ (ap (λ k. mail_requested_at uid (set_mail_requested_at k now s.users)) it
              ∙ requested_here uid now s.users p.row p.found) in
        let due : may_send (mail_requested_at uid s.users) now ≡ true =
          subst (λ k. may_send (mail_requested_at k s.users) now ≡ true) it may in
        record {
          either = elim d.either [
            | inl (m, r) ↦ inr (
              may_send-Waits (mail_requested_at uid start.users) now
                  (subst (λ o. may_send o now ≡ true) r due),
              at,
            )
            | inr (w, r) ↦ absurd (never_twice now (subst (λ o. may_send o now ≡ true) r due))
          ];
        }
    | inr f ↦
        let quiet : (asks_mail event && user_id_of event == uid) ≡ false =
          rw (about, f) (and_false (asks_mail event)) in
        Due-kept uid now start s _ (mails-enqueue uid _ s.outbox quiet)
          (requested_kept uid id (set_mail_requested_at id now s.users) (edit_user (at_version v))
              (λ a. refl) (λ a. refl)
            ∙ set_elsewhere uid id now s.users f)
          d
  ]

  queued-Both :
      (id : ℕ) (v : ℤ) (stamp : Stamp) (event : UserEvent) (sends : Bool)
      → user_id_of event ≡ id
      → InWord half_i64 v
      → may_send (mail_requested_at id s.users) now ≡ sends
      → Left (Both uid now start) (queue_mail id v now stamp event sends s)
  unfolding queue_mail
  queued-Both id v stamp event false about w may = (p, d)
  queued-Both id v stamp event true about w may = (
    (queued-Past uid 0 id v now stamp event w true).apply s p,
    after_mail-Due id v stamp event about may,
  )

ask_for_mail-Both :
    (uid now id : ℕ) (start : Db) (stamp : Stamp) (event : UserEvent)
    → user_id_of event ≡ id
    → Keeps (Both uid now start) (ask_for_mail id now stamp event)
unfolding ask_for_mail
ask_for_mail-Both uid now id start stamp event about =
    Keeps-version_for (Both uid now start) id _ (λ v w.
      Leads-gets (Both uid now start) (Both uid now start) (λ db. mail_requested_at id db.users)
        (λ last. queue_mail id v now stamp event (may_send last now))
        (λ s (p, d).
          queued-Both uid now start s p d id v stamp event
            (may_send (mail_requested_at id s.users) now) about w refl))

-- A request leaves the account's mails as they are, or queues one at its instant, which is due.
call-Both :
    (lib : Libraries) (uid : ℕ) (c : Call) (db : Db)
    → Past uid 0 db
    → IsNew lib c db
    → Both uid (asked_at c) db (run_call lib c db)
call-Both lib uid c db p new =
    run_call-keeps lib (Both uid (asked_at c) db)
      (both-Stable (Past uid 0) (Due uid (asked_at c) db) (Past-Stable uid 0)
        (Due-Stable uid (asked_at c) db))
      c db (λ id stamp event about. ask_for_mail-Both uid (asked_at c) id db stamp event about) new
      (p, record { either = inl (refl, refl) })

-- The mails that the requests for a verification and for a reset queue for an account are a
-- cooldown apart, and the first is a cooldown or more behind the last one so requested, in
-- whatever order the requests come and whatever their clocks say: where the account is there, its
-- version is an `i64`, and new accounts have new ids. The mail of the signup is none of them, and
-- no request waits for it.
pub sent-Spaced :
    (lib : Libraries) (uid : ℕ) (cs : List Call) (db : Db)
    → Past uid 0 db
    → AllNew lib uid cs db
    → Spaced (mail_requested_at uid db.users) (sent lib uid cs db)
unfolding sent
sent-Spaced lib uid [] db p new = tt
sent-Spaced lib uid (c ∷ cs) db p (new, later) =
    let both = call-Both lib uid c db p new in
    let rest = sent-Spaced lib uid cs (run_call lib c db) both.0 later in
    let same : Bool = mails uid (run_call lib c db).outbox == mails uid db.outbox in
    elim both.1.either [
      | inl (m, r) ↦
          let quiet : same ≡ true = (==_iff _ _).1 m in
          rw quiet (subst (λ o. Spaced o (sent lib uid cs (run_call lib c db))) r rest)
      | inr (w, r) ↦
          let after = subst (λ o. Spaced o (sent lib uid cs (run_call lib c db))) r rest in
          elim (Bool-cases same) [
            | inl quiet ↦
                rw quiet (Spaced-later (mail_requested_at uid db.users) (asked_at c) _ w after)
            | inr more ↦ rw more (w, after)
          ]
    ]
