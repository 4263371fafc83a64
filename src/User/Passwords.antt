-- ===== src/User/Passwords.antt =====
-- apps/services/user-service/src/service/user_service.rs: what a caller of `update_user` has to know.
use our_driveway.Prelude.{
  ℕ, ◌≡◌, refl, subst, Bool, true, false, Option, none, some, Bool-cases, inl, inr, ◌⊎◌,
}
use our_driveway.Prelude.Int.{ℤ}
use our_driveway.Prelude.Text.{Text}
use our_driveway.Prelude.Result.{
  MyError, api, Result, ok, err, Tx, ◌>>=◌, ◌>>◌, return, require, context,
}
use our_driveway.Prelude.Keeping.{Left, Leads, Leads-bind, Leads-assoc}
use our_driveway.User.Table.{Db, Stamp, find_user, find_by_email}
use our_driveway.User.Rows.{User, UserEvent}
use our_driveway.User.Service.{is_none, of_result}
use our_driveway.User.Profile.{
  UpdateUserRequest, update_user, write_update, changed_email, decide, check_email, known_password,
  password_alone,
}

Left-const : (K : Type 0) {A : Type 0} (r : Result MyError (A × Db)) → K → Left (λ _. K) r
Left-const K (ok (a, s)) k = k
Left-const K (err e) k = tt

-- What is known stays known.
known_on : (Q K : Type 0) {A : Type 0} (m : Tx Db A) → (Q → K) → Leads (λ _. Q) (λ _. K) m
known_on Q K m f = record { apply = λ s q. Left-const K (m s) (f q) }

require-Leads :
    (c : Bool) (e : MyError) → Leads {S = Db} (λ _. Unit {0}) (λ _. c ≡ true) (require c e)
require-Leads true e = record { apply = λ s q. refl }
require-Leads false e = record { apply = λ s q. tt }

module _ (hash : Text → Result MyError Text) (fits : Text → Text → Bool) (read again : Db)
    (request : UpdateUserRequest) where
  -- The request has the current password of the account.
  abbrev pub Knows : User → Type 0
  Knows u =
      (current : Text) × (request.current_password ≡ some current)
      × (fits u.password current ≡ true)

  current-Leads :
      (u : User) (o : Option Text)
      → request.current_password ≡ o
      → Leads {S = Db}
          (λ _. Unit {0})
          (λ _. Knows u)
          (do
            current ← context o (api 409 "Password required")
            require (fits u.password current) (api 401 "Unauthorized"))
  current-Leads u none e = record { apply = λ s q. tt }
  current-Leads u (some current) e = record {
    apply = λ s q. elim (Bool-cases (fits u.password current)) [
      | inl t ↦ rw t (current, e, t)
      | inr f ↦ rw f tt
    ];
  }

  known_password-Knows :
      (u : User)
      → Leads (λ _. Unit {0}) (λ _. Knows u) (known_password hash fits read again request u)
  known_password-Knows u = current-Leads u request.current_password refl

  module _ (u : User) where
    abbrev Nothing : Db → Type 0
    Nothing db = Unit

    abbrev Known : Db → Type 0
    Known db = Knows u

    check_email-Knows :
        (o : Option Text) (email : Text)
        → o ≡ some email
        → Leads Nothing Known (check_email hash fits read again request u o)
    check_email-Knows none email e = absurd (cc)
    check_email-Knows (some a) email e =
        Leads-bind Nothing Known Known _ _ (known_password-Knows u) (λ _.
          known_on (Knows u) (Knows u)
            (require (is_none (find_by_email a again.users)) (api 409 "Email already registered"))
            (λ k. k))

    -- The two edits that ask for it.
    decide-Knows :
        {B : Type 0} (o : Option Text) (f : UserEvent × Option Text → Tx Db B)
        → ((email : Text) × (changed_email request.email u ≡ some email))
          ⊎ ((password : Text) × (o ≡ some password))
        → Leads Nothing Known (decide hash fits read again request u o >>= f)
    decide-Knows none f (inl (email, e)) =
        Leads-assoc Known Nothing
          (check_email hash fits read again request u (changed_email request.email u)) _ f
          (Leads-bind Nothing Known Known _ _
            (check_email-Knows (changed_email request.email u) email e)
            (λ _. known_on (Knows u) (Knows u) _ (λ k. k)))
    decide-Knows none f (inr (password, e)) = absurd (cc)
    decide-Knows (some new_password) f h =
        let alone : Tx Db (Unit {0}) =
          require (password_alone request) (api 409 "One change at a time") in
        let known : Tx Db (Unit {0}) = known_password hash fits read again request u in
        let new_hash : Tx Db (UserEvent × Option Text) =
          of_result (hash new_password) >>= λ password_hash.
          return (UserEvent.password_changed u.id, some password_hash) in
        Leads-assoc Known Nothing alone (λ _. known >> new_hash) f
          (Leads-bind Nothing Known Nothing alone _ (known_on (Unit {0}) (Unit {0}) alone (λ k. k))
            (λ _.
              Leads-assoc Known Nothing known (λ _. new_hash) f
                (Leads-bind Nothing Known Known known _ (known_password-Knows u)
                  (λ _. known_on (Knows u) (Knows u) _ (λ k. k)))))

    update_user-Leads :
        (uid : ℕ) (stamp : Stamp)
        → find_user uid read.users ≡ some u
        → ((email : Text) × (changed_email request.email u ≡ some email))
          ⊎ ((password : Text) × (request.new_password ≡ some password))
        → Leads Nothing Known (update_user hash fits read again uid request stamp)
    unfolding update_user
    update_user-Leads uid stamp found asks =
        let decided = decide-Knows request.new_password (write_update stamp u) asks in
        record { apply = λ db s. rw found (decided.apply db s) }

-- Whoever changes the address or the password of an account with an edit that answers has sent the current
-- password of the account, as it was read.
pub update_user-Knows :
    (hash : Text → Result MyError Text) (fits : Text → Text → Bool) (read again db db' : Db)
    (request : UpdateUserRequest) (u : User) (uid : ℕ) (stamp : Stamp) (v : ℤ)
    → find_user uid read.users ≡ some u
    → ((email : Text) × (changed_email request.email u ≡ some email))
      ⊎ ((password : Text) × (request.new_password ≡ some password))
    → update_user hash fits read again uid request stamp db ≡ ok (v, db')
    → (current : Text) × (request.current_password ≡ some current)
      × (fits u.password current ≡ true)
update_user-Knows hash fits read again db db' request u uid stamp v found asks runs =
    let leads = update_user-Leads hash fits read again request u uid stamp found asks in
    subst (Left (λ _. Knows hash fits read again request u)) runs (leads.apply db tt)
