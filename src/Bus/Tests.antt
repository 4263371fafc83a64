-- ===== src/Bus/Tests.antt =====
-- bus/src: the theorems of the gate and of the relay on small inputs.
use our_driveway.Prelude.{
  ℕ, ◌↔◌, true, zero, suc, ap, ◌+◌, ◌≤◌, ◌<◌, ◌≡◌, refl, ◌⊎◌, inl, inr, Option, none, some, List,
  [], ◌∷◌, ◌++◌, arith, subst,
}
use our_driveway.Prelude.Membership.{In, In-append_left, In-append_right}
use our_driveway.Prelude.Int.{pos}
use our_driveway.Prelude.Result.{MyError, Result, ok, err}
use our_driveway.Prelude.Text.{Text, codes}
use our_driveway.Bus.Gate.{Envelope, at, pending}
use our_driveway.Bus.Await.{is_whitespace, parse, reached, Arrives, reached_iff}
use our_driveway.Bus.Await.Entries.{parse-written}
use our_driveway.Shared.Tokens.{format_version, aggregate_id}
use our_driveway.Bus.Order.{deliver_all, replay, Published, deliver_all-prefix}
use our_driveway.Bus.Redelivery.{Message, rounds, rounds_converge}
use our_driveway.Bus.Outbox.{Pending, Relay, drain, batch, relay_rows, delete_row}
use our_driveway.Bus.Outbox.Drain.{drain_ends}
use our_driveway.Bus.Outbox.Loss.{drain_loses_nothing, drain_publishes_all}

-- A row that adds up what its events say.
abbrev added : Option ℕ → ℕ → ℕ → ℕ
added none e when = e
added (some n) e when = n + e

abbrev history : List (ℕ × ℕ)
history = (5, 1) ∷ (7, 2) ∷ []

abbrev first : Envelope (Unit {0}) ℕ
first = record { aggregate = some tt; version = pos 1; occurred_at = 1; payload = 5 }

abbrev second : Envelope (Unit {0}) ℕ
second = record { aggregate = some tt; version = pos 2; occurred_at = 2; payload = 7 }

abbrev backwards : List (Envelope (Unit {0}) ℕ × ℕ)
backwards = (second, 1) ∷ (first, 1) ∷ (first, 2) ∷ []

first-Published : Published added history 0 first
first-Published = record { aggregate = refl; version = refl; event = refl }

second-Published : Published added history 1 second
second-Published = record { aggregate = refl; version = refl; event = refl }

deliver_all-prefix_example :
    (m : ℕ) × (0 ≤ m)
    × (m ≤ 2)
    × (deliver_all added backwards (replay added history 0) ≡ replay added history m)
deliver_all-prefix_example =
    deliver_all-prefix added history (omega arith) backwards 0 (omega arith)
      ((1, second-Published), ((0, first-Published), ((0, first-Published), tt)))
      (omega arith, (omega arith, (omega arith, tt)))

-- Every pending event is one of the two.
all_pending :
    (index : ℕ)
    → 0 ≤ index
    → index < 2
    → Published added history index second ⊎ (Published added history index first ⊎ ⊥)
all_pending zero l h = inr (inl first-Published)
all_pending (suc zero) l h = inl second-Published
all_pending (suc (suc n)) l h = absurd (omega arith)

abbrev pending_two : List (Message added)
pending_two = (second, 1) ∷ (first, 1) ∷ []

rounds_converge_example :
    (rounds added 2 pending_two (replay added history 0)).0 ≡ replay added history 2
rounds_converge_example =
    rounds_converge added history (omega arith) 2 0 pending_two (omega arith) (omega arith)
      ((1, second-Published, omega arith), ((0, first-Published, omega arith), tt)) all_pending

-- A broker that is the list of what it took.
abbrev take_row : Pending ℕ → List (Pending ℕ) → Result MyError (List (Pending ℕ))
take_row row log = ok (log ++ row ∷ [])

abbrev event_of : ℕ → ℕ → Pending ℕ
event_of id when = record { id = id; payload = id; created_at = when }

abbrev table : Relay ℕ (List (Pending ℕ))
table = record { outbox = event_of 4 9 ∷ event_of 3 2 ∷ []; broker = []; sent = 0 }

abbrev whole : List (Pending ℕ) → List (Pending ℕ)
whole log = log

drain_ends_example :
    (s' : Relay ℕ (List (Pending ℕ))) × (r : Result MyError ℕ) × (drain take_row 3 table
      ≡ some (s', r))
    × (((e : MyError) × (r ≡ err e)) ⊎ (s'.outbox ≡ []))
drain_ends_example = drain_ends take_row 3 table (omega arith)

takes_row :
    (row x : Pending ℕ) (b b' : List (Pending ℕ))
    → take_row row b ≡ ok b'
    → (x ≡ row) ⊎ In x b
    → In x b'
takes_row row x b b' e h =
    let it : b ++ row ∷ [] ≡ b' = cc in
    subst (In x) it (elim h [
      | inl same ↦ In-append_right x b (row ∷ []) (inl (cc))
      | inr i ↦ In-append_left x b (row ∷ []) i
    ])

table_distinct : (x y : Pending ℕ) → In x table.outbox → In y table.outbox → x.id ≡ y.id → x ≡ y
table_distinct x y (inl a) (inl b) e = cc
table_distinct x y (inl a) (inr (inl b)) e =
    absurd (omega (arith, ap (λ (z : Pending ℕ). z.id) a, e, ap (λ (z : Pending ℕ). z.id) b))
table_distinct x y (inr (inl a)) (inl b) e =
    absurd (omega (arith, ap (λ (z : Pending ℕ). z.id) a, e, ap (λ (z : Pending ℕ). z.id) b))
table_distinct x y (inr (inl a)) (inr (inl b)) e = cc
table_distinct x y (inr (inr a)) h e = absurd a
table_distinct x y (inl a) (inr (inr b)) e = absurd b
table_distinct x y (inr (inl a)) (inr (inr b)) e = absurd b

abbrev drained : Relay ℕ (List (Pending ℕ))
drained = record { outbox = []; broker = event_of 3 2 ∷ event_of 4 9 ∷ []; sent = 2 }

drain-table : drain take_row 3 table ≡ some (drained, ok 2)
unfolding drain batch relay_rows delete_row
drain-table = refl

drain_loses_nothing_example : In (event_of 4 9) [] ⊎ In (event_of 4 9) drained.broker
drain_loses_nothing_example =
    drain_loses_nothing take_row whole takes_row 3 table drained (ok 2) table_distinct drain-table
      (event_of 4 9) (inl refl)

drain_publishes_all_example : In (event_of 4 9) drained.broker
drain_publishes_all_example =
    drain_publishes_all take_row whole takes_row 3 2 table drained table_distinct (omega arith)
      drain-table (event_of 4 9) (inl refl)

-- A uuid as one character.
abbrev read_character : Text → Option ℕ
read_character [] = none
read_character (c ∷ s) = some c

abbrev print_character : ℕ → Text
print_character c = c ∷ []

-- Junk, an entry with blanks around it, and another entry.
parse-written_example :
    parse read_character (
      codes "user:a@,junk"
      ++ (b','
          ∷ ((codes " "
                ++ (format_version (aggregate_id print_character (codes "user") 97) (pos 12)
                    ++ codes "  "))
              ++ (b',' ∷ codes "spot:b@5"))))
    ≡ parse read_character (codes "user:a@,junk")
      ++ (codes "user", 97, pos 12) ∷ parse read_character (codes "spot:b@5")
unfolding is_whitespace
parse-written_example =
    parse-written print_character read_character (λ id. refl) (codes " ") (codes "  ")
      (codes "user") 97 12 (refl, tt) (refl, (refl, tt))
      ((refl, refl), ((refl, refl), ((refl, refl), ((refl, refl), tt)))) ((refl, refl), tt)
      (refl, (refl, (refl, (refl, tt)))) (omega arith) (codes "user:a@,junk") (codes "spot:b@5")

reached_iff_example :
    (reached (pos 3) (pending ∷ at (pos 2) ∷ at (pos 3) ∷ []) ≡ true)
    ↔ Arrives (pos 3) (pending ∷ at (pos 2) ∷ at (pos 3) ∷ [])
reached_iff_example = reached_iff (pos 3) (pending ∷ at (pos 2) ∷ at (pos 3) ∷ [])
