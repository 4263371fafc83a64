-- ===== src/Bus/Redelivery.antt =====
-- Redelivery of what bus/src/projector.rs hands back: in as many rounds as events are missing,
-- within the delivery budget, the projection holds the whole history, and no message is left.
use our_driveway.Prelude.{
  ℕ, zero, suc, ◌+◌, ◌≤◌, ◌<◌, ◌≡◌, refl, subst, ap, inl, inr, Option, List, [], ◌∷◌, arith, All,
  Any, length, ℕ_discrete, dec_lt,
}
use our_driveway.Prelude.Int.{half_i64}
use our_driveway.Bus.Gate.{Envelope, Reply, ack, nak, stop, max_gap_wait}
use our_driveway.Bus.Order.{
  Row, deliver, replay, Published, index-lt, deliver_next, deliver_old, deliver_early,
}

module _ {St Event : Type 0} (fold : Option St → Event → ℕ → St) where
  -- A message in flight, and which delivery of it comes next.
  abbrev pub Message : Type 0
  Message = Envelope (Unit {0}) Event × ℕ

  -- What is not acknowledged comes back with its count raised.
  unfoldable pub pending_after : Reply → Message → List Message → List Message
  pending_after ack m rest = rest
  pending_after nak (e, delivered) rest = (e, suc delivered) ∷ rest
  pending_after stop (e, delivered) rest = (e, suc delivered) ∷ rest

  -- Every pending message is delivered once: the row after them, and what comes back.
  unfoldable pub round : List Message → Row St → Row St × List Message
  round [] row = (row, [])
  round ((e, delivered) ∷ rest) row =
      let (row', reply) = deliver fold e delivered row in
      let (final, kept) = round rest row' in (final, pending_after reply (e, delivered) kept)

  unfoldable pub rounds : ℕ → List Message → Row St → Row St × List Message
  rounds zero messages row = (row, messages)
  rounds (suc k) messages row = let (row', kept) = round messages row in rounds k kept row'

  module _ (history : List (Event × ℕ)) (small : suc (length history) < half_i64) where
    -- Some event of the history, with `budget` deliveries to go before the hatch opens.
    abbrev pub Within : ℕ → Message → Type 0
    Within budget (e, delivered) =
        (index : ℕ) × Published fold history index e × (delivered + budget ≤ max_gap_wait)

    abbrev pub Carries : ℕ → Message → Type 0
    Carries index m = Published fold history index m.0

    -- Every event from the `n`-th on is pending.
    abbrev pub Complete : ℕ → List Message → Type 0
    Complete n messages =
        (index : ℕ) → n ≤ index → index < length history → Any (Carries index) messages

    same_index :
        (i j : ℕ) (e : Envelope (Unit {0}) Event)
        → Published fold history i e
        → Published fold history j e
        → i ≡ j
    same_index i j e p q = grind (arith, p.version, q.version)

    -- What a round from `n` events leaves.
    record RoundLeaves (budget n : ℕ) (messages : List Message) (row : Row St) (kept : List Message)
        : Type 0 where
      reached : ℕ
      grown : n ≤ reached
      bounded : reached ≤ length history
      row_is : row ≡ replay fold history reached
      within : All (Within budget) kept
      complete : (i : ℕ) → reached ≤ i → Any (Carries i) messages → Any (Carries i) kept
      progress : Any (Carries n) messages → suc n ≤ reached

    abbrev Leaves : ℕ → ℕ → List Message → Row St × List Message → Type 0
    Leaves budget n messages (row, kept) = RoundLeaves budget n messages row kept

    round-cons :
        (e : Envelope (Unit {0}) Event) (delivered : ℕ) (rest : List Message) (row row' : Row St)
        (reply : Reply)
        → deliver fold e delivered row ≡ (row', reply)
        → round ((e, delivered) ∷ rest) row
          ≡ ((round rest row').0, pending_after reply (e, delivered) (round rest row').1)
    unfolding round
    round-cons e delivered rest row row' reply h = rw h

    -- The first message was applied, and the rest leaves what it does from one event later.
    Leaves-next :
        (budget n : ℕ) (m : Message) (rest : List Message) (r : Row St × List Message)
        → Within (suc budget) m
        → Carries n m
        → Leaves budget (suc n) rest r
        → Leaves budget n (m ∷ rest) (r.0, pending_after ack m r.1)
    unfolding pending_after
    Leaves-next budget n (e, delivered) rest (row, kept) w c l = record {
      reached = l.reached;
      grown = omega (arith, l.grown);
      bounded = l.bounded;
      row_is = l.row_is;
      within = l.within;
      complete = λ i h. elim [
        | inl p ↦ absurd (omega (arith, same_index i n e p c, l.grown))
        | inr a ↦ l.complete i h a
      ];
      progress = λ a. l.grown;
    }

    -- The first message was applied before.
    Leaves-old :
        (budget n index : ℕ) (m : Message) (rest : List Message) (r : Row St × List Message)
        → Carries index m
        → index < n
        → Leaves budget n rest r
        → Leaves budget n (m ∷ rest) (r.0, pending_after ack m r.1)
    unfolding pending_after
    Leaves-old budget n index (e, delivered) rest (row, kept) c h l = record {
      reached = l.reached;
      grown = l.grown;
      bounded = l.bounded;
      row_is = l.row_is;
      within = l.within;
      complete = λ i g. elim [
        | inl p ↦ absurd (omega (arith, same_index i index e p c, l.grown))
        | inr a ↦ l.complete i g a
      ];
      progress = elim [
        | inl p ↦ absurd (omega (arith, same_index n index e p c))
        | inr a ↦ l.progress a
      ];
    }

    -- The first message is early and comes back.
    Leaves-early :
        (budget n index : ℕ) (m : Message) (rest : List Message) (r : Row St × List Message)
        → Within (suc budget) m
        → Carries index m
        → n < index
        → Leaves budget n rest r
        → Leaves budget n (m ∷ rest) (r.0, pending_after nak m r.1)
    unfolding pending_after
    Leaves-early budget n index (e, delivered) rest (row, kept) (j, p, d) c h l = record {
      reached = l.reached;
      grown = l.grown;
      bounded = l.bounded;
      row_is = l.row_is;
      within = ((j, p, omega arith), l.within);
      complete = λ i g. elim [ inl q ↦ inl q | inr a ↦ inr (l.complete i g a) ];
      progress = elim [
        | inl q ↦ absurd (omega (arith, same_index n index e q c))
        | inr a ↦ l.progress a
      ];
    }

    round-Leaves :
        (budget n : ℕ) (messages : List Message)
        → n ≤ length history
        → All (Within (suc budget)) messages
        → Leaves budget n messages (round messages (replay fold history n))
    round-Leaves budget n [] b w =
        unfold round in
        record {
          reached = n;
          grown = omega arith;
          bounded = b;
          row_is = refl;
          within = tt;
          complete = λ i h a. absurd a;
          progress = λ a. absurd a;
        }
    round-Leaves budget n ((e, delivered) ∷ rest) b ((index, p, d), w) = elim (ℕ_discrete index n) [
      | yes h ↦
          rw
            (round-cons e delivered rest _ _ _
              (deliver_next fold history e n index delivered b (omega arith) p h))
            (Leaves-next budget n (e, delivered) rest _ (index, p, d)
              (subst (λ i. Carries i (e, delivered)) h p)
              (round-Leaves budget (suc n) rest
                (omega (arith, index-lt fold history small index e p)) w))
      | no h ↦ elim (dec_lt index n) [
        | yes l ↦
            rw
              (round-cons e delivered rest _ _ _
                (deliver_old fold history e n index delivered b (omega arith) p l))
              (Leaves-old budget n index (e, delivered) rest _ p l (round-Leaves budget n rest b w))
        | no l ↦
            rw
              (round-cons e delivered rest _ _ _ (
                deliver_early fold history e n index delivered b (omega arith) p (omega arith)
                  (omega arith)))
              (Leaves-early budget n index (e, delivered) rest _ (index, p, d) p (omega arith)
                (round-Leaves budget n rest b w))
      ]
    ]

    -- From the first `n` events on, with every later one pending and `k` deliveries left for each,
    -- `k` rounds apply the whole history, where at most `k` events are missing.
    pub rounds_converge :
        (k n : ℕ) (messages : List Message)
        → n ≤ length history
        → length history ≤ n + k
        → All (Within k) messages
        → Complete n messages
        → (rounds k messages (replay fold history n)).0 ≡ replay fold history (length history)
    unfolding rounds
    rounds_converge zero n messages b e w c = ap (replay fold history) (omega arith)
    rounds_converge (suc k) n messages b e w c =
        let l = round-Leaves k n messages b w in
        elim (dec_lt n (length history)) [
          | yes h ↦
              rw (l.row_is, rounds)
                (rounds_converge k l.reached _ l.bounded
                  (omega (arith, l.progress (c n (omega arith) h))) l.within
                  (λ i x y. l.complete i x (c i (omega (arith, l.grown)) y)))
          | no h ↦
              rw (l.row_is, rounds)
                (rounds_converge k l.reached _ l.bounded (omega (arith, l.grown)) l.within
                  (λ i x y. l.complete i x (c i (omega (arith, l.grown)) y)))
        ]
