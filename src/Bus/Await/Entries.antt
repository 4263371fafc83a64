-- ===== src/Bus/Await/Entries.antt =====
-- bus/src/await_version.rs and shared/src/events/mod.rs: an entry of the header as a service writes it,
-- between others.
use mathlib.Core.Option
use our_driveway.Prelude.{
  ℕ, suc, ◌==◌, ◌<◌, ◌≡◌, refl, false, true, Bool-cases, inl, inr, Option, some, [], ◌∷◌, ◌++◌, All,
  arith, filter_map,
}
use our_driveway.Prelude.Int.{pos, half_i64}
use our_driveway.Prelude.Text.{Text}
use our_driveway.Shared.Tokens.{decimal, display, format_version, aggregate_id}
use our_driveway.Shared.Tokens.RoundTrip.{
  Digit, decimal_from-digits, parse_version-format_version, split_aggregate-aggregate_id,
}
use our_driveway.Bus.Await.{
  is_whitespace, trim_start, trim_end, split_parts, split, entry, parse, parse-append,
}

-- Neither white space nor the comma between entries.
abbrev pub Plain : ℕ → Type 0
Plain c = (is_whitespace c ≡ false) × ((c == b',') ≡ false)

-- White space; a comma is none.
abbrev pub Blank : ℕ → Type 0
Blank c = is_whitespace c ≡ true

All-append : (P : ℕ → Type 0) (s t : Text) → All P s → All P t → All P (s ++ t)
All-append P [] t h k = k
All-append P (c ∷ s) t (h, hs) k = (h, All-append P s t hs k)

trim_start-Blank : (pre s : Text) → All Blank pre → trim_start (pre ++ s) ≡ trim_start s
unfolding trim_start
trim_start-Blank [] s h = refl
trim_start-Blank (c ∷ pre) s (h, hs) = rw h (trim_start-Blank pre s hs)

trim_start-all : (s : Text) → All Blank s → trim_start s ≡ []
unfolding trim_start
trim_start-all [] h = refl
trim_start-all (c ∷ s) (h, hs) = rw h (trim_start-all s hs)

trim_end-Blank : (post : Text) → All Blank post → trim_end post ≡ []
unfolding trim_end
trim_end-Blank [] h = refl
trim_end-Blank (c ∷ post) (h, hs) = rw (trim_end-Blank post hs, h) refl

trim_end-Plain : (s post : Text) → All Plain s → All Blank post → trim_end (s ++ post) ≡ s
unfolding trim_end
trim_end-Plain [] post h k = trim_end-Blank post k
trim_end-Plain (c ∷ []) post h k = rw (trim_end-Blank post k, h.0.0) refl
trim_end-Plain (c ∷ d ∷ s) post h k = rw (trim_end-Plain (d ∷ s) post h.1 k) refl

-- A part without a comma is one part.
split_parts-whole : (s : Text) → All (λ c. (c == b',') ≡ false) s → split_parts b',' s ≡ (s, [])
unfolding split_parts
split_parts-whole [] h = refl
split_parts-whole (c ∷ s) (h, hs) = rw (split_parts-whole s hs, h) refl

Blank-no_comma : (c : ℕ) → Blank c → (c == b',') ≡ false
unfolding is_whitespace
Blank-no_comma c h = elim (Bool-cases (c == b',')) [ inl e ↦ ground arith | inr e ↦ e ]

Plain-no_comma : (s : Text) → All Plain s → All (λ c. (c == b',') ≡ false) s
Plain-no_comma [] h = tt
Plain-no_comma (c ∷ s) (h, hs) = (h.1, Plain-no_comma s hs)

Blanks-no_comma : (s : Text) → All Blank s → All (λ c. (c == b',') ≡ false) s
Blanks-no_comma [] h = tt
Blanks-no_comma (c ∷ s) (h, hs) = (Blank-no_comma c h, Blanks-no_comma s hs)

Digit-Plain : (c : ℕ) → Digit c → Plain c
unfolding is_whitespace
Digit-Plain c h = (ground (arith, h.0, h.1), ground (arith, h.0, h.1))

Digits-Plain : (s : Text) → All Digit s → All Plain s
Digits-Plain [] h = tt
Digits-Plain (c ∷ s) (h, hs) = (Digit-Plain c h, Digits-Plain s hs)

-- `trim` leaves a text without white space, whatever white space surrounds it.
trim-Plain :
    (pre w post : Text)
    → All Blank pre
    → All Plain w
    → All Blank post
    → trim_end (trim_start (pre ++ (w ++ post))) ≡ w
unfolding trim_start trim_end
trim-Plain pre [] post h k l =
    rw (trim_start-Blank pre post h, trim_start-all post l, trim_end) refl
trim-Plain pre (c ∷ w) post h k l =
    rw (trim_start-Blank pre (c ∷ (w ++ post)) h, k.0.0) (trim_end-Plain (c ∷ w) post k l)

filter_map-single :
    {A B : Type 0} (f : A → Option B) (x : A) (y : B)
    → f x ≡ some y
    → filter_map f (x ∷ []) ≡ y ∷ []
filter_map-single f x y h = rw (h, filter_map) refl

-- The name and the version of an aggregate, as a service writes them.
written-Plain :
    (print_uuid : ℕ → Text) (table : Text) (id n : ℕ)
    → All Plain table
    → All Plain (print_uuid id)
    → All Plain (format_version (aggregate_id print_uuid table id) (pos n))
unfolding format_version aggregate_id display decimal is_whitespace
written-Plain print_uuid table id n h k =
    All-append Plain (table ++ b':' ∷ print_uuid id) (b'@' ∷ decimal n)
      (All-append Plain table (b':' ∷ print_uuid id) h ((refl, refl), k))
      ((refl, refl), Digits-Plain (decimal n) (decimal_from-digits (suc n) n))

module _ (print_uuid : ℕ → Text) (parse_uuid : Text → Option ℕ)
    (back : (id : ℕ) → parse_uuid (print_uuid id) ≡ some id) (pre post table : Text) (id n : ℕ)
    (ahead : All Blank pre) (behind : All Blank post) (plain : All Plain table)
    (printed : All Plain (print_uuid id)) (name : All (λ c. (c == b':') ≡ false) table)
    (machine : n < half_i64) where
  abbrev written : Text
  written = format_version (aggregate_id print_uuid table id) (pos n)

  is_Plain : All Plain written
  is_Plain = written-Plain print_uuid table id n plain printed

  entry-written : entry parse_uuid (pre ++ (written ++ post)) ≡ some (table, id, pos n)
  unfolding entry Option.bind
  entry-written =
      rw
        (
          trim-Plain pre written post ahead is_Plain behind,
          parse_version-format_version (aggregate_id print_uuid table id) (pos n) machine,
          split_aggregate-aggregate_id print_uuid parse_uuid back table id name,
        )
        refl

  no_comma : All (λ c. (c == b',') ≡ false) (pre ++ (written ++ post))
  no_comma =
      All-append _ pre (written ++ post) (Blanks-no_comma pre ahead)
        (All-append _ written post (Plain-no_comma written is_Plain) (Blanks-no_comma post behind))

  parse_alone : parse parse_uuid (pre ++ (written ++ post)) ≡ (table, id, pos n) ∷ []
  unfolding parse split
  parse_alone = rw (split_parts-whole (pre ++ (written ++ post)) no_comma) (
      filter_map-single (entry parse_uuid) (pre ++ (written ++ post)) (table, id, pos n)
        entry-written)

  -- An entry that a service writes, the name and the version of an aggregate, is read back from
  -- the header whatever stands on its two sides, well formed or junk, and with any white space
  -- around it, and what stands on the two sides is read as if it stood alone. The version is an
  -- `i64` and not negative, the name of the table has no `:`, neither it nor a printed uuid has
  -- white space or a comma, and the uuid library reads back what it prints.
  pub parse-written :
      (earlier later : Text)
      → parse parse_uuid (earlier ++ (b',' ∷ ((pre ++ (written ++ post)) ++ (b',' ∷ later))))
        ≡ parse parse_uuid earlier ++ (table, id, pos n) ∷ parse parse_uuid later
  parse-written earlier later =
      rw
        (
          parse-append parse_uuid earlier ((pre ++ (written ++ post)) ++ b',' ∷ later),
          parse-append parse_uuid (pre ++ (written ++ post)) later,
          parse_alone,
        )
        refl
