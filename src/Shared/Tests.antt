-- ===== src/Shared/Tests.antt =====
-- shared/src/events/mod.rs: the texts of versions, on one of each.
use our_driveway.Prelude.{ℕ, ◌≡◌, refl, Option, none, some, [], ◌∷◌, arith}
use our_driveway.Prelude.Int.{pos}
use our_driveway.Prelude.Text.{Text, codes}
use our_driveway.Shared.Tokens.{aggregate_id, split_aggregate, format_version, parse_version}
use our_driveway.Shared.Tokens.RoundTrip.{
  parse_version-format_version, split_aggregate-aggregate_id,
}

parse_version-format_version_example :
    parse_version (format_version (codes "a@b:c") (pos 12)) ≡ some (codes "a@b:c", pos 12)
parse_version-format_version_example =
    parse_version-format_version (codes "a@b:c") (pos 12) (omega arith)

-- A uuid as one character.
abbrev one_character : ℕ → Text
one_character id = id ∷ []

abbrev read_character : Text → Option ℕ
read_character [] = none
read_character (c ∷ s) = some c

split_aggregate-aggregate_id_example :
    split_aggregate read_character (aggregate_id one_character (codes "spot") 77)
    ≡ some (codes "spot", 77)
split_aggregate-aggregate_id_example =
    split_aggregate-aggregate_id one_character read_character (λ id. refl) (codes "spot") 77
      (refl, (refl, (refl, (refl, tt))))
