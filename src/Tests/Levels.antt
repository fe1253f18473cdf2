-- ===== src/Tests/Levels.antt =====
-- The levels of the loggers.
use Prim.Native.Nat.{◌%◌}
use podlock.Prelude.{
  ◌≡◌, refl, ◌+◌, ◌-◌, ◌∷◌, ◌++◌, codes, ltb, text_eq, nat_eq, arith, if◌then◌else◌,
}
use podlock.Fallible.{ok, err}
use podlock.Decimal.{itoa}
use podlock.Levels.{
  two_to_63, level_error_of, two_to_64, level_info, parse_log_level, unmarshal_level, level_string,
  split_at_sign, base_level, to_upper, atoi, all_digits,
}
use podlock.Levels.Offsets.{parse_log_level-offset}
use podlock.Levels.RoundTrip.{parse_log_level-level_string}

-- The default level of the plugin is one.
info_is_level : parse_log_level (level_string level_info) ≡ ok level_info
unfolding parse_log_level unmarshal_level level_string split_at_sign base_level to_upper text_eq
    nat_eq
info_is_level = refl

warn_minus_two : parse_log_level (codes "warn-2") ≡ ok 2
unfolding parse_log_level unmarshal_level split_at_sign base_level to_upper atoi all_digits text_eq
    nat_eq
warn_minus_two = refl

parse_log_level-level_string_example :
    parse_log_level (level_string 18446744073709551610) ≡ ok 18446744073709551610
parse_log_level-level_string_example =
    parse_log_level-level_string 18446744073709551610 (omega arith)

parse_log_level-offset_example :
    let above = codes "Warn" ++ (b'+' ∷ itoa 9223372036854775807) in
    let below = codes "Warn" ++ (b'-' ∷ itoa 9223372036854775807) in
    (parse_log_level above
      ≡ level_error_of above (
          if ltb 9223372036854775807 two_to_63
          then ok ((4 + 9223372036854775807) % two_to_64)
          else err (codes "value out of range")))
    × (parse_log_level below
        ≡ level_error_of below (
            if ltb two_to_63 9223372036854775807
            then err (codes "value out of range")
            else ok ((4 + (two_to_64 - 9223372036854775807)) % two_to_64)))
parse_log_level-offset_example =
    parse_log_level-offset (codes "Warn") 4 9223372036854775807 (unfold nat_eq in refl)
      (unfold base_level to_upper text_eq nat_eq in refl)
