-- ===== src/Levels/RoundTrip.antt =====
-- ParseLogLevel reads back every level that is printed.
use Prim.Native.Nat.{◌%◌}
use podlock.Prelude.{
  ℕ, ◌+◌, ◌-◌, ◌<◌, ◌≡◌, refl, ap, ◌∙◌, false, ◌||◌, some, [], ◌∷◌, Text, codes, ltb, ◌==◌, nat_eq,
  text_eq, arith, Bool-cases, inl, inr,
}
use podlock.Fallible.{ok}
use podlock.Levels.{
  two_to_63, two_to_64, Level, level_debug, level_info, level_warn, level_error, split_at_sign,
  to_upper, base_level, unmarshal_level, parse_log_level, with_offset, level_string,
}
use podlock.Levels.Offsets.{has_sign, offset-RoundTrip}

split_at_sign-name : (name : Text) → has_sign name ≡ false → split_at_sign name ≡ (name, [])
unfolding split_at_sign
split_at_sign-name [] none_in = refl
split_at_sign-name (c ∷ name) none_in =
    let here : (c == b'+' || c == b'-') ≡ false = ground arith in
    let rest = split_at_sign-name name (ground arith) in rw (here, rest) refl

unmarshal_level-name :
    (name : Text) (base : Level)
    → has_sign name ≡ false
    → base_level (to_upper name) ≡ some base
    → unmarshal_level name ≡ ok ((base + 0) % two_to_64)
unfolding unmarshal_level
unmarshal_level-name name base none_in named = rw (split_at_sign-name name none_in, named) refl

with_offset-RoundTrip :
    (name : Text) (base : Level) (n : ℕ)
    → has_sign name ≡ false
    → base_level (to_upper name) ≡ some base
    → n < two_to_64
    → parse_log_level (with_offset name n) ≡ ok ((base + n) % two_to_64)
unfolding parse_log_level
with_offset-RoundTrip name base n none_in named small = elim (Bool-cases (n == 0)) [
  | inl zero_offset ↦
      let none_left : n ≡ 0 = ground arith in
      rw (zero_offset, unmarshal_level-name name base none_in named, none_left) refl
  | inr offset ↦ rw (offset, offset-RoundTrip name base n none_in named small) refl
]

-- Every level, as an integer of 64 bits, is printed as a text from which ParseLogLevel reads the
-- same level.
pub parse_log_level-level_string :
    (l : Level) → l < two_to_64 → parse_log_level (level_string l) ≡ ok l
unfolding level_string base_level to_upper text_eq nat_eq
parse_log_level-level_string l small = elim (Bool-cases (ltb l two_to_63)) [
  | inr below ↦
      let there : (level_debug + (l + 4) % two_to_64) % two_to_64 ≡ l = ground arith in
      rw below (
        with_offset-RoundTrip (codes "DEBUG") level_debug ((l + 4) % two_to_64) refl refl
          (omega arith)
        ∙ ap ok there)
  | inl above ↦ elim (Bool-cases (ltb l level_warn)) [
    | inl info ↦
        rw (above, info)
          (with_offset-RoundTrip (codes "INFO") level_info l refl refl small ∙ ap ok (ground arith))
    | inr more ↦ elim (Bool-cases (ltb l level_error)) [
      | inl warn ↦
          rw (above, more, warn)
            (with_offset-RoundTrip (codes "WARN") level_warn (l - level_warn) refl refl
                (omega (arith, small))
              ∙ ap ok (ground arith))
      | inr worse ↦
          rw (above, more, worse)
            (with_offset-RoundTrip (codes "ERROR") level_error (l - level_error) refl refl
                (omega (arith, small))
              ∙ ap ok (ground arith))
    ]
  ]
]
