-- ===== src/Levels/Offsets.antt =====
-- A level with an offset, and the bounds of the offset.
use Prim.Native.Nat.{◌%◌, ◌/◌}
use podlock.Prelude.{
  ℕ, zero, suc, ◌+◌, ◌-◌, ◌<◌, ◌≡◌, ◌≢◌, refl, ap, ◌∙◌, Bool, true, false, ◌&&◌, ◌||◌, some, [],
  ◌∷◌, ◌++◌, Text, codes, ltb, ◌==◌, nat_eq, text_eq, arith, if◌then◌else◌, Bool-cases, inl, inr,
}
use podlock.Fallible.{Result, ok, err, ◌>>=◌}
use podlock.Decimal.{decimal, itoa, value, value-itoa}
use podlock.Levels.{
  level_error_of, parse_log_level, two_to_63, two_to_64, Level, all_digits, digits, positive,
  negative, atoi, split_at_sign, to_upper, base_level, shifted, unmarshal_level, signed,
}

all_digits-append : (s t : Text) → all_digits (s ++ t) ≡ (all_digits s && all_digits t)
unfolding all_digits
all_digits-append [] t = refl
all_digits-append (c ∷ s) t = ground (arith, all_digits-append s t)

all_digits-decimal : (fuel n : ℕ) → all_digits (decimal fuel n) ≡ true
unfolding decimal all_digits
all_digits-decimal zero n = refl
all_digits-decimal (suc fuel) n = ground (
  arith,
  all_digits-append (decimal fuel (n / 10)) ((48 + n % 10) ∷ []),
  all_digits-decimal fuel (n / 10),
)

append_ne : (s : Text) (c : ℕ) → s ++ (c ∷ []) ≢ []
append_ne [] c h = absurd (cc)
append_ne (d ∷ s) c h = absurd (cc)

decimal_ne : (fuel n : ℕ) → decimal (suc fuel) n ≢ []
unfolding decimal
decimal_ne fuel n h = ground (arith, append_ne (decimal fuel (n / 10)) (48 + n % 10))

digits-ok : (s : Text) → s ≢ [] → all_digits s ≡ true → digits s ≡ ok (value s)
digits-ok [] full all = absurd (full refl)
digits-ok (c ∷ s) full all = rw all refl

digits-itoa : (n : ℕ) → digits (itoa n) ≡ ok n
unfolding itoa
digits-itoa n =
    digits-ok (itoa n) (decimal_ne n n) (all_digits-decimal (suc n) n) ∙ ap ok (value-itoa n)

atoi-positive : (n : ℕ) → atoi (b'+' ∷ itoa n) ≡ positive n
unfolding atoi nat_eq
atoi-positive n = ap (λ (r : Result ℕ). r >>= positive) (digits-itoa n)

atoi-negative : (n : ℕ) → atoi (b'-' ∷ itoa n) ≡ negative n
unfolding atoi nat_eq
atoi-negative n = ap (λ (r : Result ℕ). r >>= negative) (digits-itoa n)

abbrev pub has_sign : Text → Bool
has_sign [] = false
has_sign (c ∷ s) = (c == b'+' || c == b'-') || has_sign s

split_at_sign-append :
    (name : Text) (c : ℕ) (s : Text)
    → has_sign name ≡ false
    → (c == b'+' || c == b'-') ≡ true
    → split_at_sign (name ++ (c ∷ s)) ≡ (name, c ∷ s)
unfolding split_at_sign
split_at_sign-append [] c s none_in sign = rw sign refl
split_at_sign-append (d ∷ name) c s none_in sign =
    let here : (d == b'+' || d == b'-') ≡ false = ground arith in
    let rest = split_at_sign-append name c s (ground arith) sign in rw (here, rest) refl

unmarshal_level-append :
    (name : Text) (c : ℕ) (s : Text)
    → has_sign name ≡ false
    → (c == b'+' || c == b'-') ≡ true
    → unmarshal_level (name ++ (c ∷ s))
      ≡ (atoi (c ∷ s) >>= λ offset. shifted offset (base_level (to_upper name)))
unfolding unmarshal_level
unmarshal_level-append name c s none_in sign = rw (split_at_sign-append name c s none_in sign) refl

shift_positive :
    (base n : ℕ)
    → (positive n >>= λ offset. shifted offset (some base))
      ≡ (if ltb n two_to_63 then ok ((base + n) % two_to_64) else err (codes "value out of range"))
shift_positive base n = ground arith

shift_negative :
    (base n : ℕ)
    → (negative n >>= λ offset. shifted offset (some base)) ≡ (
        if ltb two_to_63 n
        then err (codes "value out of range")
        else ok ((base + (two_to_64 - n)) % two_to_64))
shift_negative base n = ground arith

-- What the reading of a name with an offset gives.
unmarshal_level-offset :
    (name : Text) (base : Level) (n : ℕ)
    → has_sign name ≡ false
    → base_level (to_upper name) ≡ some base
    → (unmarshal_level (name ++ (b'+' ∷ itoa n)) ≡ (
        if ltb n two_to_63 then ok ((base + n) % two_to_64) else err (codes "value out of range")))
      × (unmarshal_level (name ++ (b'-' ∷ itoa n)) ≡ (
          if ltb two_to_63 n
          then err (codes "value out of range")
          else ok ((base + (two_to_64 - n)) % two_to_64)))
unfolding nat_eq
unmarshal_level-offset name base n none_in named = (
  unmarshal_level-append name b'+' (itoa n) none_in refl
      ∙ rw (atoi-positive n, named) (shift_positive base n),
  unmarshal_level-append name b'-' (itoa n) none_in refl
      ∙ rw (atoi-negative n, named) (shift_negative base n),
)

-- A named level is printed and read back with any offset.
pub offset-RoundTrip :
    (name : Text) (base : Level) (n : ℕ)
    → has_sign name ≡ false
    → base_level (to_upper name) ≡ some base
    → n < two_to_64
    → unmarshal_level (name ++ signed n) ≡ ok ((base + n) % two_to_64)
unfolding signed
offset-RoundTrip name base n none_in named small = elim (Bool-cases (ltb n two_to_63)) [
  | inl low ↦ rw low ((unmarshal_level-offset name base n none_in named).0 ∙ rw low refl)
  | inr high ↦
      let size : ltb two_to_63 (two_to_64 - n) ≡ false = ground arith in
      let back : two_to_64 - (two_to_64 - n) ≡ n = omega arith in
      rw high
        ((unmarshal_level-offset name base (two_to_64 - n) none_in named).1 ∙ rw (size, back) refl)
]

-- The name of a level, in whichever case, with a number after a plus or minus sign is the level
-- that is so far above or below, where the sum wraps around at 64 bits; a number that does not fit
-- into a signed integer of 64 bits is an error.
pub parse_log_level-offset :
    (name : Text) (base : Level) (n : ℕ)
    → has_sign name ≡ false
    → base_level (to_upper name) ≡ some base
    → let above = name ++ (b'+' ∷ itoa n) in
      let below = name ++ (b'-' ∷ itoa n) in
      (parse_log_level above
        ≡ level_error_of above (
            if ltb n two_to_63
            then ok ((base + n) % two_to_64)
            else err (codes "value out of range")))
      × (parse_log_level below
          ≡ level_error_of below (
              if ltb two_to_63 n
              then err (codes "value out of range")
              else ok ((base + (two_to_64 - n)) % two_to_64)))
unfolding parse_log_level
parse_log_level-offset name base n none_in named =
    let (above, below) = unmarshal_level-offset name base n none_in named in
    (
      ap (level_error_of (name ++ (b'+' ∷ itoa n))) above,
      ap (level_error_of (name ++ (b'-' ∷ itoa n))) below,
    )
