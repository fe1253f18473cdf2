-- ===== src/Levels.antt =====
-- ParseLogLevel (internal/cmdutil/log.go), with the reading and the printing of a level by log/slog
-- and strconv.Atoi. A level is an int of 64 bits, and stands here as its bits.
pub mod Offsets
pub mod RoundTrip
use Prim.Native.Nat.{◌%◌}
use podlock.Prelude.{
  ℕ, ◌+◌, ◌-◌, Bool, true, false, ◌&&◌, ◌||◌, Option, none, some, List, [], ◌∷◌, ◌++◌, Text, codes,
  ltb, ◌==◌, nat_eq, text_eq, if◌then◌else◌,
}
use podlock.Fallible.{Result, ok, err, ◌>>=◌}
use podlock.Decimal.{itoa, value}

abbrev pub two_to_63 : ℕ
two_to_63 = 9223372036854775808

abbrev pub two_to_64 : ℕ
two_to_64 = 18446744073709551616

abbrev pub Level : Type 0
Level = ℕ

-- slog.LevelDebug is -4.
abbrev pub level_debug : Level
level_debug = 18446744073709551612

abbrev pub level_info : Level
level_info = 0

abbrev pub level_warn : Level
level_warn = 4

abbrev pub level_error : Level
level_error = 8

abbrev pub is_digit : ℕ → Bool
is_digit c = ltb 47 c && ltb c 58

unfoldable pub all_digits : Text → Bool
all_digits [] = true
all_digits (c ∷ s) = is_digit c && all_digits s

abbrev pub digits : Text → Result ℕ
digits [] = err (codes "invalid syntax")
digits (c ∷ s) = if all_digits (c ∷ s) then ok (value (c ∷ s)) else err (codes "invalid syntax")

abbrev out_of_range : Result ℕ
out_of_range = err (codes "value out of range")

abbrev pub positive : ℕ → Result ℕ
positive n = if ltb n two_to_63 then ok n else out_of_range

-- The most negative number has one more in absolute value than the greatest one.
abbrev pub negative : ℕ → Result ℕ
negative n = if ltb two_to_63 n then out_of_range else ok ((two_to_64 - n) % two_to_64)

-- strconv.Atoi
unfoldable pub atoi : Text → Result ℕ
atoi [] = err (codes "invalid syntax")
atoi (c ∷ s) =
    if c == b'+'
    then digits s >>= positive
    else if c == b'-'
    then digits s >>= negative
    else digits (c ∷ s) >>= positive

-- The text before the first sign, and the rest: strings.IndexAny(s, "+-") and the two slices.
unfoldable pub split_at_sign : Text → Text × Text
split_at_sign [] = ([], [])
split_at_sign (c ∷ s) =
    let (name, rest) = split_at_sign s in
    if c == b'+' || c == b'-' then ([], c ∷ s) else (c ∷ name, rest)

abbrev upper : ℕ → ℕ
upper c = if ltb 96 c && ltb c 123 then c - 32 else c

-- strings.ToUpper, as far as it leads to ASCII letters: beside the ASCII letters, the letters i
-- without a dot and the long s have ASCII capitals.
unfoldable pub to_upper : Text → Text
to_upper [] = []
to_upper (c ∷ []) = upper c ∷ []
to_upper (c ∷ d ∷ s) = elim (c == 0xC4 && d == 0xB1) [
  | true ↦ b'I' ∷ to_upper s
  | false ↦ elim (c == 0xC5 && d == 0xBF) [
    | true ↦ b'S' ∷ to_upper s
    | false ↦ upper c ∷ to_upper (d ∷ s)
  ]
]

unfoldable pub base_level : Text → Option Level
base_level name =
    if name == codes "DEBUG"
    then some level_debug
    else if name == codes "INFO"
    then some level_info
    else if name == codes "WARN"
    then some level_warn
    else if name == codes "ERROR"
    then some level_error
    else none

abbrev pub offset_of : Text → Result ℕ
offset_of [] = ok 0
offset_of (c ∷ s) = atoi (c ∷ s)

-- `*l += Level(offset)` wraps around.
abbrev pub shifted : ℕ → Option Level → Result Level
shifted offset none = err (codes "unknown name")
shifted offset (some base) = ok ((base + offset) % two_to_64)

-- Level.UnmarshalText; the text of its error is shortened.
unfoldable pub unmarshal_level : Text → Result Level
unmarshal_level s =
    let (name, rest) = split_at_sign s in
    offset_of rest >>= λ offset. shifted offset (base_level (to_upper name))

abbrev pub level_error_of : Text → Result Level → Result Level
level_error_of s (ok l) = ok l
level_error_of s (err e) =
    err (codes "unable to parse log level: " ++ (s ++ (codes ", error: " ++ e)))

unfoldable pub parse_log_level : Text → Result Level
unfolding unmarshal_level
parse_log_level s = level_error_of s (unmarshal_level s)

-- What fmt makes of an int with the verb %+d.
unfoldable pub signed : ℕ → Text
signed n = if ltb n two_to_63 then b'+' ∷ itoa n else b'-' ∷ itoa (two_to_64 - n)

abbrev pub with_offset : Text → ℕ → Text
with_offset base n = if n == 0 then base else base ++ signed n

-- Level.String
unfoldable pub level_string : Level → Text
level_string l =
    if ltb l two_to_63
    then (if ltb l level_warn
        then with_offset (codes "INFO") l
        else if ltb l level_error
        then with_offset (codes "WARN") (l - level_warn)
        else with_offset (codes "ERROR") (l - level_error))
    else with_offset (codes "DEBUG") ((l + 4) % two_to_64)
