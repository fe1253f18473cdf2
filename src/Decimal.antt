-- ===== src/Decimal.antt =====
-- strconv.Itoa, for numbers that are not negative. The fuel is more than the number, and each round
-- divides it by ten.
use Prim.Native.Nat.{◌*◌, ◌/◌, ◌%◌}
use mathlib.Core.List.{foldl-append}
use podlock.Prelude.{
  ℕ, zero, suc, ◌+◌, ◌-◌, ◌<◌, ◌≡◌, [], ◌∷◌, ◌++◌, foldl, Text, ltb, arith, if◌then◌else◌,
}

unfoldable pub decimal : ℕ → ℕ → Text
decimal zero n = []
decimal (suc fuel) n =
    let rest = decimal fuel (n / 10) in
    if ltb n 10 then (48 + n) ∷ [] else rest ++ ((48 + n % 10) ∷ [])

unfoldable pub itoa : ℕ → Text
unfolding decimal
itoa n = decimal (suc n) n

abbrev pub digit : ℕ → ℕ → ℕ
digit v c = v * 10 + (c - 48)

-- The number that a text of digits writes.
abbrev pub value : Text → ℕ
value s = foldl digit 0 s

decimal-value : (fuel n : ℕ) → n < fuel → value (decimal fuel n) ≡ n
unfolding decimal
decimal-value zero n h = absurd (omega arith)
decimal-value (suc fuel) n h = ground (
  arith,
  foldl-append digit 0 (decimal fuel (n / 10)) ((48 + n % 10) ∷ []),
  decimal-value fuel (n / 10),
)

pub value-itoa : (n : ℕ) → value (itoa n) ≡ n
unfolding itoa
value-itoa n = decimal-value (suc n) n (omega arith)
