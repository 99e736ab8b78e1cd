-- ===== src/Auth/Duration.antt =====
-- `parseDurationMs` of src/auth/token.service.ts, over the UTF-16 code units of the text. A number
-- of any length is exact here; a double is exact below 2 ^ 53.
use samy.Prelude.{
  ℕ, ◌+◌, ◌-◌, ◌*◌, ◌<◌, ◌≡◌, ◌==◌, refl, Bool, true, false, ◌&&◌, Option, none, some, List, [],
  ◌∷◌, ◌++◌, arith, All, leb, if◌then◌else◌, map,
}
use samy.Auth.{DurationUnit, factor}

-- `\d`.
abbrev pub is_digit : ℕ → Bool
is_digit c = leb 48 c && leb c 57

-- `[smhd]`.
abbrev pub unit_of : ℕ → Option DurationUnit
unit_of c =
    if c == 115
    then some DurationUnit.seconds
    else if c == 109
    then some DurationUnit.minutes
    else if c == 104
    then some DurationUnit.hours
    else if c == 100
    then some DurationUnit.days
    else none

-- The last code unit of the text, behind the digits.
abbrev pub times_unit : ℕ → Option DurationUnit → Option ℕ
times_unit n none = none
times_unit n (some u) = some (n * factor u)

abbrev pub at_end : ℕ → ℕ → List ℕ → Option ℕ
at_end n c [] = times_unit n (unit_of c)
at_end n c (_ ∷ _) = none

-- Behind the first digit.
abbrev pub more_digits : ℕ → List ℕ → Option ℕ
more_digits n [] = none
more_digits n (c ∷ cs) =
    let rest = more_digits (n * 10 + (c - 48)) cs in if is_digit c then rest else at_end n c cs

-- `none` where the code throws.
unfoldable pub parse_duration_ms : List ℕ → Option ℕ
parse_duration_ms [] = none
parse_duration_ms (c ∷ cs) = if is_digit c then more_digits (c - 48) cs else none

abbrev pub unit_code : DurationUnit → ℕ
unit_code DurationUnit.seconds = 115
unit_code DurationUnit.minutes = 109
unit_code DurationUnit.hours = 104
unit_code DurationUnit.days = 100

-- The value of digits behind a number.
abbrev pub value_from : ℕ → List ℕ → ℕ
value_from n [] = n
value_from n (d ∷ ds) = value_from (n * 10 + d) ds

abbrev pub digit_code : ℕ → ℕ
digit_code d = 48 + d

abbrev pub IsDigit : ℕ → Type 0
IsDigit d = d < 10

unit_of-code :
    (u : DurationUnit) (n : ℕ) → times_unit n (unit_of (unit_code u)) ≡ some (n * factor u)
unit_of-code DurationUnit.seconds n = refl
unit_of-code DurationUnit.minutes n = refl
unit_of-code DurationUnit.hours n = refl
unit_of-code DurationUnit.days n = refl

unit-no_digit : (u : DurationUnit) → is_digit (unit_code u) ≡ false
unit-no_digit DurationUnit.seconds = refl
unit-no_digit DurationUnit.minutes = refl
unit-no_digit DurationUnit.hours = refl
unit-no_digit DurationUnit.days = refl

digit-is_digit : (d : ℕ) → d < 10 → (is_digit (digit_code d) ≡ true) × (digit_code d - 48 ≡ d)
digit-is_digit d h = (ground arith, omega arith)

more_digits-print :
    (n : ℕ) (ds : List ℕ) (u : DurationUnit)
    → All IsDigit ds
    → more_digits n (map digit_code ds ++ unit_code u ∷ []) ≡ some (value_from n ds * factor u)
more_digits-print n [] u h = rw (unit-no_digit u) (unit_of-code u n)
more_digits-print n (d ∷ ds) u h =
    let (is, value) = digit-is_digit d h.0 in
    rw (is, value) (more_digits-print (n * 10 + d) ds u h.1)

-- A number written with at least one decimal digit, followed by a unit, is read as the number of
-- milliseconds of that many units.
pub parse_duration_ms-print :
    (d : ℕ) (ds : List ℕ) (u : DurationUnit)
    → IsDigit d
    → All IsDigit ds
    → parse_duration_ms (map digit_code (d ∷ ds) ++ unit_code u ∷ [])
      ≡ some (value_from d ds * factor u)
unfolding parse_duration_ms
parse_duration_ms-print d ds u h hs =
    let (is, value) = digit-is_digit d h in rw (is, value) (more_digits-print d ds u hs)
