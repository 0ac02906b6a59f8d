-- ===== src/Utils/TimeUtil.antt =====
-- web-app/src/utils/timeutil.ts, at whole numbers of years: `Math.floor(y * 365.25)` is the floor
-- of `1461 * y / 4`. The product is exact in floating point while it stays below 2 ^ 53.
pub mod Bounds
use webca.Common.{ℕ, suc, ◌+◌, ◌*◌, ◌/◌, String, Option, none, some}
use webca.Common.Decimal.{ℤ, pos, negsuc, negated, parse_int}

-- `years: number | string`
pub data Years : Type 0 where
  number : ℤ → Years
  text : String → Years

-- Days in four years, 4 * 365.25.
abbrev pub days_in_four_years : ℕ
days_in_four_years = 1461

-- The floor of `y * 365.25`.
unfoldable pub floor_days : ℤ → ℤ
floor_days (pos y) = pos (y * days_in_four_years / 4)
floor_days (negsuc n) = negated ((suc n * days_in_four_years + 3) / 4)

abbrev pub one_if_nan : Option ℤ → ℤ
one_if_nan none = pos 1
one_if_nan (some y) = y

unfoldable pub years_to_days : Years → ℤ
unfolding floor_days
years_to_days (number y) = floor_days y
years_to_days (text s) = floor_days (one_if_nan (parse_int s))
