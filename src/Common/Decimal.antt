-- ===== src/Common/Decimal.antt =====
-- Decimal printing of a number, as `String(n)` and a template do it, and JavaScript's `parseInt`
-- without a radix: white space, a sign and a `0x` prefix are read, and the first character that is
-- no digit ends the number. `none` is `NaN`.
pub mod RoundTrip
use Prim.Native.Nat.{ℕ, zero, suc, ◌+◌, ◌-◌, ◌*◌, ◌/◌, ◌%◌}
use Prim.Native.Char.{Char, code}
use Prim.Native.String.{String, [], ◌∷◌}
use mathlib.Core.Bool.{Bool, true, false, ◌&&◌, ◌||◌}
use mathlib.Core.Option
use mathlib.Core.Option.{Option, none, some}
use webca.Common.Tests.{ltb, leb, eqb, if◌then◌else◌}

-- `negsuc n` is -(n + 1).
pub data ℤ : Type 0 where
  pos : ℕ → ℤ
  negsuc : ℕ → ℤ

-- The negative of a natural number; `-0` is 0.
abbrev pub negated : ℕ → ℤ
negated zero = pos 0
negated (suc n) = negsuc n

pub digit : ℕ → Char
digit zero = "0"
digit (suc zero) = "1"
digit (suc (suc zero)) = "2"
digit (suc (suc (suc zero))) = "3"
digit (suc (suc (suc (suc zero)))) = "4"
digit (suc (suc (suc (suc (suc zero))))) = "5"
digit (suc (suc (suc (suc (suc (suc zero)))))) = "6"
digit (suc (suc (suc (suc (suc (suc (suc zero))))))) = "7"
digit (suc (suc (suc (suc (suc (suc (suc (suc zero)))))))) = "8"
digit _ = "9"

-- The digits of `n` in front of `out`, on fuel: `n + 1` rounds are enough.
pub emit : ℕ → ℕ → String → String
emit zero n out = out
emit (suc f) n out =
    let more = emit f (n / 10) (digit (n % 10) ∷ out) in if ltb n 10 then digit n ∷ out else more

unfoldable pub decimal : ℕ → String
unfolding emit digit
decimal n = emit (suc n) n ""

-- White space and line ends of ECMAScript.
pub is_space : ℕ → Bool
is_space c =
    leb 9 c && leb c 13
    || eqb c 32
    || eqb c 160
    || eqb c 0x1680
    || leb 0x2000 c && leb c 0x200a
    || eqb c 0x2028
    || eqb c 0x2029
    || eqb c 0x202f
    || eqb c 0x205f
    || eqb c 0x3000
    || eqb c 0xfeff

pub digit_value : ℕ → Option ℕ
digit_value c =
    if leb 48 c && leb c 57
    then some (c - 48)
    else if leb 97 c && leb c 102
    then some (c - 87)
    else if leb 65 c && leb c 70
    then some (c - 55)
    else none

abbrev pub shifted : ℕ → Option ℕ → ℕ → ℕ
shifted radix none v = v
shifted radix (some n) v = n * radix + v

-- The digits at the front of a text behind the number read so far.
pub scan : ℕ → Option ℕ → String → Option ℕ
scan radix seen [] = seen
scan radix seen (c ∷ s) = elim (digit_value (code c)) [
  | none ↦ seen
  | some v ↦ elim (ltb v radix) [ true ↦ scan radix (some (shifted radix seen v)) s | false ↦ seen ]
]

pub magnitude : String → Option ℕ
magnitude (c ∷ d ∷ s) =
    if eqb (code c) b'0' && (eqb (code d) b'x' || eqb (code d) b'X')
    then scan 16 none s
    else scan 10 none (c ∷ d ∷ s)
magnitude s = scan 10 none s

pub signed : String → Option ℤ
signed [] = none
signed (c ∷ s) =
    if eqb (code c) b'-'
    then Option.map negated (magnitude s)
    else if eqb (code c) b'+'
    then Option.map pos (magnitude s)
    else Option.map pos (magnitude (c ∷ s))

pub trim_start : String → String
trim_start [] = []
trim_start (c ∷ s) = if is_space (code c) then trim_start s else c ∷ s

unfoldable pub parse_int : String → Option ℤ
unfolding signed magnitude scan digit_value trim_start is_space
parse_int s = signed (trim_start s)
