-- ===== src/Common/Decimal/RoundTrip.antt =====
-- `parseInt` reads back what a template printed.
use Prim.Native.Nat.{ℕ, zero, suc, ◌+◌, ◌-◌, ◌/◌, ◌%◌, ◌≤◌, ◌<◌}
use Prim.Native.Char.{Char, code}
use Prim.Native.String.{String, [], ◌∷◌}
use mathlib.Core.Path.{◌≡◌, refl, ap, ◌∙◌}
use mathlib.Core.Logic.{inl, inr}
use mathlib.Core.Bool.{true, false}
use mathlib.Core.Option
use mathlib.Core.Option.{Option, none, some}
use native.Mathlib.Omega.{arith}
use text.Mathlib.TextEquality.{eq_iff}
use text.Mathlib.TextLemmas.{cons-ne-nil}
use webca.Common.Text.{truthy}
use webca.Common.Tests.{ltb, Bool-cases}
use webca.Common.Decimal.{
  pos, digit, emit, decimal, is_space, digit_value, shifted, scan, magnitude, signed, trim_start,
  parse_int,
}

code-digit : (n : ℕ) → n < 10 → code (digit n) ≡ 48 + n
unfolding digit
code-digit zero h = refl
code-digit (suc zero) h = refl
code-digit (suc (suc zero)) h = refl
code-digit (suc (suc (suc zero))) h = refl
code-digit (suc (suc (suc (suc zero)))) h = refl
code-digit (suc (suc (suc (suc (suc zero))))) h = refl
code-digit (suc (suc (suc (suc (suc (suc zero)))))) h = refl
code-digit (suc (suc (suc (suc (suc (suc (suc zero))))))) h = refl
code-digit (suc (suc (suc (suc (suc (suc (suc (suc zero)))))))) h = refl
code-digit (suc (suc (suc (suc (suc (suc (suc (suc (suc zero))))))))) h = refl
code-digit (suc (suc (suc (suc (suc (suc (suc (suc (suc (suc n)))))))))) h = absurd (omega arith)

-- A text of decimal digits that is not empty.
abbrev AllDigits : String → Type 0
AllDigits [] = Unit {0}
AllDigits (c ∷ s) = (48 ≤ code c) × (code c ≤ 57) × AllDigits s

abbrev IsNumeral : String → Type 0
IsNumeral [] = ⊥
IsNumeral (c ∷ s) = AllDigits (c ∷ s)

scan-digit :
    (seen : Option ℕ) (c : Char) (s : String)
    → 48 ≤ code c
    → code c ≤ 57
    → scan 10 seen (c ∷ s) ≡ scan 10 (some (shifted 10 seen (code c - 48))) s
unfolding scan digit_value
scan-digit seen c s lo hi = ground arith

emit-IsNumeral : (f n : ℕ) (out : String) → n < f → AllDigits out → IsNumeral (emit f n out)
unfolding emit
emit-IsNumeral zero n out h d = absurd (omega arith)
emit-IsNumeral (suc f) n out h d = elim (Bool-cases (ltb n 10)) [
  | inl small ↦ rw small (ground (arith, code-digit n))
  | inr large ↦ rw large (
      emit-IsNumeral f (n / 10) (digit (n % 10) ∷ out) (ground arith)
        (ground (arith, code-digit (n % 10))))
]

scan-emit : (f n : ℕ) (out : String) → n < f → scan 10 none (emit f n out) ≡ scan 10 (some n) out
unfolding emit
scan-emit zero n out h = absurd (omega arith)
scan-emit (suc f) n out h = elim (Bool-cases (ltb n 10)) [
  | inl small ↦ rw small (ground (arith, code-digit n, scan-digit none (digit n) out))
  | inr large ↦ rw large (
      scan-emit f (n / 10) (digit (n % 10) ∷ out) (ground arith)
      ∙ ground (arith, code-digit (n % 10), scan-digit (some (n / 10)) (digit (n % 10)) out))
]

digit_not_space : (c : ℕ) → 48 ≤ c → c ≤ 57 → is_space c ≡ false
unfolding is_space
digit_not_space c lo hi = ground arith

trim_start-digit : (c : Char) (s : String) → 48 ≤ code c → code c ≤ 57 → trim_start (c ∷ s) ≡ c ∷ s
unfolding trim_start
trim_start-digit c s lo hi = rw (digit_not_space (code c) lo hi) refl

signed-digit :
    (c : Char) (s : String)
    → 48 ≤ code c
    → code c ≤ 57
    → signed (c ∷ s) ≡ Option.map pos (magnitude (c ∷ s))
unfolding signed
signed-digit c s lo hi = ground arith

-- There is no `0x` in front of a numeral.
magnitude-IsNumeral : (s : String) → IsNumeral s → magnitude s ≡ scan 10 none s
unfolding magnitude
magnitude-IsNumeral [] h = absurd h
magnitude-IsNumeral (c ∷ []) h = refl
magnitude-IsNumeral (c ∷ d ∷ s) h = ground arith

parse_int-steps : (s : String) → parse_int s ≡ signed (trim_start s)
unfolding parse_int
parse_int-steps s = refl

parse_int-IsNumeral : (s : String) → IsNumeral s → parse_int s ≡ Option.map pos (scan 10 none s)
parse_int-IsNumeral [] h = absurd h
parse_int-IsNumeral (c ∷ s) h =
    parse_int-steps (c ∷ s)
    ∙ (ap signed (trim_start-digit c s h.0 h.1)
        ∙ (signed-digit c s h.0 h.1 ∙ ap (Option.map pos) (magnitude-IsNumeral (c ∷ s) h)))

-- `parseInt` of the text of a natural number is that number.
pub parse_int-decimal : (n : ℕ) → parse_int (decimal n) ≡ some (pos n)
unfolding decimal scan
parse_int-decimal n =
    parse_int-IsNumeral _ (emit-IsNumeral (suc n) n "" (omega arith) tt)
    ∙ ap (Option.map pos) (scan-emit (suc n) n "" (omega arith))

IsNumeral-truthy : (s : String) → IsNumeral s → truthy (some s) ≡ true
IsNumeral-truthy [] h = absurd h
IsNumeral-truthy (c ∷ s) h = ground (arith, eq_iff (c ∷ s) "", cons-ne-nil c s)

-- The text of a number is not empty.
pub truthy-decimal : (n : ℕ) → truthy (some (decimal n)) ≡ true
unfolding decimal
truthy-decimal n = IsNumeral-truthy _ (emit-IsNumeral (suc n) n "" (omega arith) tt)
