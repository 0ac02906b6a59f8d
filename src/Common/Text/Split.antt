-- ===== src/Common/Text/Split.antt =====
-- `s.split(sep)` for a separator of one character, and what joining makes of it.
use Prim.Native.Nat.{ℕ}
use Prim.Native.Char.{Char, code}
use Prim.Native.String.{String, [], ◌∷◌, ◌++◌}
use mathlib.Core.Path.{◌≡◌, refl, sym, ap, ◌∙◌}
use mathlib.Core.Logic.{inl, inr}
use mathlib.Core.Bool.{Bool, true, false, not, ◌&&◌, true≢false}
use mathlib.Core.List.{List, [], ◌∷◌}
use native.Mathlib.Omega.{arith}
use text.Mathlib.TextEquality.{Char-path}
use text.Mathlib.TextLemmas.{cons-append, nil-append}
use webca.Common.Tests.{eqb, if◌then◌else◌, Bool-cases, All}
use webca.Common.Text.{join}

-- A character in front of the first part.
abbrev pub onto : Char → List String → List String
onto c [] = (c ∷ "") ∷ []
onto c (part ∷ parts) = (c ∷ part) ∷ parts

unfoldable pub split : Char → String → List String
split sep [] = "" ∷ []
split sep (c ∷ s) =
    let parts = split sep s in if eqb (code c) (code sep) then "" ∷ parts else onto c parts

-- There is always a first part.
split_first :
    (sep : Char) (s : String)
    → (part : String) × (parts : List String) × (split sep s ≡ part ∷ parts)
unfolding split
split_first sep [] = ("", [], refl)
split_first sep (c ∷ s) = elim (Bool-cases (eqb (code c) (code sep))) [
  | inl same ↦ rw same ("", split sep s, refl)
  | inr other ↦ let (part, parts, e) = split_first sep s in rw (other, e) (c ∷ part, parts, refl)
]

pub eqb_refl : (n : ℕ) → eqb n n ≡ true
eqb_refl n = ground arith

same_code : (a b : ℕ) → eqb a b ≡ true → a ≡ b
same_code a b h = ground arith

join-cons :
    (sep : Char) (part : String) (parts : List String) (s : String)
    → join (sep ∷ "") (part ∷ parts) ≡ s
    → join (sep ∷ "") ("" ∷ part ∷ parts) ≡ sep ∷ s
unfolding join
join-cons sep part parts s h = simp (nil-append, cons-append) (ap (λ t. sep ∷ t) h)

join-onto :
    (sep c : Char) (part : String) (parts : List String) (s : String)
    → join (sep ∷ "") (part ∷ parts) ≡ s
    → join (sep ∷ "") ((c ∷ part) ∷ parts) ≡ c ∷ s
unfolding join
join-onto sep c part [] s h = ap (λ t. c ∷ t) h
join-onto sep c part (p ∷ ps) s h = rw (cons-append c part) (ap (λ t. c ∷ t) h)

empty_part : (sep : Char) → join (sep ∷ "") ("" ∷ []) ≡ ""
unfolding join
empty_part sep = refl

-- Joining the parts with the separator gives the text again.
pub join-split : (sep : Char) (s : String) → join (sep ∷ "") (split sep s) ≡ s
unfolding split
join-split sep [] = empty_part sep
join-split sep (c ∷ s) =
    let (part, parts, e) = split_first sep s in
    let whole = ap (join (sep ∷ "")) (sym e) ∙ join-split sep s in
    elim (Bool-cases (eqb (code c) (code sep))) [
      | inl same ↦
          rw (same, e)
            (join-cons sep part parts s whole
              ∙ ap (λ d. d ∷ s) (Char-path sep c (sym (same_code (code c) (code sep) same))))
      | inr other ↦ rw (other, e) (join-onto sep c part parts s whole)
    ]

-- A text in which the separator does not occur.
unfoldable pub free : Char → String → Bool
free sep [] = true
free sep (c ∷ s) = not (eqb (code c) (code sep)) && free sep s

not_onto :
    (sep c : Char) (parts : List String)
    → eqb (code c) (code sep) ≡ false
    → All (λ s. free sep s ≡ true) parts
    → All (λ s. free sep s ≡ true) (onto c parts)
unfolding free
not_onto sep c [] other h = (rw other refl, tt)
not_onto sep c (part ∷ parts) other (h, hs) = (rw other h, hs)

-- The separator occurs in none of the parts.
pub All-split : (sep : Char) (s : String) → All (λ t. free sep t ≡ true) (split sep s)
unfolding split free
All-split sep [] = (refl, tt)
All-split sep (c ∷ s) = elim (Bool-cases (eqb (code c) (code sep))) [
  | inl same ↦ rw same (refl, All-split sep s)
  | inr other ↦ rw other (not_onto sep c (split sep s) other (All-split sep s))
]

pub not_and : (a b : Bool) → (not a && b) ≡ true → (a ≡ false) × (b ≡ true)
not_and false b h = (refl, h)
not_and true b h = absurd (true≢false (sym h))

split-free : (sep : Char) (s : String) → free sep s ≡ true → split sep s ≡ s ∷ []
unfolding split free
split-free sep [] h = refl
split-free sep (c ∷ s) h =
    let (other, rest) = not_and (eqb (code c) (code sep)) (free sep s) h in
    rw (other, split-free sep s rest) refl

split-append :
    (sep : Char) (part s : String)
    → free sep part ≡ true
    → split sep (part ++ (sep ∷ s)) ≡ part ∷ split sep s
unfolding split free
split-append sep [] s h = rw (nil-append (sep ∷ s), eqb_refl (code sep)) refl
split-append sep (c ∷ part) s h =
    let (other, rest) = not_and (eqb (code c) (code sep)) (free sep part) h in
    rw (cons-append c part, other, split-append sep part s rest) refl

-- Splitting what was joined gives the parts, if the separator occurs in none of them.
pub split-join :
    (sep : Char) (part : String) (parts : List String)
    → All (λ s. free sep s ≡ true) (part ∷ parts)
    → split sep (join (sep ∷ "") (part ∷ parts)) ≡ part ∷ parts
unfolding join
split-join sep part [] (h, _) = split-free sep part h
split-join sep part (p ∷ ps) (h, hs) =
    rw (cons-append sep "", nil-append)
      (split-append sep part (join (sep ∷ "") (p ∷ ps)) h
        ∙ ap (λ t. part ∷ t) (split-join sep p ps hs))
