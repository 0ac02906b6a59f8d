-- ===== src/Pages/Router/Segments.antt =====
-- A router that meets the law: it splits the location as it splits the pattern.
use Prim.Native.Char.{code}
use Prim.Native.String.{String, [], ◌∷◌}
use text.Mathlib.TextLemmas.{cons-append, nil-append}
use webca.Common.{
  ℕ, ◌≡◌, refl, ap, ◌∙◌, Bool, true, false, ◌&&◌, not, Option, none, List, [], ◌∷◌, ◌<>◌, eqb, ◌==◌,
  All, arith,
}
use webca.Common.Text.{join}
use webca.Common.Text.Split.{split, split-join, free}
use webca.Pages.Router.{
  Router, Route, or_later, IsPlain, is_plain_code, all_plain, at_path, keep_filled, segments_of,
  match_segments, by_segments,
}

no_slash_code : (c : ℕ) → is_plain_code c ≡ true → eqb c b'/' ≡ false
no_slash_code c h = ground arith

both : (a b : Bool) → (a && b) ≡ true → (a ≡ true) × (b ≡ true)
both true b h = (refl, h)
both false b h = cc

all_plain-free : (s : String) → all_plain s ≡ true → free "/" s ≡ true
unfolding all_plain free
all_plain-free [] h = refl
all_plain-free (c ∷ s) h =
    let (hc, hs) = both (is_plain_code (code c)) (all_plain s) h in
    rw (no_slash_code (code c) hc, all_plain-free s hs) refl

IsPlain-free : (s : String) → IsPlain s → free "/" s ≡ true
IsPlain-free s h = all_plain-free s (both (not (s == "")) (all_plain s) h).1

filled : (b : Bool) → not b ≡ true → b ≡ false
filled b h = ground arith

All-free : (ss : List String) → All IsPlain ss → All (λ s. free "/" s ≡ true) ss
All-free [] h = tt
All-free (s ∷ ss) (h, hs) = (IsPlain-free s h, All-free ss hs)

keep_filled-plain : (ss : List String) → All IsPlain ss → keep_filled ss ≡ ss
keep_filled-plain [] h = refl
keep_filled-plain (s ∷ ss) (h, hs) =
    rw (filled (s == "") (both (not (s == "")) (all_plain s) h).0, keep_filled-plain ss hs) refl

split_slash : (s : String) → split "/" ("/" <> s) ≡ "" ∷ split "/" s
unfolding split
split_slash s = ap (split "/") (cons-append "/" "" s ∙ ap (λ t. "/" ∷ t) (nil-append s))

pub segments_of-at_path : (ss : List String) → All IsPlain ss → segments_of (at_path ss) ≡ ss
unfolding split join
segments_of-at_path [] h = refl
segments_of-at_path (s ∷ ss) (h, hs) =
    ap keep_filled (
      split_slash (join "/" (s ∷ ss))
      ∙ ap (λ t. "" ∷ t) (split-join "/" s ss (All-free (s ∷ ss) (h, hs))))
    ∙ keep_filled-plain (s ∷ ss) (h, hs)

unfoldable pub first_match : {A : Type 0} → List (Route A) → String → Option A
first_match [] location = none
first_match (route ∷ routes) location =
    let later = first_match routes location in
    or_later (by_segments route.exact route.path location) route.page later

pub first_match-none : {A : Type 0} (location : String) → first_match {A = A} [] location ≡ none
unfolding first_match
first_match-none location = refl

pub first_match-first :
    {A : Type 0} (route : Route A) (routes : List (Route A)) (location : String)
    → first_match (route ∷ routes) location
      ≡ or_later
          (by_segments route.exact route.path location)
          route.page
          (first_match routes location)
unfolding first_match
first_match-first route routes location = refl

abbrev pub plain_router : Router
plain_router = record {
  matches = by_segments;
  matches-at_path = λ exact pattern ss h.
      ap (match_segments exact (segments_of pattern)) (segments_of-at_path ss h);
  switch = first_match;
  switch-none = first_match-none;
  switch-first = first_match-first;
}
