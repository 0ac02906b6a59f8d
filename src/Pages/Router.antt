-- ===== src/Pages/Router.antt =====
-- What the routes take from react-router: `Switch`, and `matches exact pattern location`, which gives the
-- parameters of the path, if a `Route` with this `path` matches. Its law is the documented matching, segment by
-- segment, at locations whose segments have only lower-case letters, digits and hyphens, so that
-- case, slashes at the end and escapes play no part.
pub mod Segments
use Prim.Native.Char.{Char, code}
use Prim.Native.String.{String, [], ◌∷◌}
use mathlib.Core.Option
use webca.Common.{
  ℕ, ◌≡◌, refl, Bool, true, false, ◌&&◌, ◌||◌, not, Option, none, some, List, [], ◌∷◌, ◌<>◌,
  if◌then◌else◌, leb, eqb, ◌==◌, All,
}
use webca.Common.Dict.{Dict}
use webca.Common.Text.{join}
use webca.Common.Text.Split.{split}

abbrev pub is_plain_code : ℕ → Bool
is_plain_code c = leb b'a' c && leb c b'z' || leb b'0' c && leb c b'9' || eqb c b'-'

unfoldable pub all_plain : String → Bool
all_plain [] = true
all_plain (c ∷ s) = is_plain_code (code c) && all_plain s

-- A segment of a location: not empty, and of these characters.
abbrev pub IsPlain : String → Type 0
IsPlain s = (not (s == "") && all_plain s) ≡ true

abbrev pub at_path : List String → String
at_path segments = "/" <> join "/" segments

abbrev pub keep_filled : List String → List String
keep_filled [] = []
keep_filled (s ∷ ss) = if s == "" then keep_filled ss else s ∷ keep_filled ss

-- The segments of a pattern.
abbrev pub segments_of : String → List String
segments_of pattern = keep_filled (split "/" pattern)

-- `:name` in a pattern.
pub parameter : String → Option String
parameter [] = none
parameter (c ∷ name) = if eqb (code c) b':' then some name else none

unfoldable pub match_segments : Bool → List String → List String → Option Dict
unfolding parameter
match_segments exact [] [] = some []
match_segments exact [] (_ ∷ _) = if exact then none else some []
match_segments exact (_ ∷ _) [] = none
match_segments exact (p ∷ ps) (s ∷ ss) =
    let rest = match_segments exact ps ss in
    elim (parameter p) [
      | some name ↦ Option.map (λ found. (name, s) ∷ found) rest
      | none ↦ if p == s then rest else none
    ]

-- A `Route` of a `Switch`; what it shows may depend on the parameters of the path.
pub record Route (A : Type 0) : Type 0 where
  pub exact : Bool
  pub path : String
  pub page : Dict → A

-- What a route shows if it matches, and else what the routes after it show.
abbrev pub or_later : {A : Type 0} → Option Dict → (Dict → A) → Option A → Option A
or_later none page later = later
or_later (some params) page later = some (page params)

pub record Router : Type 1 where
  pub matches : Bool → String → String → Option Dict
  pub matches-at_path :
      (exact : Bool) (pattern : String) (segments : List String)
      → All IsPlain segments
      → matches exact pattern (at_path segments)
        ≡ match_segments exact (segments_of pattern) segments
  -- `Switch` shows the first route that matches.
  pub switch : {A : Type 0} → List (Route A) → String → Option A
  pub switch-none : {A : Type 0} (location : String) → switch {A = A} [] location ≡ none
  pub switch-first :
      {A : Type 0} (route : Route A) (routes : List (Route A)) (location : String)
      → switch (route ∷ routes) location
        ≡ or_later (matches route.exact route.path location) route.page (switch routes location)

-- A router that meets the law.
abbrev pub by_segments : Bool → String → String → Option Dict
by_segments exact pattern location =
    match_segments exact (segments_of pattern) (segments_of location)
