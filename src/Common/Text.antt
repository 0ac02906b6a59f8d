-- ===== src/Common/Text.antt =====
-- Text as the program treats it: truthiness of an optional string, and joining.
pub mod Split
use Prim.Native.String.{String, ◌++◌}
use mathlib.Core.Bool.{Bool, false, not}
use mathlib.Core.Option.{Option, none, some}
use mathlib.Core.List.{List, [], ◌∷◌}
use text.Mathlib.Text.{◌==◌}

-- An optional string is truthy if it is there and not empty.
abbrev pub truthy : Option String → Bool
truthy none = false
truthy (some s) = not (s == "")

-- `xs.join(sep)`
unfoldable pub join : String → List String → String
join sep [] = ""
join sep (x ∷ []) = x
join sep (x ∷ y ∷ ys) = x ++ (sep ++ join sep (y ∷ ys))
