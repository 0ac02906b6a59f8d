-- ===== src/Pages/Display.antt =====
-- components/display/DateTime.tsx, components/from/dropdown/Dropdown.tsx, and an item of antd's
-- `Descriptions`.
use webca.Common.{String, Option, none, some, List, [], ◌∷◌, if◌then◌else◌}
use webca.Common.Text.{truthy}
use webca.Utils.ApiUtil.{shown}
use webca.Pages.Gesture.{Gesture}
use webca.Pages.Markup.{Node, Choice, nothing, date, tag, named, translated, options, on_text}

unfoldable pub date_time : Option String → Node
date_time value = if truthy value then date (shown value) else nothing

abbrev pub described : String → Node → Node
described key inside = tag "Descriptions.Item" (named "label" (translated key) ∷ []) (inside ∷ [])

-- The option that is chosen from the start: the only one.
unfoldable pub default_value : List Choice → Option String
default_value (only ∷ []) = some only.id
default_value _ = none

abbrev pub dropdown : String → List Choice → (String → List Gesture) → Node
dropdown placeholder choices on_select =
    tag "Select"
      (named "placeholder" (translated placeholder)
        ∷ options choices
        ∷ on_text "onSelect" on_select
        ∷ [])
      []

-- What a render of the dropdown does by itself: it selects the default value, if that is truthy.
unfoldable pub on_render : List Choice → (String → List Gesture) → List Gesture
unfolding default_value
on_render choices on_select =
    if truthy (default_value choices) then on_select (shown (default_value choices)) else []
