-- ===== src/Pages/Fields.antt =====
-- What the forms of the app share: their items, inputs and buttons.
use webca.Common.{String, ◌<>◌, Bool, true, none, List, [], ◌∷◌}
use webca.Common.Dict.{Dict, lookup}
use webca.Utils.ApiUtil.{shown}
use webca.Pages.Gesture.{Gesture, logs}
use webca.Pages.Markup.{
  Node, Rule, plain, translated, named, flag, rules, on_values, on_text, on_click, message, tag,
}

-- A value that the form hands to `onFinish`. Its item is required, so it is there.
abbrev pub field : String → Dict → String
field name values = shown (lookup name values)

abbrev pub required : String → Rule
required key = record { required = true; type = none; min = none; message = key }

abbrev pub item : String → Rule → List Node → Node
item name rule = tag "Form.Item" (named "name" (plain name) ∷ rules (rule ∷ []) ∷ [])

abbrev pub input : String → String → Node
input name placeholder = tag name (named "placeholder" (translated placeholder) ∷ []) []

-- The button at the end of a form, in an item of its own.
abbrev pub submit_button : String → Node
submit_button key =
    tag "Form.Item" []
      (tag "Button" (named "htmlType" (plain "submit") ∷ []) (message key ∷ []) ∷ [])

-- `onFinish`, and `onFinishFailed`, which logs the fields that are not valid.
abbrev pub form : (Dict → List Gesture) → String → List Node → Node
form on_finish failed = tag "Form" (
    on_values on_finish
    ∷ on_text "onFinishFailed" (λ fields. logs (failed <> (fields <> " ")) ∷ [])
    ∷ [])

abbrev pub button : List Gesture → Bool → String → Node
button on_press disabled key =
    tag "Button" (on_click on_press ∷ flag "disabled" disabled ∷ []) (message key ∷ [])
