-- ===== src/Pages/Draft/Renders.antt =====
-- What a dropdown of the form of a new certificate selects by itself while it is rendered.
use webca.Common.{◌≡◌, refl, ◌⊎◌, inl, inr, String, List, [], Bool-cases}
use webca.Common.Text.{truthy}
use webca.Utils.ApiUtil.{shown}
use webca.Pages.Gesture.{Gesture}
use webca.Pages.Markup.{Choice}
use webca.Pages.Display.{default_value, on_render}

-- A dropdown selects nothing, or one option.
pub on_render_cases :
    (choices : List Choice) (select : String → List Gesture)
    → (on_render choices select ≡ []) ⊎ ((id : String) × (on_render choices select ≡ select id))
unfolding on_render
on_render_cases choices select = elim (Bool-cases (truthy (default_value choices))) [
  | inl e ↦ rw e (inr (shown (default_value choices), refl))
  | inr e ↦ rw e (inl refl)
]
