-- ===== src/Ui/Refinement.antt =====
-- The app as a user meets it does nothing that the system does not do.
use webca.Common.{refl}
use webca.Platform.{Platform}
use webca.Pages.Gesture.{
  Gesture, does, follows, logs, sets_field, changes_form, changes_search, picks_key_size,
  types_duration, changes_modal,
}
use webca.Pages.Router.{Router}
use webca.System.{System, event, response, visits, logs_form, perform}
use webca.System as System
use webca.Ui.{Ui, settle, after_gesture, after_event, after_render, act}
use webca.Ui.Steps.{Answers, Step, gesture, browses, effect, render, Reach, here, next}
use webca.Ui.Steps as Steps

module _ {p : Platform} where
  abbrev Extends : System p → System p → Type 0
  Extends s t = (r : System p) → System.Reach r s → System.Reach r t

  gesture-Extends :
      (router : Router) (g : Gesture) (u : Ui p)
      → Extends u.system (after_gesture router g u).system
  unfolding after_gesture act perform
  gesture-Extends router (does e) u r h = System.next h (event e refl)
  gesture-Extends router (follows path) u r h = System.next h (event (visits path) refl)
  gesture-Extends router (logs text) u r h = System.next h (event (logs_form text) refl)
  gesture-Extends router (sets_field key value) u r h = h
  gesture-Extends router (changes_form i) u r h = h
  gesture-Extends router (changes_search i) u r h = h
  gesture-Extends router (picks_key_size value) u r h = h
  gesture-Extends router (types_duration typed) u r h = h
  gesture-Extends router (changes_modal i) u r h = h

  Step-Extends :
      (router : Router) (Gives : Answers p) {u v : Ui p}
      → Step router Gives u v
      → Extends u.system v.system
  unfolding settle after_event after_render
  Step-Extends router Gives {u} (gesture g offered same) r h =
      rw same (gesture-Extends router g u r h)
  Step-Extends router Gives (browses path same) r h =
      rw same (System.next h (event (visits path) refl))
  Step-Extends router Gives (effect e mounted same) r h = rw same (System.next h (event e refl))
  Step-Extends router Gives (render same) r h = rw same h
  Step-Extends router Gives (Steps.response before after c a m listed given told same) r h =
      rw same (System.next h (response before after c a listed refl))

  -- Whatever the router and the server do, the calls and the tab of the app as a user meets it are
  -- those of a system that is reached by the system's own steps.
  pub Reach-system :
      (router : Router) (Gives : Answers p) {u v : Ui p}
      → Reach router Gives u v
      → System.Reach u.system v.system
  Reach-system router Gives here = System.here
  Reach-system router Gives (next r st) =
      Step-Extends router Gives st _ (Reach-system router Gives r)
