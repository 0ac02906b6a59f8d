-- ===== src/Ui/Steps.antt =====
-- The steps of the app as a user meets it: a gesture that the shown elements offer, a navigation of the
-- browser, an effect of a shown component, a render of the form, and an answer of the server.
use webca.Common.{◌≡◌, String, List, ◌∷◌, ◌++◌}
use webca.Types.{HttpResponse}
use webca.Platform.{Platform}
use webca.Operations.Calls.{Call, Answer}
use webca.System.{Event, visits}
use webca.Views.PrivateKeyModal.{Modal}
use webca.Pages.Gesture.{Gesture}
use webca.Pages.Markup.Handlers.{IsAmong, IsOffered}
use webca.Pages.Router.{Router}
use webca.Ui.{
  Ui, shown, settle, effects, after_gesture, after_event, after_render, after_response, IsToldModal,
}

-- The answers that the server may give.
abbrev pub Answers : Platform → Type 1
Answers p = (c : Call p) → HttpResponse (Answer c) → Type 0

module _ {p : Platform} where
  pub data Step (router : Router) (Gives : Answers p) (u v : Ui p) : Type 0 where
    gesture :
        (g : Gesture)
        → IsOffered g (shown router u)
        → v ≡ settle router (after_gesture router g u)
        → Step router Gives u v
    browses :
        (path : String) → v ≡ settle router (after_event (visits path) u) → Step router Gives u v
    effect :
        (e : Event)
        → IsAmong e (effects router u)
        → v ≡ settle router (after_event e u)
        → Step router Gives u v
    render : v ≡ settle router (after_render u) → Step router Gives u v
    response :
        (before after : List (Call p)) (c : Call p) (r : HttpResponse (Answer c)) (m : Modal)
        → u.system.pending ≡ before ++ c ∷ after
        → Gives c r
        → IsToldModal c r u.modal m
        → v ≡ settle router (after_response before after c r m u)
        → Step router Gives u v

  pub data Reach (router : Router) (Gives : Answers p) (u : Ui p) : Ui p → Type 0 where
    here : Reach router Gives u u
    next : {v w : Ui p} → Reach router Gives u v → Step router Gives v w → Reach router Gives u w
