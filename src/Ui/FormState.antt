-- ===== src/Ui/FormState.antt =====
-- The state of the form of a new certificate, whatever happens in the app.
use webca.Common.{
  ◌≡◌, refl, String, Bool, true, false, Option, none, some, List, [], ◌∷◌, ◌++◌, map, if◌then◌else◌,
  inl, inr,
}
use webca.Types.{CertificateOptions, ErrorInfo, ErrorState}
use webca.Platform.{Platform}
use webca.World.{World, state}
use webca.Hooks.{use_is_authenticated, use_certificate_options}
use webca.System.{dismisses_error}
use webca.Views.PrivateKeyModal.{Modal}
use webca.Pages.Gesture.{Gesture, does}
use webca.Pages.Markup.{Node, Offers, tag}
use webca.Pages.Markup.Handlers.{IsOffered, IsOffered-Offers}
use webca.Pages.Draft
use webca.Pages.Draft.{Draft, change, change_all}
use webca.Pages.Draft.Renders.{on_render_cases}
use webca.Pages.Display.{on_render}
use webca.Pages.NewCertificate.{type_choice, algorithm_choice, selects_type, selects_algorithm}
use webca.Pages.Draft.Laws.{
  IsInStep, Keeps, type-Keeps, algorithm-Keeps, new_certificate_container-IsInStep,
}
use webca.Views.SignatorySearch.Laws.{initial-IsCurrent}
use webca.Pages.Navigation.{side_menu, error_notification, alert}
use webca.Pages.Router.{Router}
use webca.Pages.Routes.{Page, new_certificate, page_of, page_node, app}
use webca.Ui.{
  Ui, shown, settle, mounted_draft, change_draft, after_gesture, after_event, after_render,
  page_shown, world_of, location_of, selected_by_dropdowns,
}
use webca.Ui.Steps.{Answers, Step, gesture, browses, effect, render, response, Reach, here, next}

pub initial-IsInStep : IsInStep Draft.initial
initial-IsInStep = record {
  signatory = initial-IsCurrent none;
  searched = inl refl;
  key_size = inl refl;
}

mounted-IsInStep :
    (page : Option Page) (o : Option CertificateOptions) (d : Draft)
    → IsInStep d
    → IsInStep (mounted_draft page o d)
mounted-IsInStep (some new_certificate) (some options) d h = h
mounted-IsInStep _ _ d h = initial-IsInStep

changed-IsInStep :
    (page : Option Page) (o : Option CertificateOptions) (d : Draft) (g : Gesture)
    → IsInStep d
    → (page ≡ some new_certificate → IsInStep (change d g))
    → IsInStep (change_draft page o d g)
changed-IsInStep (some new_certificate) (some options) d g h k = k refl
changed-IsInStep _ _ d g h k = h

module _ (d : Draft) (h : IsInStep d) where
  alert-Keeps :
      (seen : ErrorState) (e : Option ErrorInfo)
      → Offers (Keeps d) (alert (does (dismisses_error seen) ∷ []) e)
  unfolding Offers change
  alert-Keeps seen none = tt
  alert-Keeps seen (some error) = search h

  side_menu-Keeps : Offers (Keeps d) side_menu
  unfolding Offers side_menu change
  side_menu-Keeps = search h

  with_menu-Keeps :
      (loaded : Bool) (page : Node)
      → Offers (Keeps d) page
      → Offers (Keeps d) (if loaded then tag "Fragment" [] (side_menu ∷ page ∷ []) else page)
  unfolding Offers
  with_menu-Keeps true page k = (tt, (side_menu-Keeps, (k, tt)))
  with_menu-Keeps false page k = k

  app-Keeps :
      {p : Platform} (router : Router) (m : Modal) (w : World p) (location : String)
      → page_of router w location ≡ some new_certificate
      → Offers (Keeps d) (app router d m w location)
  unfolding Offers app page_node error_notification
  app-Keeps router m w location e = rw e (
    tt,
    (
      alert-Keeps _ (state w).error.error,
      (with_menu-Keeps (use_is_authenticated w).0 _ (new_certificate_container-IsInStep d w h), tt),
    ),
  )

abbrev InStepAfter : List Gesture → Type 0
InStepAfter gs = (d : Draft) → IsInStep d → IsInStep (change_all d gs)

type-InStepAfter : (t : String) → InStepAfter (selects_type t)
unfolding change_all change
type-InStepAfter t d h = type-Keeps t d h

algorithm-InStepAfter : (a : String) → InStepAfter (selects_algorithm a)
unfolding change_all change
algorithm-InStepAfter a d h = algorithm-Keeps a d h

none-InStepAfter : InStepAfter []
unfolding change_all
none-InStepAfter d h = h

change_all-append :
    (gs hs : List Gesture) (d : Draft) → change_all d (gs ++ hs) ≡ change_all (change_all d gs) hs
unfolding change_all
change_all-append [] hs d = refl
change_all-append (g ∷ gs) hs d = change_all-append gs hs (change d g)

append-InStepAfter :
    (gs hs : List Gesture) → InStepAfter gs → InStepAfter hs → InStepAfter (gs ++ hs)
append-InStepAfter gs hs k l d h = rw (change_all-append gs hs d) (l (change_all d gs) (k d h))

dropdowns-InStepAfter : (o : Option CertificateOptions) → InStepAfter (selected_by_dropdowns o)
dropdowns-InStepAfter none = none-InStepAfter
dropdowns-InStepAfter (some o) =
    append-InStepAfter (on_render (map type_choice o.types) selects_type)
      (on_render (map algorithm_choice o.algorithms) selects_algorithm)
      (elim (on_render_cases (map type_choice o.types) selects_type) [
        | inl e ↦ rw e none-InStepAfter
        | inr (t, e) ↦ rw e (type-InStepAfter t)
      ])
      (elim (on_render_cases (map algorithm_choice o.algorithms) selects_algorithm) [
        | inl e ↦ rw e none-InStepAfter
        | inr (a, e) ↦ rw e (algorithm-InStepAfter a)
      ])

module _ {p : Platform} where
  settle-IsInStep :
      (router : Router) (u : Ui p) → IsInStep u.draft → IsInStep (settle router u).draft
  unfolding settle
  settle-IsInStep router u h =
      mounted-IsInStep (page_shown router u) (use_certificate_options (world_of u)) u.draft h

  after_gesture-IsInStep :
      (router : Router) (g : Gesture) (u : Ui p)
      → IsOffered g (shown router u)
      → IsInStep u.draft
      → IsInStep (after_gesture router g u).draft
  unfolding after_gesture
  after_gesture-IsInStep router g u offered h =
      changed-IsInStep (page_shown router u) (use_certificate_options (world_of u)) u.draft g h
        (λ e.
          IsOffered-Offers (Keeps u.draft) (shown router u)
            (app-Keeps u.draft h router u.modal (world_of u) (location_of u) e) offered)

  Step-IsInStep :
      (router : Router) (Gives : Answers p) {u v : Ui p}
      → Step router Gives u v
      → IsInStep u.draft
      → IsInStep v.draft
  unfolding after_event after_render
  Step-IsInStep router Gives {u} (gesture g offered same) h =
      rw same (settle-IsInStep router _ (after_gesture-IsInStep router g u offered h))
  Step-IsInStep router Gives {u} (browses path same) h = rw same (settle-IsInStep router _ h)
  Step-IsInStep router Gives {u} (effect e mounted same) h = rw same (settle-IsInStep router _ h)
  Step-IsInStep router Gives {u} (render same) h = rw same (
      settle-IsInStep router _
        (dropdowns-InStepAfter (use_certificate_options (world_of u)) u.draft h))
  Step-IsInStep router Gives (response before after c a m listed given told same) h =
      rw same (settle-IsInStep router _ h)

  -- From a form in step, whatever the user does with what the app shows, whatever effects run and
  -- whatever the server answers, the form stays in step: if the search has an id and a password,
  -- not empty, these are the signatory that the form would submit; the search has an id only for
  -- an intermediate CA or an end certificate; and a key size is chosen only for the algorithm RSA.
  pub Reach-IsInStep :
      (router : Router) (Gives : Answers p) {u v : Ui p}
      → IsInStep u.draft
      → Reach router Gives u v
      → IsInStep v.draft
  Reach-IsInStep router Gives h here = h
  Reach-IsInStep router Gives h (next r st) =
      Step-IsInStep router Gives st (Reach-IsInStep router Gives h r)
