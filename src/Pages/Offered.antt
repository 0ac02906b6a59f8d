-- ===== src/Pages/Offered.antt =====
-- Which gestures the app offers: to somebody who is not logged in, and on the page of a root CA.
pub mod PrivateKey
use webca.Common.{
  ◌≡◌, refl, sym, ap, ◌⊎◌, inl, inr, ◌∙◌, String, Bool, true, false, not, Option, none, some, List,
  [], ◌∷◌, All, is_some, if◌then◌else◌, ◌==◌,
}
use webca.Common.Dict.{Dict}
use webca.Constants.{root_ca, admin_role}
use webca.Types.{Certificate, ErrorInfo, ErrorState, CertificateSubject}
use webca.Platform.{Platform}
use webca.World.{World, state}
use webca.Hooks.{use_is_authenticated}
use webca.System.{logs_in, signs_up, dismisses_error, downloads_private_key}
use webca.Views.PrivateKeyModal.{Modal, opens}
use webca.Views.CertificatePage.{
  display, has_role, has_type, download_certificate_button, download_private_key_button,
}
use webca.Pages.Gesture.{Gesture, does, follows, logs, changes_modal}
use webca.Pages.Markup.{Node, Offers, AllOffer, Every, each, tag}
use webca.Pages.Router.{Router, Route, or_later}
use webca.Pages.Draft.{Draft}
use webca.Pages.Access.{login_container, sign_up_container}
use webca.Pages.Display.{date_time}
use webca.Pages.Navigation.{error_notification, alert}
use webca.Pages.CertificateDetails.{
  basic_certificate_details, certificate_subject_details, certificate_body, authority, entries,
  subject_item, pem_line, lines_of,
}
use webca.Pages.CertificatePage.{
  private_key_modal, optional_button, certificate_display, certificate_container,
}
use webca.Pages.Routes as Routes
use webca.Pages.Routes.{Page, unauthenticated_routes, page_of, page_node, shown_page, app}

-- What somebody who is not logged in can do: log in, sign up, follow the link between the two pages,
-- send a form that is not valid, which is logged, and close the notification of an error.
abbrev pub IsPublic : Gesture → Type 0
IsPublic (does (logs_in req)) = Unit
IsPublic (does (signs_up req)) = Unit
IsPublic (does (dismisses_error seen)) = Unit
IsPublic (follows path) = (path ≡ "/login") ⊎ (path ≡ "/signup")
IsPublic (logs text) = Unit
IsPublic _ = ⊥

abbrev pub Holds : (Page → Type 0) → Option Page → Type 0
Holds P none = Unit
Holds P (some page) = P page

or_later-Holds :
    (P : Page → Type 0) (o : Option Dict) (page : Dict → Page) (later : Option Page)
    → ((params : Dict) → P (page params))
    → Holds P later
    → Holds P (or_later o page later)
or_later-Holds P none page later h hs = hs
or_later-Holds P (some params) page later h hs = h params

-- A page that a switch shows is that of one of its routes.
pub switch-Holds :
    (router : Router) (P : Page → Type 0) (routes : List (Route Page)) (location : String)
    → All (λ (r : Route Page). (params : Dict) → P (r.page params)) routes
    → Holds P (router.switch routes location)
switch-Holds router P [] location h = rw (router.switch-none location) tt
switch-Holds router P (route ∷ routes) location (h, hs) =
    rw (router.switch-first route routes location) (
      or_later-Holds P (router.matches route.exact route.path location) route.page
        (router.switch routes location) h (switch-Holds router P routes location hs))

to_login : IsPublic (follows "/login")
to_login = inl refl

to_sign_up : IsPublic (follows "/signup")
to_sign_up = inr refl

login-IsPublic : Offers IsPublic login_container
unfolding Offers login_container
login-IsPublic = search to_sign_up

sign_up-IsPublic : Offers IsPublic sign_up_container
unfolding Offers sign_up_container
sign_up-IsPublic = search to_login

alert-IsPublic :
    (seen : ErrorState) (e : Option ErrorInfo)
    → Offers IsPublic (alert (does (dismisses_error seen) ∷ []) e)
unfolding Offers
alert-IsPublic seen none = tt
alert-IsPublic seen (some error) = search

module _ {p : Platform} (d : Draft) (m : Modal) (w : World p) where
  -- A page whose gestures are all public.
  abbrev PublicPage : Page → Type 0
  PublicPage page = Offers IsPublic (page_node d m w page)

  shown-IsPublic :
      (page : Option Page) → Holds PublicPage page → Offers IsPublic (shown_page d m w page)
  unfolding Offers
  shown-IsPublic none h = tt
  shown-IsPublic (some page) h = h

  -- Whatever the location and the router, somebody who is not logged in is offered nothing by the app
  -- but to log in, to sign up, to go from one of these pages to the other, to be told in the log of a
  -- form that is not valid, and to close the notification of an error.
  pub app-IsPublic :
      (router : Router) (location : String)
      → (state w).user.loaded ≡ false
      → Offers IsPublic (app router d m w location)
  unfolding Offers app use_is_authenticated page_of page_node error_notification
  app-IsPublic router location out =
      let pages = switch-Holds router PublicPage unauthenticated_routes location (
        (λ params. sign_up-IsPublic),
        ((λ params. login-IsPublic), ((λ params. sign_up-IsPublic), tt)),
      ) in
      rw out (tt, (alert-IsPublic _ (state w).error.error, (shown-IsPublic _ pages, tt)))
