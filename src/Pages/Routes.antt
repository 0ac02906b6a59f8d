-- ===== src/Pages/Routes.antt =====
-- routes/Routes.tsx, routes/AuthenticatedRoutes.tsx, routes/UnauthenticatedRoutes.tsx and App.tsx.
pub mod Navigation
use webca.Common.{String, Bool, true, false, Option, none, some, List, [], ◌∷◌, if◌then◌else◌}
use webca.Common.Dict.{Dict, lookup}
use webca.Platform.{Platform}
use webca.World.{World}
use webca.Hooks.{use_is_authenticated}
use webca.Views.PrivateKeyModal.{Modal}
use webca.Pages.Markup.{Node, nothing, tag}
use webca.Pages.Router.{Router, Route}
use webca.Pages.Draft.{Draft}
use webca.Pages.Access.{login_container, sign_up_container}
use webca.Pages.Account.{account_page, new_invitation_container}
use webca.Pages.Navigation.{home, side_menu, settings, error_notification}
use webca.Pages.CertificateList.{certificate_list_container}
use webca.Pages.CertificatePage.{certificate_container}
use webca.Pages.NewCertificate.{new_certificate_container}

-- The children of the routes; a certificate's page has the parameter of its path.
pub data Page : Type 0 where
  signs_up logs_in : Page
  new_certificate certificate_list account settings_page new_invitation home_page : Page
  certificate : Option String → Page

abbrev exactly : String → Page → Route Page
exactly path page = record { exact = true; path = path; page = λ params. page }

abbrev below : String → Page → Route Page
below path page = record { exact = false; path = path; page = λ params. page }

abbrev pub authenticated_routes : List (Route Page)
authenticated_routes =
    exactly "/certificates/add" new_certificate
    ∷ exactly "/certificates" certificate_list
    ∷ record {
      exact = true;
      path = "/certificates/:certificateId";
      page = λ params. certificate (lookup "certificateId" params);
    }
    ∷ exactly "/account" account
    ∷ exactly "/settings" settings_page
    ∷ exactly "/invitations/add" new_invitation
    ∷ below "/" home_page
    ∷ []

abbrev pub unauthenticated_routes : List (Route Page)
unauthenticated_routes =
    below "/signup" signs_up ∷ exactly "/login" logs_in ∷ below "/" signs_up ∷ []

-- The page of `Routes`.
unfoldable pub page_of : {p : Platform} → Router → World p → String → Option Page
page_of router w location =
    if (use_is_authenticated w).0
    then router.switch authenticated_routes location
    else router.switch unauthenticated_routes location

module _ {p : Platform} where
  unfoldable pub page_node : Draft → Modal → World p → Page → Node
  page_node d m w signs_up = sign_up_container
  page_node d m w logs_in = login_container
  page_node d m w new_certificate = new_certificate_container d w
  page_node d m w certificate_list = certificate_list_container w
  page_node d m w (certificate id) = certificate_container w m
  page_node d m w account = account_page w
  page_node d m w settings_page = settings w
  page_node d m w new_invitation = new_invitation_container
  page_node d m w home_page = home

  abbrev pub shown_page : Draft → Modal → World p → Option Page → Node
  shown_page d m w none = nothing
  shown_page d m w (some page) = page_node d m w page

  -- `App`: the error notification above the routes, with the menu beside them for a user who is
  -- logged in.
  unfoldable pub app : Router → Draft → Modal → World p → String → Node
  app router d m w location =
      let page = shown_page d m w (page_of router w location) in
      tag "App" [] (
        error_notification w
        ∷ (if (use_is_authenticated w).0 then tag "Fragment" [] (side_menu ∷ page ∷ []) else page)
        ∷ [])
