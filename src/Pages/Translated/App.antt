-- ===== src/Pages/Translated/App.antt =====
-- The texts of the whole app.
use webca.Common.{
  ◌≡◌, refl, String, Bool, true, false, Option, none, some, [], ◌∷◌, All, if◌then◌else◌,
}
use webca.Types.{Certificate}
use webca.Platform.{Platform}
use webca.World.{World, state}
use webca.Hooks.{use_is_authenticated, use_certificates, use_certificate_options}
use webca.Views.PrivateKeyModal.{Modal}
use webca.System.{opens_certificate, opens_certificate_form}
use webca.Pages.Gesture.{does}
use webca.Pages.Markup.{Node, untranslated, tag}
use webca.Pages.Router.{Router}
use webca.Pages.Draft.{Draft}
use webca.Pages.Navigation.{side_menu}
use webca.Pages.CertificateList.{listed, certificate_list_container}
use webca.Pages.CertificatePage.{certificate_container}
use webca.Pages.Routes.{
  Page, signs_up, logs_in, new_certificate, certificate_list, certificate, account, settings_page,
  new_invitation, home_page, page_of, page_node, shown_page, app,
}
use webca.Pages.Translated.Parts.{
  IsKnownType, untranslated-login, untranslated-sign_up, untranslated-list, untranslated-account,
  untranslated-settings, untranslated-new_invitation, untranslated-home, untranslated-side_menu,
  untranslated-notification,
}
use webca.Pages.Translated.Details.{IsKnownCertificate, untranslated-display}
use webca.Pages.Translated.Form.{IsKnownOption, AreKnown, untranslated-form}

with_menu :
    (b : Bool) (page : Node)
    → untranslated page ≡ []
    → untranslated (if b then tag "Fragment" [] (side_menu ∷ page ∷ []) else page) ≡ []
unfolding untranslated
with_menu true page h = rw (untranslated-side_menu, h) refl
with_menu false page h = h

module _ {p : Platform} (d : Draft) (m : Modal) (w : World p) where
  page_cases :
      (page : Page)
      → IsKnownCertificate (state w).certificates.selected.certificate
      → All (λ (c : Certificate). IsKnownType c.type) (listed (use_certificates w).items)
      → AreKnown (use_certificate_options w)
      → IsKnownOption d.form.certificate_type
      → untranslated (page_node d m w page) ≡ []
  unfolding page_node certificate_list_container certificate_container
  page_cases signs_up selected list options form = untranslated-sign_up
  page_cases logs_in selected list options form = untranslated-login
  page_cases new_certificate selected list options form = untranslated-form d w options form
  page_cases certificate_list selected list options form =
      untranslated-list (use_certificates w) (λ id. does (opens_certificate id) ∷ [])
        (does opens_certificate_form ∷ []) list
  page_cases (certificate id) selected list options form =
      untranslated-display _ (state w).certificates.selected.certificate _ m selected
  page_cases account selected list options form = untranslated-account w
  page_cases settings_page selected list options form = untranslated-settings w
  page_cases new_invitation selected list options form = untranslated-new_invitation
  page_cases home_page selected list options form = untranslated-home

  shown_cases :
      (page : Option Page)
      → ((q : Page) → untranslated (page_node d m w q) ≡ [])
      → untranslated (shown_page d m w page) ≡ []
  unfolding untranslated
  shown_cases none h = refl
  shown_cases (some page) h = h page

  -- Every text of the app has a message, at every location, for every state of the tab, of the form
  -- and of the modal, logged in or not: if the selected certificate, if there is one, has one of the
  -- three types and a subject without a state, the listed certificates and the options have these
  -- types, the options have no algorithm but RSA, and the type picked in the form, if any, is one of
  -- the three.
  pub untranslated-app :
      (router : Router) (location : String)
      → IsKnownCertificate (state w).certificates.selected.certificate
      → All (λ (c : Certificate). IsKnownType c.type) (listed (use_certificates w).items)
      → AreKnown (use_certificate_options w)
      → IsKnownOption d.form.certificate_type
      → untranslated (app router d m w location) ≡ []
  unfolding untranslated app use_is_authenticated
  untranslated-app router location selected list options form =
      let page = shown_page d m w (page_of router w location) in
      let known =
        shown_cases (page_of router w location) (λ q. page_cases q selected list options form) in
      rw (untranslated-notification w, with_menu (state w).user.loaded page known) refl
