-- ===== src/Tests/PageTests.antt =====
-- The theorems about the pages and the routes, at concrete inputs.
use webca.Common.{◌≡◌, refl, true, some, is_some, [], ◌∷◌, inl, if◌then◌else◌}
use webca.Constants.{root_ca, rsa}
use webca.Types.{CertificateSubject, CertificateOptions}
use webca.Platform.{plain}
use webca.World.{World, state, dispatch}
use webca.State.{reducer}
use webca.State.Actions.{on_certificates, select_certificate, add_options}
use webca.Views.PrivateKeyModal
use webca.Pages.Draft
use webca.Pages.Draft.{change, change_all}
use webca.Pages.CertificateDetails.{certificate_subject_details}
use webca.Pages.CertificatePage.{certificate_container}
use webca.Pages.Markup.{Offers, untranslated}
use webca.Pages.Router.{at_path, all_plain}
use webca.Pages.Router.Segments.{plain_router}
use webca.Pages.Routes.{page_of, app}
use webca.Pages.Routes.Navigation.{authenticated_page, unauthenticated_page, page_of-segments}
use webca.Pages.Offered.{IsPublic, app-IsPublic}
use webca.Pages.Offered.PrivateKey.{IsKeyless, certificate_container-IsKeyless}
use webca.Pages.Translated.Parts.{untranslated-subject}
use webca.Pages.Translated.App.{untranslated-app}
use webca.Tests.Samples.{root, blank, signed_in_tab}

page_of-segments_example :
    page_of plain_router signed_in_tab (at_path ("certificates" ∷ "leaf-id" ∷ [])) ≡ (
      if (state signed_in_tab).user.loaded
      then some (authenticated_page ("certificates" ∷ "leaf-id" ∷ []))
      else some (unauthenticated_page ("certificates" ∷ "leaf-id" ∷ [])))
unfolding all_plain
page_of-segments_example =
    page_of-segments plain_router signed_in_tab ("certificates" ∷ "leaf-id" ∷ []) (refl, (refl, tt))

app-IsPublic_example :
    Offers IsPublic (app plain_router Draft.initial PrivateKeyModal.initial blank "/login")
app-IsPublic_example =
    app-IsPublic Draft.initial PrivateKeyModal.initial blank plain_router "/login" refl

-- A tab whose user is not logged in, with a root CA selected.
abbrev root_tab : World plain
root_tab = dispatch (on_certificates (select_certificate root)) blank

certificate_container-IsKeyless_example :
    Offers IsKeyless (certificate_container root_tab PrivateKeyModal.initial)
unfolding reducer
certificate_container-IsKeyless_example =
    certificate_container-IsKeyless root_tab root PrivateKeyModal.initial refl refl refl refl

-- The same tab with the options of the form.
abbrev choices : CertificateOptions
choices = record {
  types = record { name = root_ca; active = true; created_at = "t0"; updated_at = "t0" } ∷ [];
  algorithms = rsa ∷ [];
  formats = "PEM" ∷ [];
}

abbrev form_tab : World plain
form_tab = dispatch (on_certificates (add_options choices)) root_tab

abbrev swedish : CertificateSubject
swedish = record (root.subject) { country = some "SE"; state = some "Skane"; email = some "a@b.se" }

untranslated-subject_example :
    untranslated (certificate_subject_details (some swedish))
    ≡ (if is_some swedish.state then "certificateSubjectDetails.state" ∷ [] else [])
untranslated-subject_example = untranslated-subject swedish

untranslated-app_example :
    untranslated (app plain_router Draft.initial PrivateKeyModal.initial form_tab "/") ≡ []
unfolding reducer
untranslated-app_example =
    untranslated-app Draft.initial PrivateKeyModal.initial form_tab plain_router "/"
      (inl refl, refl) tt ((inl refl, tt), (refl, tt)) tt
