-- ===== src/Tests/FormTests.antt =====
-- The form of a new certificate, filled in by a user who is logged in.
use webca.Common.{String, ◌≡◌, refl, arith, eq_iff, none, inl, inr, true, some, [], ◌∷◌}
use webca.Constants.{root_ca, end_certificate, rsa}
use webca.Types.{CertificateOptions, CertificateType, Certificate, HttpResponse, Page}
use webca.State.{initial_state}
use webca.Platform.{plain}
use webca.World.{World, dispatch}
use webca.State.Actions.{on_certificates, remove_signing_certificates}
use webca.Operations.{resume}
use webca.Operations.Calls.{get_signing_certificates}
use webca.Hooks.Effects.{render_signatories}
use webca.Hooks.Effects.Signatories.{render_signatories-again}
use webca.Hooks.{use_is_authenticated}
use webca.Common.Dict.{lookup}
use webca.Common.Text.Split.{split}
use webca.Views.NewCertificate
use webca.Views.NewCertificate.{picks_type, show_signatory_search}
use webca.Views.SignatorySearch
use webca.Views.SignatorySearch.{selects, types_password}
use webca.Pages.Draft.{change, with_form}
use webca.Pages.Draft.Laws.{IsInStep}
use webca.Pages.Gesture.{Gesture, changes_form, changes_search}
use webca.Pages.Markup.Handlers.{IsOffered}
use webca.Pages.Router.{match_segments}
use webca.Pages.Router.Segments.{plain_router, first_match}
use webca.Pages.Routes.{page_of, page_node, app}
use webca.Pages.NewCertificate.{new_certificate_container, new_certificate, signatory_search}
use webca.Ui.{Ui, settle, after_gesture, shown, act}
use webca.Ui.Steps.{Reach, gesture, here, next}
use webca.Ui.FormState.{initial-IsInStep, Reach-IsInStep}
use webca.Tests.Samples.{alice, root, blank, answer}
use webca.Tests.UiTests.{opened, refusing}

abbrev type_of : String → CertificateType
type_of name = record { name = name; active = true; created_at = "t0"; updated_at = "t0" }

abbrev choices : CertificateOptions
choices = record {
  types = type_of root_ca ∷ type_of end_certificate ∷ [];
  algorithms = rsa ∷ "EC" ∷ [];
  formats = "PEM" ∷ [];
}

-- The tab at the form, with its options and one signatory in the store.
abbrev form_tab : World plain
form_tab = record blank {
  store = record initial_state {
    user = record { user = some alice; loaded = true };
    certificates = record (initial_state.certificates) {
      options = some choices;
      signatories = record { certificates = root ∷ []; loaded = true };
    };
  };
  locations = "/certificates/add" ∷ [];
}

abbrev at_form : Ui plain
at_form = record opened { system = record { world = form_tab; pending = [] } }

abbrev does_next : Gesture → Ui plain → Ui plain
does_next g u = settle plain_router (after_gesture plain_router g u)

abbrev picks_leaf : Gesture
picks_leaf = changes_form (picks_type end_certificate)

abbrev picks_root : Gesture
picks_root = changes_search (selects (root ∷ []) "my root")

abbrev types_secret : Gesture
types_secret = changes_search (types_password "secret")

-- An end certificate is picked, its signatory is found, and its password is typed.
abbrev typed : Ui plain
typed = does_next picks_leaf at_form

abbrev searched : Ui plain
searched = does_next picks_root typed

abbrev filled : Ui plain
filled = does_next types_secret searched

picks_leaf-IsOffered : IsOffered picks_leaf (shown plain_router at_form)
unfolding IsOffered app page_node new_certificate_container new_certificate page_of
    use_is_authenticated first_match match_segments split lookup
picks_leaf-IsOffered = inr (
    inr (
      inl (
        inr (
          inr (
            inl (
              inr (
                inr (
                  inl (
                    inr (
                      inr (
                        inl
                          (inr (inl (inl (inr (inr (inl (end_certificate, inl refl))))))))))))))))))

picks_root-IsOffered : IsOffered picks_root (shown plain_router typed)
unfolding IsOffered app page_node new_certificate_container new_certificate signatory_search page_of
    use_is_authenticated first_match match_segments split lookup settle after_gesture act change
    with_form NewCertificate.handle NewCertificate.select_certificate_type show_signatory_search
picks_root-IsOffered = inr (
    inr (
      inl (
        inr (
          inr (
            inl (
              inr (
                inr (
                  inl (
                    inr (
                      inr (
                        inr (
                          inr (
                            inl
                              (inr (inr (inl (inl (inr (inl ("my root", inl refl))))))))))))))))))))

types_secret-IsOffered : IsOffered types_secret (shown plain_router searched)
unfolding IsOffered app page_node new_certificate_container new_certificate signatory_search page_of
    use_is_authenticated first_match match_segments split lookup settle after_gesture act change
    with_form NewCertificate.handle NewCertificate.select_certificate_type show_signatory_search
    SignatorySearch.handle SignatorySearch.on_select SignatorySearch.find_id
types_secret-IsOffered = inr (
    inr (
      inl (
        inr (
          inr (
            inl (
              inr (
                inr (
                  inl (
                    inr (
                      inr (
                        inr (
                          inr (
                            inl (
                              inr (
                                inr
                                  (inr (inl (inl (inr (inl ("secret", inl refl)))))))))))))))))))))

filled-Reach : Reach plain_router refusing at_form filled
filled-Reach =
    next
      (next (next here (gesture picks_leaf picks_leaf-IsOffered refl))
        (gesture picks_root picks_root-IsOffered refl))
      (gesture types_secret types_secret-IsOffered refl)

-- The form has the signatory that was found, with the password that was typed.
filled-signatory :
    filled.draft.form.signatory ≡ some (record { id = "root-id"; password = "secret" })
unfolding page_of use_is_authenticated first_match match_segments split lookup settle after_gesture
    act change with_form NewCertificate.handle NewCertificate.select_certificate_type
    show_signatory_search SignatorySearch.handle SignatorySearch.on_select SignatorySearch.find_id
    SignatorySearch.on_type_password
filled-signatory = refl

Reach-IsInStep_example : IsInStep filled.draft
Reach-IsInStep_example = Reach-IsInStep plain_router refusing initial-IsInStep filled-Reach

-- The same tab before its signatories are loaded, and a page of them.
abbrev unlisted : World plain
unlisted = record form_tab {
  store = record (form_tab.store) { certificates = initial_state.certificates };
}

abbrev listing : HttpResponse (Page Certificate)
listing = answer (record {
  current_page = 1;
  total_pages = 1;
  total_results = 1;
  results_per_page = 1;
  results = root ∷ [];
})

render_signatories-again_example :
    let first = render_signatories none unlisted in
    let after = (resume (get_signing_certificates "acc-1") listing first.world).0 in
    let second = render_signatories first.dependencies after in
    let cleared = dispatch (on_certificates remove_signing_certificates) second.world in
    let third = render_signatories second.dependencies cleared in
    (first.calls ≡ get_signing_certificates "acc-1" ∷ [])
    × (second.calls ≡ [])
    × (second.world ≡ after)
    × (third.calls ≡ get_signing_certificates "acc-1" ∷ [])
render_signatories-again_example =
    render_signatories-again "acc-1" listing unlisted refl (ground (arith, eq_iff "acc-1" "")) refl
