-- ===== src/Pages/CertificatePage.antt =====
-- modules/certificate: CertificateContainer.tsx, CertificateDisplay.tsx and PrivateKeyModal.tsx, with
-- the buttons and the modal's state of Views.
use webca.Common.{String, Bool, true, false, not, Option, none, some, is_some, List, [], ◌∷◌}
use webca.Constants.{admin_role}
use webca.Types.{Certificate, CertificateSubject, SelectedCertificate}
use webca.Platform.{Platform}
use webca.World.{World, state}
use webca.System.{downloads, downloads_private_key}
use webca.Views.CertificatePage.{Button, has_role, display}
use webca.Views.PrivateKeyModal.{Modal, opens, closes, submits, types}
use webca.Pages.Gesture.{Gesture, does, changes_modal}
use webca.Pages.Markup.{
  Node, nothing, message, text, slot, nodes, tag, named, translated, on_click, on_text, on_values,
  card, modal,
}
use webca.Pages.Fields.{field, required, item, button}
use webca.Pages.CertificateDetails.{
  basic_certificate_details, certificate_subject_details, certificate_body,
}

abbrev pub wrong_password : Bool → Node
wrong_password true = tag "Typography.Text" [] (message "privateKeyModal.wrongPassword" ∷ [])
wrong_password false = nothing

-- `PrivateKeyModal`: the button `download` submits the form, whose `onFinish` has the values.
unfoldable pub private_key_modal : (String → List Gesture) → Modal → Node
private_key_modal download m = modal m.modal_open (
    nodes (
      tag "Modal" (on_click (changes_modal closes ∷ []) ∷ []) []
      ∷ slot "footer" (
          nodes (
            button (changes_modal closes ∷ []) false "privateKeyModal.cancel"
            ∷ button [] false "privateKeyModal.download"
            ∷ []))
      ∷ tag "h3" [] (message "privateKeyModal.label" ∷ [])
      ∷ tag "Form" (on_values (λ values. download (field "password" values)) ∷ []) (
          item "password" (required "privateKeyModal.password-required") (
            tag "Input.Password"
              (named "placeholder" (translated "privateKeyModal.password-plassword")
                ∷ on_text "onChange" (λ typed. changes_modal types ∷ [])
                ∷ [])
              []
            ∷ [])
          ∷ wrong_password m.show_error
          ∷ [])
      ∷ []))

abbrev pub button_node : List Gesture → Button → Node
button_node on_press b = button on_press b.disabled b.text

abbrev pub optional_button : List Gesture → Option Button → Node
optional_button on_press none = nothing
optional_button on_press (some b) = button_node on_press b

abbrev pub subject_of : Option Certificate → Option CertificateSubject
subject_of none = none
subject_of (some c) = some c.subject

abbrev pub name_of : Option Certificate → Node
name_of none = nothing
name_of (some c) = text c.name

-- `CertificateDisplay`
unfoldable pub certificate_display : Bool → Bool → SelectedCertificate → Modal → Node
unfolding display basic_certificate_details certificate_subject_details certificate_body
    private_key_modal
certificate_display is_admin is_loading selected m =
    let buttons = display is_admin is_loading selected.certificate in
    tag "div" [] (
      tag "h1" [] (name_of selected.certificate ∷ [])
      ∷ card is_loading (
          nodes (
            basic_certificate_details selected
            ∷ certificate_subject_details (subject_of selected.certificate)
            ∷ certificate_body selected.certificate
            ∷ []))
      ∷ button_node (does (downloads false) ∷ []) buttons.certificate
      ∷ optional_button (does (downloads true) ∷ []) buttons.chain
      ∷ optional_button (changes_modal opens ∷ []) buttons.private_key
      ∷ private_key_modal
          (λ password. does (downloads_private_key password) ∷ changes_modal submits ∷ []) m
      ∷ [])

-- `CertificateContainer`
unfoldable pub certificate_container : {p : Platform} → World p → Modal → Node
unfolding certificate_display
certificate_container w m =
    certificate_display (has_role (state w).user.user admin_role)
      (not (is_some (state w).certificates.selected.certificate)) (state w).certificates.selected m
