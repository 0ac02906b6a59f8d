-- ===== src/Pages/Translated/Details.antt =====
-- The texts of the page of a certificate.
use webca.Common.{
  ◌≡◌, refl, String, Bool, true, false, not, Option, none, some, List, [], ◌∷◌, is_some, All, ◌==◌,
  if◌then◌else◌,
}
use webca.Constants.{root_ca}
use webca.Types.{Certificate}
use webca.System.{downloads, downloads_private_key}
use webca.Views.PrivateKeyModal.{Modal, opens, submits}
use webca.Views.CertificatePage.{display, download_certificate_button, download_private_key_button}
use webca.Pages.Gesture.{Gesture, does, changes_modal}
use webca.Pages.Markup.{untranslated, missing}
use webca.Pages.CertificateDetails.{
  basic_certificate_details, certificate_body, authority, pem_line, lines_of,
}
use webca.Pages.CertificatePage.{
  private_key_modal, wrong_password, optional_button, certificate_display,
}
use webca.Pages.Translated.Parts.{
  IsKnownType, missing-type_key, untranslated-date_time, untranslated-subject, untranslated-each,
}

-- A certificate of a known type, whose subject has no state.
abbrev pub IsKnownCertificate : Option Certificate → Type 0
IsKnownCertificate none = Unit
IsKnownCertificate (some c) = IsKnownType c.type × (c.subject.state ≡ none)

authority_cases : (s : Option Certificate) → untranslated (authority s) ≡ []
unfolding untranslated missing
authority_cases none = refl
authority_cases (some c) = refl

basic :
    (c : Certificate) (s : Option Certificate)
    → IsKnownType c.type
    → untranslated (basic_certificate_details (record { certificate = some c; signatory = s })) ≡ []
unfolding untranslated basic_certificate_details missing
basic c s known =
    rw
      (
        missing-type_key c.type known,
        untranslated-date_time (some c.created_at),
        untranslated-date_time (some c.expires_at),
        authority_cases s,
      )
      refl

All-lines_lem : (lines : List String) → All (λ line. Unit {0}) lines
All-lines_lem [] = tt
All-lines_lem (line ∷ lines) = (tt, All-lines_lem lines)

body : (c : Certificate) → untranslated (certificate_body (some c)) ≡ []
unfolding untranslated certificate_body missing
body c =
    rw
      (untranslated-each pem_line (λ line. Unit {0}) (lines_of c.body) (λ line _. refl)
        (All-lines_lem (lines_of c.body)))
      refl

wrong_password_cases : (b : Bool) → untranslated (wrong_password b) ≡ []
unfolding untranslated missing
wrong_password_cases true = refl
wrong_password_cases false = refl

modal_cases :
    (download : String → List Gesture) (open_now downloading show_error : Bool)
    → untranslated (
        private_key_modal download
          (record { modal_open = open_now; downloading = downloading; show_error = show_error }))
      ≡ []
unfolding untranslated private_key_modal missing
modal_cases download true downloading show_error = rw (wrong_password_cases show_error) refl
modal_cases download false downloading show_error = refl

private_key_cases :
    (gs : List Gesture) (admin root loading : Bool)
    → untranslated (optional_button gs (download_private_key_button admin root loading)) ≡ []
unfolding untranslated download_private_key_button missing
private_key_cases gs true true loading = refl
private_key_cases gs true false loading = refl
private_key_cases gs false true loading = refl
private_key_cases gs false false loading = refl

chain_cases :
    (gs : List Gesture) (root loading : Bool)
    → untranslated (
        optional_button gs
          (if not root then some (download_certificate_button loading true) else none))
      ≡ []
unfolding untranslated download_certificate_button missing
chain_cases gs true loading = refl
chain_cases gs false loading = refl

-- The gestures of the buttons and of the modal's form.
abbrev chain : List Gesture
chain = does (downloads true) ∷ []

abbrev opening : List Gesture
opening = changes_modal opens ∷ []

abbrev sending : String → List Gesture
sending password = does (downloads_private_key password) ∷ changes_modal submits ∷ []

pub untranslated-display :
    (admin : Bool) (c s : Option Certificate) (m : Modal)
    → IsKnownCertificate c
    → untranslated
        (certificate_display admin (not (is_some c)) (record { certificate = c; signatory = s }) m)
      ≡ []
unfolding untranslated certificate_display download_certificate_button missing display
untranslated-display admin none s m known =
    rw
      (
        chain_cases chain false true,
        private_key_cases opening admin false true,
        modal_cases sending m.modal_open m.downloading m.show_error,
      )
      refl
untranslated-display admin (some c) s m (type, state) =
    rw
      (
        basic c s type,
        untranslated-subject c.subject,
        state,
        body c,
        chain_cases chain (c.type == root_ca) false,
        private_key_cases opening admin (c.type == root_ca) false,
        modal_cases sending m.modal_open m.downloading m.show_error,
      )
      refl
