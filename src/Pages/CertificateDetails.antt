-- ===== src/Pages/CertificateDetails.antt =====
-- modules/certificate/components: BasicCertificateDetails.tsx, CertificateSubjectDetails.tsx and
-- CertificateBody.tsx.
pub mod Lines
use webca.Common.{ℕ, String, ◌<>◌, Option, none, some, List, [], ◌∷◌, ◌++◌}
use webca.Common.Text.Split.{split}
use webca.Common.Decimal.{decimal}
use webca.Types.{Certificate, CertificateSubject, SelectedCertificate}
use webca.Utils.ApiUtil.{shown}
use webca.Pages.Gesture.{follows}
use webca.Pages.Markup.{
  Node, nothing, message, text, slot, nodes, tag, each, cons, named, plain, translated, on_click,
  element, empty,
}
use webca.Pages.Display.{date_time, described}
use webca.Pages.CertificateList.{type_key}

-- `certificate?.serialNumber`, `certificate?.type` and the like.
abbrev pub serial_number : Option Certificate → Node
serial_number none = nothing
serial_number (some c) = text (decimal c.serial_number)

abbrev pub type_of : Option Certificate → Option String
type_of none = none
type_of (some c) = some c.type

abbrev pub created_at : Option Certificate → Option String
created_at none = none
created_at (some c) = some c.created_at

abbrev pub expires_at : Option Certificate → Option String
expires_at none = none
expires_at (some c) = some c.expires_at

abbrev pub authority : Option Certificate → Node
authority none = nothing
authority (some c) =
    described "basicCertificateDetails.certificateAuthoriy"
      (tag "Link" (on_click (follows ("/certificates/" <> c.id) ∷ []) ∷ []) (text c.name ∷ []))

unfoldable pub basic_certificate_details : SelectedCertificate → Node
basic_certificate_details selected = tag "Descriptions" [] (
    slot "title" (nodes (tag "h3" [] (message "basicCertificateDetails.title" ∷ []) ∷ []))
    ∷ described "basicCertificateDetails.serialNumber" (serial_number selected.certificate)
    ∷ described "basicCertificateDetails.type" (
        tag "Tag" (named "color" (plain "green") ∷ [])
          (message (type_key (shown (type_of selected.certificate))) ∷ []))
    ∷ described "basicCertificateDetails.createdAt" (date_time (created_at selected.certificate))
    ∷ described "basicCertificateDetails.expiresAt" (date_time (expires_at selected.certificate))
    ∷ authority selected.signatory
    ∷ [])

-- `Object.entries(subject)`: the properties that are there. The common name always is.
abbrev pub entry : String → Option String → List (String × String)
entry key none = []
entry key (some value) = (key, value) ∷ []

unfoldable pub entries : CertificateSubject → List (String × String)
entries s =
    ("commonName", s.common_name)
    ∷ (entry "country" s.country
        ++ (entry "state" s.state
            ++ (entry "locality" s.locality
                ++ (entry "organization" s.organization
                    ++ (entry "organizationalUnit" s.organizational_unit
                        ++ entry "email" s.email)))))

abbrev pub subject_item : String × String → Node
subject_item (key, val) =
    described ("certificateSubjectDetails." <> key) (tag "p" [] (text val ∷ []))

unfoldable pub certificate_subject_details : Option CertificateSubject → Node
unfolding entries
certificate_subject_details none = nothing
certificate_subject_details (some subject) = element "Descriptions" [] (
    cons (slot "title" (nodes (tag "h3" [] (message "certificateSubjectDetails.title" ∷ []) ∷ [])))
      (each subject_item (entries subject)))

abbrev pub pem_line : String → Node
pem_line line = tag "p" [] (text line ∷ [])

-- `certificate.body.split('\n')`
unfoldable pub lines_of : String → List String
unfolding split
lines_of body = split "\n" body

unfoldable pub certificate_body : Option Certificate → Node
unfolding lines_of
certificate_body none = nothing
certificate_body (some c) = tag "Collapse" [] (
    element "Panel" (named "header" (translated "certificateBody.collapseButton") ∷ [])
      (each pem_line (lines_of c.body))
    ∷ [])
