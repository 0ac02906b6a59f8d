-- ===== src/Pages/Offered/PrivateKey.antt =====
-- Who is offered the download of a private key.
use webca.Common.{
  ◌≡◌, String, Bool, false, not, Option, none, some, List, [], ◌∷◌, is_some, Bool-cases, inl, inr,
}
use webca.Common.Text.{truthy}
use webca.Constants.{root_ca, admin_role}
use webca.Types.{Certificate, SelectedCertificate}
use webca.Platform.{Platform}
use webca.World.{World, state}
use webca.System.{downloads_private_key}
use webca.Views.PrivateKeyModal.{Modal, opens}
use webca.Views.CertificatePage.{
  display, has_role, download_certificate_button, download_private_key_button,
}
use webca.Pages.Gesture.{Gesture, does, changes_modal}
use webca.Pages.Markup.{Node, Offers, AllOffer, each}
use webca.Pages.Display.{date_time}
use webca.Pages.CertificateDetails.{
  basic_certificate_details, certificate_subject_details, certificate_body, authority, entries,
  subject_item, pem_line, lines_of,
}
use webca.Pages.CertificatePage.{private_key_modal, certificate_display, certificate_container}

-- A gesture that neither opens the modal of the private key nor asks for the key.
abbrev pub IsKeyless : Gesture → Type 0
IsKeyless (does (downloads_private_key password)) = ⊥
IsKeyless (changes_modal opens) = ⊥
IsKeyless _ = Unit

each-IsKeyless {ℓ} :
    {A : Type ℓ} (f : A → Node) (xs : List A)
    → ((x : A) → Offers IsKeyless (f x))
    → AllOffer IsKeyless (each f xs)
unfolding Offers
each-IsKeyless f [] h = tt
each-IsKeyless f (x ∷ xs) h = (h x, each-IsKeyless f xs h)

date_time-IsKeyless : (value : Option String) → Offers IsKeyless (date_time value)
unfolding Offers date_time
date_time-IsKeyless value = elim (Bool-cases (truthy value)) [ inl e ↦ rw e tt | inr e ↦ rw e tt ]

authority-IsKeyless : (s : Option Certificate) → Offers IsKeyless (authority s)
unfolding Offers
authority-IsKeyless none = tt
authority-IsKeyless (some c) = search

basic-IsKeyless :
    (c : Certificate) (s : Option Certificate)
    → Offers IsKeyless (basic_certificate_details (record { certificate = some c; signatory = s }))
unfolding Offers basic_certificate_details
basic-IsKeyless c s = search (
  date_time-IsKeyless (some c.created_at),
  date_time-IsKeyless (some c.expires_at),
  authority-IsKeyless s,
)

subject-IsKeyless :
    (c : Certificate) → Offers IsKeyless (certificate_subject_details (some c.subject))
unfolding Offers certificate_subject_details
subject-IsKeyless c = search (each-IsKeyless subject_item (entries c.subject) (λ x. search))

body-IsKeyless : (c : Certificate) → Offers IsKeyless (certificate_body (some c))
unfolding Offers certificate_body
body-IsKeyless c = search (each-IsKeyless pem_line (lines_of c.body) (λ x. search))

modal-IsKeyless :
    (download : String → List Gesture) (downloading show_error : Bool)
    → Offers IsKeyless (
        private_key_modal download
          (record { modal_open = false; downloading = downloading; show_error = show_error }))
unfolding Offers private_key_modal
modal-IsKeyless download downloading show_error = tt

display-IsKeyless :
    (c : Certificate) (s : Option Certificate) (m : Modal)
    → c.type ≡ root_ca
    → m.modal_open ≡ false
    → Offers IsKeyless
        (certificate_display false false (record { certificate = some c; signatory = s }) m)
unfolding Offers certificate_display display download_certificate_button download_private_key_button
    private_key_modal
display-IsKeyless c s m root closed =
    rw (root, closed) (search (basic-IsKeyless c s, subject-IsKeyless c, body-IsKeyless c))

keyless_lem :
    (admin : Bool) (selected : SelectedCertificate) (c : Certificate) (m : Modal)
    → selected.certificate ≡ some c
    → admin ≡ false
    → c.type ≡ root_ca
    → m.modal_open ≡ false
    → Offers IsKeyless (certificate_display admin (not (is_some selected.certificate)) selected m)
keyless_lem admin selected c m shown user root closed =
    rw (shown, user) (display-IsKeyless c selected.signatory m root closed)

-- The page of a root CA offers somebody who is not an administrator no gesture that opens the modal
-- of the private key, and none that asks for the key, while the modal is not open.
pub certificate_container-IsKeyless :
    {p : Platform} (w : World p) (c : Certificate) (m : Modal)
    → (state w).certificates.selected.certificate ≡ some c
    → has_role (state w).user.user admin_role ≡ false
    → c.type ≡ root_ca
    → m.modal_open ≡ false
    → Offers IsKeyless (certificate_container w m)
unfolding certificate_container
certificate_container-IsKeyless w c m =
    keyless_lem (has_role (state w).user.user admin_role) (state w).certificates.selected c m
