-- ===== src/Pages/CertificateList.antt =====
-- modules/certificates/components/CertificateList and modules/certificates/CertificateListContainer.tsx.
use webca.Common.{String, ◌<>◌, Option, none, some, not, List, [], ◌∷◌}
use webca.Types.{Certificate, Certificates, Page}
use webca.Platform.{Platform}
use webca.World.{World}
use webca.Hooks.{use_fetch_certificates}
use webca.System.{opens_certificate, opens_certificate_form}
use webca.Pages.Gesture.{Gesture, does}
use webca.Pages.Markup.{
  Node, message, text, slot, nodes, tag, each, flag, named, translated, on_click,
}
use webca.Pages.Display.{date_time}

unfoldable pub certificate_list_title : List Gesture → Node
certificate_list_title create_new = tag "div" [] (
    tag "h1" [] (message "certificateList.title" ∷ [])
    ∷ tag "Button" (on_click create_new ∷ []) (message "certificateList.newCertificate-button" ∷ [])
    ∷ [])

-- The key of the name of a certificate's type.
abbrev pub type_key : String → String
type_key type = "certificate.type-" <> type

-- A row of the table, by `useColumns` and `onRow`.
unfoldable pub certificate_row : (String → List Gesture) → Certificate → Node
certificate_row select cert = tag "tr" (on_click (select cert.id) ∷ []) (
    tag "td" [] (text cert.name ∷ [])
    ∷ tag "td" [] (message (type_key cert.type) ∷ [])
    ∷ tag "td" [] (date_time (some cert.created_at) ∷ [])
    ∷ tag "td" [] (date_time (some cert.expires_at) ∷ [])
    ∷ [])

abbrev column : String → Node
column key = tag "th" (named "title" (translated key) ∷ []) []

-- `items ? items.results : []`
abbrev pub listed : Option (Page Certificate) → List Certificate
listed none = []
listed (some items) = items.results

unfoldable pub certificate_list : Certificates → (String → List Gesture) → List Gesture → Node
unfolding certificate_list_title certificate_row
certificate_list certificates select create_new = tag "div" [] (
    tag "Table" (flag "loading" (not certificates.loaded) ∷ []) (
      slot "title" (nodes (certificate_list_title create_new ∷ []))
      ∷ slot "columns" (
          nodes (
            column "certificateList.name-column"
            ∷ column "certificateList.type-column"
            ∷ column "certificateList.createdAt-column"
            ∷ column "certificateList.expiresAt-column"
            ∷ []))
      ∷ slot "dataSource" (each (certificate_row select) (listed certificates.items))
      ∷ [])
    ∷ [])

-- `CertificateListContainer`
unfoldable pub certificate_list_container : {p : Platform} → World p → Node
unfolding certificate_list
certificate_list_container w =
    certificate_list (use_fetch_certificates w).0 (λ id. does (opens_certificate id) ∷ [])
      (does opens_certificate_form ∷ [])
