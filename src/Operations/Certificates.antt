-- ===== src/Operations/Certificates.antt =====
-- state/certificates/operations.ts; each thunk from its response on. Two of them dispatch
-- `getCertificateSignatory`, which issues a request of its own: it is returned.
use webca.Common.{String, ◌<>◌, Bool, true, false, Option, none, some, List, [], ◌∷◌, if◌then◌else◌}
use webca.Common.Text.{truthy, join}
use webca.Types.{
  CertificateRequest, Certificate, CertificateOptions, Page, Attachment, JsError, ResponseMetadata,
  HttpResponse,
}
use webca.State.Actions.{
  on_certificates, select_certificate, add_selected_signatory, remove_selected_signatory,
  add_certificates, add_signing_certificates, add_options,
}
use webca.Platform.{Platform}
use webca.World.{World, dispatch}
use webca.Utils.ApiUtil.{log_error, download_attachment, shown}
use webca.Operations.Calls.{Call, SuccessCallback, CreateCallback, signing_types}
use webca.Operations.Calls

-- `${types}` for `Optional<string[]>`
abbrev pub shown_types : Option (List String) → String
shown_types none = "undefined"
shown_types (some types) = join "," types

module _ {p : Platform} where
  unfoldable pub handle_create_certificate_error :
      Option JsError → ResponseMetadata → World p → World p
  handle_create_certificate_error = log_error "Failed create certificate."

  unfoldable pub handle_get_certificate_error :
      String → Option JsError → ResponseMetadata → World p → World p
  handle_get_certificate_error id = log_error ("Failed fetch certificate by id=" <> (id <> "."))

  unfoldable pub handle_get_certificates_error :
      String → Option (List String) → Option JsError → ResponseMetadata → World p → World p
  handle_get_certificates_error account_id types = log_error (
      "Failed fetch certificates by accountId="
      <> (account_id <> (" and types=" <> shown_types types)))

  unfoldable pub handle_download_certificate_body_error :
      String → Option JsError → ResponseMetadata → World p → World p
  handle_download_certificate_body_error id =
      log_error ("Failed fetch certificate body by id=" <> id)

  unfoldable pub handle_download_certificate_private_key_error :
      String → Option JsError → ResponseMetadata → World p → World p
  handle_download_certificate_private_key_error id =
      log_error ("Failed fetch certificate private key by id=" <> id)

  unfoldable pub handle_fetch_options_error : Option JsError → ResponseMetadata → World p → World p
  handle_fetch_options_error = log_error "Failed get certificate options."

  -- `if (body.signatoryId) dispatch(getCertificateSignatory(…)) else dispatch(remove…())`
  unfoldable pub load_signatory : Option String → World p → World p × List (Call p)
  load_signatory id w =
      if truthy id
      then (w, Calls.get_certificate_signatory (shown id) ∷ [])
      else (dispatch (on_certificates remove_selected_signatory) w, [])

  unfoldable pub create_certificate :
      CertificateRequest
      → CreateCallback p
      → HttpResponse Certificate
      → World p
      → World p × List (Call p)
  unfolding load_signatory handle_create_certificate_error
  create_certificate req callback r w = elim r.body [
    | none ↦ (callback false none (handle_create_certificate_error r.error r.metadata w), [])
    | some body ↦
        let (w', calls) =
          load_signatory body.signatory_id
            (dispatch (on_certificates (select_certificate body)) w) in
        (callback true (some body.id) w', calls)
  ]

  unfoldable pub get_certificate :
      String → HttpResponse Certificate → World p → World p × List (Call p)
  unfolding load_signatory handle_get_certificate_error
  get_certificate id r w = elim r.body [
    | none ↦ (handle_get_certificate_error id r.error r.metadata w, [])
    | some body ↦
        load_signatory body.signatory_id (dispatch (on_certificates (select_certificate body)) w)
  ]

  unfoldable pub get_certificates_by_account_id :
      String → HttpResponse (Page Certificate) → World p → World p
  unfolding handle_get_certificates_error
  get_certificates_by_account_id account_id r w = elim r.body [
    | none ↦ handle_get_certificates_error account_id none r.error r.metadata w
    | some body ↦ dispatch (on_certificates (add_certificates body)) w
  ]

  -- The type of `results` has no `undefined`, so `if (body.results)` holds.
  unfoldable pub get_signing_certificates :
      String → HttpResponse (Page Certificate) → World p → World p
  unfolding handle_get_certificates_error
  get_signing_certificates account_id r w = elim r.body [
    | none ↦ handle_get_certificates_error account_id (some signing_types) r.error r.metadata w
    | some body ↦ dispatch (on_certificates (add_signing_certificates body.results)) w
  ]

  unfoldable pub download_certificate_body :
      String → Bool → HttpResponse Attachment → World p → World p
  unfolding handle_download_certificate_body_error
  download_certificate_body id fullchain r w = elim r.body [
    | none ↦ handle_download_certificate_body_error id r.error r.metadata w
    | some body ↦ download_attachment body w
  ]

  unfoldable pub download_certificate_private_key :
      String → String → SuccessCallback p → HttpResponse Attachment → World p → World p
  unfolding handle_download_certificate_private_key_error
  download_certificate_private_key id password callback r w = elim r.body [
    | none ↦ callback false (handle_download_certificate_private_key_error id r.error r.metadata w)
    | some body ↦ download_attachment body (callback true w)
  ]

  unfoldable pub get_certificate_options : HttpResponse CertificateOptions → World p → World p
  unfolding handle_fetch_options_error
  get_certificate_options r w = elim r.body [
    | none ↦ handle_fetch_options_error r.error r.metadata w
    | some body ↦ dispatch (on_certificates (add_options body)) w
  ]

  unfoldable pub get_certificate_signatory : String → HttpResponse Certificate → World p → World p
  unfolding handle_get_certificate_error
  get_certificate_signatory id r w = elim r.body [
    | none ↦ handle_get_certificate_error id r.error r.metadata w
    | some body ↦ dispatch (on_certificates (add_selected_signatory body)) w
  ]
