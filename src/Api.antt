-- ===== src/Api.antt =====
-- web-app/src/api: the requests of accountApi.ts, userApi.ts, invitationApi.ts and
-- certificateApi.ts, as what is handed to `httpclient.get` or `httpclient.post`.
pub mod Query
use webca.Common.{String, ◌<>◌, Bool, true, false, Option, none, some, List, [], ◌∷◌, map}
use webca.Common.Text.{join}
use webca.Common.Dict.{Dict}
use webca.Types.{AuthenticationRequest, CertificateRequest, InvitationCreationRequest}

pub data Method : Type 0 where
  get post : Method

pub data RequestBody : Type 0 where
  no_body : RequestBody
  authentication : AuthenticationRequest → RequestBody
  certificate : CertificateRequest → RequestBody
  invitation : InvitationCreationRequest → RequestBody

-- The method of the client that is called, and its arguments.
pub record HttpRequest : Type 0 where
  pub method : Method
  pub url : String
  pub headers : Dict
  pub body : RequestBody

abbrev pub get_url : String → HttpRequest
get_url url = record { method = get; url = url; headers = []; body = no_body }

abbrev post_url : String → RequestBody → HttpRequest
post_url url body = record { method = post; url = url; headers = []; body = body }

abbrev pub certificates_url : String
certificates_url = "/api/v1/certificates"

abbrev pub check_api_server : HttpRequest
check_api_server = get_url "/api/health"

abbrev pub check_httplogger : HttpRequest
check_httplogger = get_url "/api/httplogger/health"

pub signup : AuthenticationRequest → HttpRequest
signup req = post_url "/api/v1/signup" (authentication req)

pub login : AuthenticationRequest → HttpRequest
login req = post_url "/api/v1/login" (authentication req)

pub get_user : String → HttpRequest
get_user id = get_url ("/api/v1/users/" <> id)

pub create_invitation : InvitationCreationRequest → HttpRequest
create_invitation req = post_url "/api/v1/invitations" (invitation req)

pub get_invitation : String → HttpRequest
get_invitation id = get_url ("/api/v1/invitations/" <> id)

pub create_certificate : CertificateRequest → HttpRequest
create_certificate req = post_url certificates_url (certificate req)

pub get_certificate : String → HttpRequest
get_certificate id = get_url (certificates_url <> ("/" <> id))

unfoldable pub create_certificates_url : String → Option (List String) → String
unfolding join
create_certificates_url account_id none = certificates_url <> ("?accountId=" <> account_id)
create_certificates_url account_id (some types) =
    let url = certificates_url <> ("?accountId=" <> account_id) in
    url <> ("&" <> join "&" (map (λ t. "type=" <> t) types))

pub get_certificates_by_account_id_and_types : String → Option (List String) → HttpRequest
get_certificates_by_account_id_and_types account_id types =
    get_url (create_certificates_url account_id types)

pub get_certificate_options : HttpRequest
get_certificate_options = get_url "/api/v1/certificate-options"

abbrev bool_text : Bool → String
bool_text true = "true"
bool_text false = "false"

pub download_certificate_body : String → Bool → HttpRequest
download_certificate_body id fullchain =
    get_url (certificates_url <> ("/" <> (id <> ("/body?fullchain=" <> bool_text fullchain))))

pub download_certificate_private_key : String → String → HttpRequest
download_certificate_private_key id password =
    record (get_url (certificates_url <> ("/" <> (id <> "/private-key")))) {
      headers = ("X-Private-Key-Password", password) ∷ [];
    }
