-- ===== src/Operations/Calls.antt =====
-- The thunks of the program that wait for a response, with their arguments, the API call that each
-- makes, and the type of the body that it expects.
use webca.Common.{String, Bool, Option, none, some, List, [], ◌∷◌}
use webca.Constants.{root_ca, intermediate_ca}
use webca.Types.{
  AuthenticationRequest, AuthenticationResponse, User, InvitationCreationRequest, Invitation,
  CertificateRequest, Certificate, CertificateOptions, Page, Attachment,
}
use webca.Platform.{Platform}
use webca.World.{World}
use webca.Api
use webca.Api.{HttpRequest}

-- `successCallback` and `CreateCallback`
abbrev pub SuccessCallback : Platform → Type 0
SuccessCallback p = Bool → World p → World p

abbrev pub CreateCallback : Platform → Type 0
CreateCallback p = Bool → Option String → World p → World p

pub data Call (p : Platform) : Type 0 where
  sign_up : AuthenticationRequest → SuccessCallback p → Call p
  login : AuthenticationRequest → SuccessCallback p → Call p
  get_user : String → Call p
  create_invitation : InvitationCreationRequest → SuccessCallback p → Call p
  get_invitation : String → Call p
  create_certificate : CertificateRequest → CreateCallback p → Call p
  get_certificate : String → Call p
  get_certificate_signatory : String → Call p
  get_certificates_by_account_id : String → Call p
  get_signing_certificates : String → Call p
  download_certificate_body : String → Bool → Call p
  download_certificate_private_key : String → String → SuccessCallback p → Call p
  get_certificate_options : Call p

-- The types that `getSigningCertificates` asks for.
abbrev pub signing_types : List String
signing_types = root_ca ∷ intermediate_ca ∷ []

module _ {p : Platform} where
  unfoldable pub request : Call p → HttpRequest
  request (sign_up req callback) = Api.signup req
  request (login req callback) = Api.login req
  request (get_user id) = Api.get_user id
  request (create_invitation req callback) = Api.create_invitation req
  request (get_invitation id) = Api.get_invitation id
  request (create_certificate req callback) = Api.create_certificate req
  request (get_certificate id) = Api.get_certificate id
  request (get_certificate_signatory id) = Api.get_certificate id
  request (get_certificates_by_account_id account_id) =
      Api.get_certificates_by_account_id_and_types account_id none
  request (get_signing_certificates account_id) =
      Api.get_certificates_by_account_id_and_types account_id (some signing_types)
  request (download_certificate_body id fullchain) = Api.download_certificate_body id fullchain
  request (download_certificate_private_key id password callback) =
      Api.download_certificate_private_key id password
  request get_certificate_options = Api.get_certificate_options

  abbrev pub Answer : Call p → Type 0
  Answer (sign_up req callback) = AuthenticationResponse
  Answer (login req callback) = AuthenticationResponse
  Answer (get_user id) = User
  Answer (create_invitation req callback) = Invitation
  Answer (get_invitation id) = Invitation
  Answer (create_certificate req callback) = Certificate
  Answer (get_certificate id) = Certificate
  Answer (get_certificate_signatory id) = Certificate
  Answer (get_certificates_by_account_id account_id) = Page Certificate
  Answer (get_signing_certificates account_id) = Page Certificate
  Answer (download_certificate_body id fullchain) = Attachment
  Answer (download_certificate_private_key id password callback) = Attachment
  Answer get_certificate_options = CertificateOptions
