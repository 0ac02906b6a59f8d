-- ===== src/Operations.antt =====
-- operations.ts of state/user, state/certificates, state/invitation and state/error, as run by the
-- middleware of redux-thunk. A thunk that calls the API stops at its `await`: up to there it does
-- nothing but issue the request. Such a thunk is a `Call`, `request` is what it sends, and `resume`
-- is the rest of its body, run when the response comes. `resume` returns the calls that the rest
-- has dispatched in turn. The other thunks run to their end at once.
pub mod Calls
pub mod Errors
pub mod Users
pub mod Invitations
pub mod Certificates
pub mod Failure
use webca.Common.{true, false, some, List, []}
use webca.Types.{HttpResponse}
use webca.Platform.{Platform}
use webca.World.{World}
use Calls.{
  Call, Answer, sign_up, login, get_user, create_invitation, get_invitation, create_certificate,
  get_certificate, get_certificate_signatory, get_certificates_by_account_id,
  get_signing_certificates, download_certificate_body, download_certificate_private_key,
  get_certificate_options,
}
use Users
use Invitations
use Certificates

module _ {p : Platform} where
  unfoldable pub resume : (c : Call p) → HttpResponse (Answer c) → World p → World p × List (Call p)
  resume (sign_up req callback) r w = (Users.sign_up req callback r w, [])
  resume (login req callback) r w = (Users.login req callback r w, [])
  resume (get_user id) r w = (Users.get_user id r w, [])
  resume (create_invitation req callback) r w = (Invitations.create_invitation req callback r w, [])
  resume (get_invitation id) r w = (Invitations.get_invitation id r w, [])
  resume (create_certificate req callback) r w = Certificates.create_certificate req callback r w
  resume (get_certificate id) r w = Certificates.get_certificate id r w
  resume (get_certificate_signatory id) r w = (Certificates.get_certificate_signatory id r w, [])
  resume (get_certificates_by_account_id account_id) r w =
      (Certificates.get_certificates_by_account_id account_id r w, [])
  resume (get_signing_certificates account_id) r w =
      (Certificates.get_signing_certificates account_id r w, [])
  resume (download_certificate_body id fullchain) r w =
      (Certificates.download_certificate_body id fullchain r w, [])
  resume (download_certificate_private_key id password callback) r w =
      (Certificates.download_certificate_private_key id password callback r w, [])
  resume get_certificate_options r w = (Certificates.get_certificate_options r w, [])
