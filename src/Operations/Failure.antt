-- ===== src/Operations/Failure.antt =====
-- What a failed request does: a response with no body, whatever thunk waits for it.
use webca.Common.{◌≡◌, refl, String, ◌<>◌, false, Option, none, some, [], Bool-cases, inl, inr}
use webca.Common.Text.{truthy}
use webca.Common.Decimal.{decimal}
use webca.Common.Dict.{lookup}
use webca.Types.{JsError, ResponseMetadata, HttpResponse}
use webca.State.{AppState, reducer}
use webca.Platform.{Platform}
use webca.World.{World, state}
use webca.Translations.En.{en_us}
use webca.Utils.ApiUtil.{create_api_error, log_error}
use webca.Operations.{resume}
use webca.Operations.Calls.{
  Call, Answer, sign_up, login, get_user, create_invitation, get_invitation, create_certificate,
  get_certificate, get_certificate_signatory, get_certificates_by_account_id,
  get_signing_certificates, download_certificate_body, download_certificate_private_key,
  get_certificate_options, signing_types,
}
use webca.Operations.Errors.{or_else, error_or, report, register_http_error}
use webca.Operations.Users
use webca.Operations.Invitations
use webca.Operations.Certificates

-- The error that is shown: the message of `<name>.<status>`, or that key if there is no message,
-- with the client's error, or one made from the response.
abbrev pub failure_state :
    Platform → Option String → Option JsError → ResponseMetadata → AppState → AppState
failure_state p none e m s = s
failure_state p (some name) e m s =
    let key = name <> ("." <> decimal m.status) in
    record s {
      error = record {
        error = some (record {
          info = or_else (lookup key en_us) key;
          error = error_or e (create_api_error p m);
        });
      };
    }

module _ {p : Platform} where
  -- The name under which a failure is shown to the user; the calls for certificates show none.
  abbrev pub shown_as : Call p → Option String
  shown_as (sign_up req callback) = some "api.signup"
  shown_as (login req callback) = some "api.login"
  shown_as (get_user id) = some "api.getUser"
  shown_as (create_invitation req callback) = some "api.createInvitation"
  shown_as (get_invitation id) = some "api.getInvitation"
  shown_as _ = none

  -- What the caller is told.
  abbrev pub told_failure : Call p → World p → World p
  told_failure (sign_up req callback) = callback false
  told_failure (login req callback) = callback false
  told_failure (create_invitation req callback) = callback false
  told_failure (create_certificate req callback) = callback false none
  told_failure (download_certificate_private_key id password callback) = callback false
  told_failure _ = λ w. w

  -- Two worlds that differ in the store and the log alone.
  abbrev pub SameOutside : World p → World p → Type 0
  SameOutside v w =
      (v.client ≡ w.client)
      × (v.session_storage ≡ w.session_storage)
      × (v.local_storage ≡ w.local_storage)
      × (v.saved ≡ w.saved)
      × (v.locations ≡ w.locations)

  -- The source's handler for a failure of the call.
  abbrev pub handler : Call p → Option JsError → ResponseMetadata → World p → World p
  handler (sign_up req callback) = Users.handle_signup_error req
  handler (login req callback) = Users.handle_login_error req
  handler (get_user id) = Users.handle_get_user_error id
  handler (create_invitation req callback) = Invitations.handle_create_invitation_error req
  handler (get_invitation id) = Invitations.handle_get_invitation_error id
  handler (create_certificate req callback) = Certificates.handle_create_certificate_error
  handler (get_certificate id) = Certificates.handle_get_certificate_error id
  handler (get_certificate_signatory id) = Certificates.handle_get_certificate_error id
  handler (get_certificates_by_account_id id) = Certificates.handle_get_certificates_error id none
  handler (get_signing_certificates id) =
      Certificates.handle_get_certificates_error id (some signing_types)
  handler (download_certificate_body id full) =
      Certificates.handle_download_certificate_body_error id
  handler (download_certificate_private_key id pw callback) =
      Certificates.handle_download_certificate_private_key_error id
  handler get_certificate_options = Certificates.handle_fetch_options_error

  -- The world in which the caller is told of the failure.
  abbrev pub Failed : Option String → Option JsError → ResponseMetadata → World p → World p → Type 0
  Failed name e m w v = (state v ≡ failure_state p name e m (state w)) × SameOutside v w

  report-Failed :
      (name : String) (e : Option JsError) (m : ResponseMetadata) (w : World p)
      → Failed (some name) e m w (report name e m w)
  unfolding register_http_error reducer
  report-Failed name e m w =
      elim (Bool-cases (truthy (lookup (name <> ("." <> decimal m.status)) en_us))) [
        | inl known ↦ rw known (p.get_state-dispatch _ _, (refl, refl, refl, refl, refl))
        | inr unknown ↦ rw unknown (p.get_state-dispatch _ _, (refl, refl, refl, refl, refl))
      ]

  -- `report` behind a log entry.
  logged-Failed :
      (name s : String) (e : Option JsError) (m : ResponseMetadata) (w : World p)
      → Failed (some name) e m w (report name e m (log_error s e m w))
  unfolding log_error
  logged-Failed name s e m w = report-Failed name e m (log_error s e m w)

  log_error-Failed :
      (s : String) (e : Option JsError) (m : ResponseMetadata) (w : World p)
      → Failed none e m w (log_error s e m w)
  unfolding log_error
  log_error-Failed s e m w = (refl, (refl, refl, refl, refl, refl))

  -- A response with no body, to any call, runs the call's error handler and then the caller's
  -- callback, if it has one, which is told of the failure; no further call is made. The handler
  -- leaves the client, the storages, the saved files and the router's history as they were. For a
  -- call for users or invitations it puts into the store the error whose text is the message of
  -- `<name>.<status>`, or that key if it has none, and changes nothing else of the store; for a call
  -- for certificates it changes nothing of the store.
  pub resume_failure :
      (c : Call p) (r : HttpResponse (Answer c)) (w : World p)
      → r.body ≡ none
      → (resume c r w ≡ (told_failure c (handler c r.error r.metadata w), []))
        × Failed (shown_as c) r.error r.metadata w (handler c r.error r.metadata w)
  unfolding resume Users.sign_up Users.login Users.get_user Invitations.create_invitation
      Invitations.get_invitation Certificates.create_certificate Certificates.get_certificate
      Certificates.get_certificate_signatory Certificates.get_certificates_by_account_id
      Certificates.get_signing_certificates Certificates.download_certificate_body
      Certificates.download_certificate_private_key Certificates.get_certificate_options
  resume_failure (sign_up req callback) r w e = (rw e refl, logged-Failed _ _ _ _ w)
  resume_failure (login req callback) r w e = (rw e refl, logged-Failed _ _ _ _ w)
  resume_failure (get_user id) r w e = (rw e refl, logged-Failed _ _ _ _ w)
  resume_failure (create_invitation req callback) r w e = (rw e refl, logged-Failed _ _ _ _ w)
  resume_failure (get_invitation id) r w e = (rw e refl, logged-Failed _ _ _ _ w)
  resume_failure (create_certificate req callback) r w e = (rw e refl, log_error-Failed _ _ _ w)
  resume_failure (get_certificate id) r w e = (rw e refl, log_error-Failed _ _ _ w)
  resume_failure (get_certificate_signatory id) r w e = (rw e refl, log_error-Failed _ _ _ w)
  resume_failure (get_certificates_by_account_id id) r w e = (rw e refl, log_error-Failed _ _ _ w)
  resume_failure (get_signing_certificates id) r w e = (rw e refl, log_error-Failed _ _ _ w)
  resume_failure (download_certificate_body id full) r w e = (rw e refl, log_error-Failed _ _ _ w)
  resume_failure (download_certificate_private_key id pw callback) r w e =
      (rw e refl, log_error-Failed _ _ _ w)
  resume_failure get_certificate_options r w e = (rw e refl, log_error-Failed _ _ _ w)
