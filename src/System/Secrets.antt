-- ===== src/System/Secrets.antt =====
-- Passwords stay in the requests: what the tab holds, logs and saves does not depend on them.
pub mod Steps
use mathlib.Core.Option
use mathlib.Core.List.{map-append}
use webca.Common.{
  ◌≡◌, refl, sym, ap, ◌∙◌, String, Bool, true, false, not, Option, none, some, List, [], ◌∷◌, ◌++◌,
  map, if◌then◌else◌, ◌||◌, Bool-cases, inl, inr,
}
use webca.Common.Text.{truthy}
use webca.Types.{AuthenticationRequest, CertificateRequest, Certificate, Signatory, HttpResponse}
use webca.Platform.{Platform}
use webca.World.{World, state}
use webca.Hooks.{
  use_is_authenticated, restore_session, fetch_selected_certificate, fetch_certificate_options,
  fetch_certificates, fetch_signatories, for_account, use_account_id,
}
use webca.Containers.{
  handle_login, handle_signup, handle_logout, request_invitation, create_new_invitation,
  request_certificate, open_certificate, create_new_certificate, download_certificate,
  download_private_key, select_menu_item, on_certificate,
}
use webca.Operations.{resume}
use webca.Operations.Calls.{
  Call, Answer, sign_up, login, get_user, create_invitation, get_invitation, create_certificate,
  get_certificate, get_certificate_signatory, get_certificates_by_account_id,
  get_signing_certificates, download_certificate_body, download_certificate_private_key,
  get_certificate_options,
}
use webca.Operations.Certificates
use webca.Operations.Users
use webca.System.Closed.{with_body}
use webca.System.{
  Event, logs_in, signs_up, logs_out, invites, opens_invitation_form, requests_certificate,
  opens_certificate, opens_certificate_form, downloads, downloads_private_key, selects_menu_item,
  authenticates, shows_certificate, shows_options, lists_certificates, searches_signatories,
  dismisses_error, visits, logs_form, hears_check, closes_down, perform, System, Step, event,
  response, Reach, here, next,
}

module _ (secret : String) where
  abbrev hide_login : AuthenticationRequest → AuthenticationRequest
  hide_login req = record req { password = secret }

  abbrev hide_signatory : Signatory → Signatory
  hide_signatory s = record s { password = secret }

  abbrev hide_certificate : CertificateRequest → CertificateRequest
  hide_certificate req = record req {
    password = secret;
    signatory = Option.map hide_signatory req.signatory;
  }

  -- The same gesture, and the same call, with the password `secret` for every password.
  abbrev pub hide_event : Event → Event
  hide_event (logs_in req) = logs_in (hide_login req)
  hide_event (signs_up req) = signs_up (hide_login req)
  hide_event (requests_certificate req) = requests_certificate (hide_certificate req)
  hide_event (downloads_private_key password) = downloads_private_key secret
  hide_event e = e

  module _ {p : Platform} where
    abbrev pub hide : Call p → Call p
    hide (sign_up req callback) = sign_up (hide_login req) callback
    hide (login req callback) = login (hide_login req) callback
    hide (create_certificate req callback) = create_certificate (hide_certificate req) callback
    hide (download_certificate_private_key id password callback) =
        download_certificate_private_key id secret callback
    hide c = c

    abbrev pub hide_all : System p → System p
    hide_all s = record { world = s.world; pending = map hide s.pending }

    -- The answer to the call is an answer to it with another password.
    pub same_answer : (c : Call p) → HttpResponse (Answer c) → HttpResponse (Answer (hide c))
    same_answer (sign_up req callback) r = r
    same_answer (login req callback) r = r
    same_answer (get_user id) r = r
    same_answer (create_invitation req callback) r = r
    same_answer (get_invitation id) r = r
    same_answer (create_certificate req callback) r = r
    same_answer (get_certificate id) r = r
    same_answer (get_certificate_signatory id) r = r
    same_answer (get_certificates_by_account_id id) r = r
    same_answer (get_signing_certificates id) r = r
    same_answer (download_certificate_body id full) r = r
    same_answer (download_certificate_private_key id password callback) r = r
    same_answer get_certificate_options r = r

    abbrev pub Hides : World p × List (Call p) → World p × List (Call p) → Type 0
    Hides r r' = r' ≡ (r.0, map hide r.1)

    load_signatory-hide :
        (id : Option String) (w : World p)
        → map hide (Certificates.load_signatory id w).1 ≡ (Certificates.load_signatory id w).1
    unfolding Certificates.load_signatory
    load_signatory-hide id w = elim (Bool-cases (truthy id)) [
      | inl e ↦ rw e refl
      | inr e ↦ rw e refl
    ]

    loaded_signatory :
        (f : World p → World p) (id : Option String) (w : World p)
        → Hides
            (f (Certificates.load_signatory id w).0, (Certificates.load_signatory id w).1)
            (f (Certificates.load_signatory id w).0, (Certificates.load_signatory id w).1)
    loaded_signatory f id w =
        ap (λ cs. (f (Certificates.load_signatory id w).0, cs)) (sym (load_signatory-hide id w))

    pub resume-hide :
        (c : Call p) (r : HttpResponse (Answer c)) (w : World p)
        → Hides (resume c r w) (resume (hide c) (same_answer c r) w)
    unfolding same_answer resume Users.login Users.sign_up Users.handle_login_error
        Users.handle_signup_error Certificates.download_certificate_private_key
        Certificates.create_certificate Certificates.get_certificate
    resume-hide (sign_up req callback) r w = refl
    resume-hide (login req callback) r w = refl
    resume-hide (get_user id) r w = refl
    resume-hide (create_invitation req callback) r w = refl
    resume-hide (get_invitation id) r w = refl
    resume-hide (create_certificate req callback) r w =
        elim r.body
          as (λ o.
            Hides (Certificates.create_certificate req callback (with_body r o) w)
              (Certificates.create_certificate (hide_certificate req) callback (with_body r o) w)) [
                | none ↦ refl
                | some body ↦ loaded_signatory (callback true (some body.id)) body.signatory_id _
              ]
    resume-hide (get_certificate id) r w =
        elim r.body
          as (λ o.
            Hides (Certificates.get_certificate id (with_body r o) w)
              (Certificates.get_certificate id (with_body r o) w)) [
                | none ↦ refl
                | some body ↦ loaded_signatory (λ v. v) body.signatory_id _
              ]
    resume-hide (get_certificate_signatory id) r w = refl
    resume-hide (get_certificates_by_account_id id) r w = refl
    resume-hide (get_signing_certificates id) r w = refl
    resume-hide (download_certificate_body id full) r w = refl
    resume-hide (download_certificate_private_key id password callback) r w = refl
    resume-hide get_certificate_options r w = refl
