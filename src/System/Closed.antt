-- ===== src/System/Closed.antt =====
-- Properties of the tab that every elementary effect keeps, and so every gesture, every effect of a
-- hook and every response.
use webca.Common.{◌≡◌, String, Bool, Option, List, none, some, true, false, if◌then◌else◌}
use webca.Common.Text.{truthy}
use webca.Common.Dict.{lookup}
use webca.Constants.{auth_token_key}
use webca.Types.{JsError, ResponseMetadata, HttpResponse, Attachment, AuthenticationResponse, User}
use webca.State.Actions.{AnyAction}
use webca.Platform.{Platform}
use webca.World.{World, Level, SavedFile, dispatch, write_log, push, set_token}
use webca.Translations.{get_message}
use webca.Translations.En.{en_us}
use webca.Utils.ApiUtil.{log_error, download_attachment}
use webca.Operations.{resume}
use webca.Operations.Calls.{
  Call, Answer, sign_up, login, get_user, create_invitation, get_invitation, create_certificate,
  get_certificate, get_certificate_signatory, get_certificates_by_account_id,
  get_signing_certificates, download_certificate_body, download_certificate_private_key,
  get_certificate_options,
}
use webca.Operations.Errors.{register_http_error, report}
use webca.Operations.Users
use webca.Operations.Invitations
use webca.Operations.Certificates

module _ {p : Platform} where
  pub record Closed (Q : World p → Type 0) : Type 0 where
    pub by_dispatch : (a : AnyAction) (w : World p) → Q w → Q (dispatch a w)
    pub by_log : (l : Level) (m : String) (w : World p) → Q w → Q (write_log l m w)
    pub by_push : (path : String) (w : World p) → Q w → Q (push path w)
    pub by_token :
        (token : String) (w : World p)
        → lookup auth_token_key w.session_storage ≡ some token
        → Q w
        → Q (set_token token w)
    pub by_store :
        (auth : AuthenticationResponse) (w : World p) → Q w → Q (Users.store_auth_response auth w)
    pub by_logout : (user : User) (w : World p) → Q w → Q (Users.logout (some user) w)
    pub by_save : (l : List SavedFile) (w : World p) → Q w → Q (record w { saved = l })

  -- The callback that a call carries keeps the property.
  abbrev pub Tame : (World p → Type 0) → Call p → Type 0
  Tame Q (sign_up req callback) = (b : Bool) (w : World p) → Q w → Q (callback b w)
  Tame Q (login req callback) = (b : Bool) (w : World p) → Q w → Q (callback b w)
  Tame Q (create_invitation req callback) = (b : Bool) (w : World p) → Q w → Q (callback b w)
  Tame Q (create_certificate req callback) =
      (b : Bool) (id : Option String) (w : World p) → Q w → Q (callback b id w)
  Tame Q (download_certificate_private_key id password callback) =
      (b : Bool) (w : World p) → Q w → Q (callback b w)
  Tame Q _ = Unit {0}

abbrev pub with_body : {T : Type 0} → HttpResponse T → Option T → HttpResponse T
with_body r o = record r { body = o }

pub if_keeps :
    {A : Type 0} (P : A → Type 0) (b : Bool) {x y : A} → P x → P y → P (if b then x else y)
if_keeps P true h k = h
if_keeps P false h k = k

module _ {p : Platform} {Q : World p → Type 0} (k : Closed Q) where
  get_message_keeps : (key : String) (w : World p) → Q w → Q (get_message key w).1
  unfolding get_message
  get_message_keeps key w h = if_keeps Q (truthy (lookup key en_us)) h (k.by_log _ _ w h)

  register_http_error_keeps :
      (name : String) (m : ResponseMetadata) (e : JsError) (w : World p)
      → Q w
      → Q (register_http_error name m e w)
  unfolding register_http_error
  register_http_error_keeps name m e w h =
      k.by_dispatch _ _ (if_keeps Q (truthy (lookup _ en_us)) h (k.by_log _ _ w h))

  log_error_keeps :
      (s : String) (e : Option JsError) (m : ResponseMetadata) (w : World p)
      → Q w
      → Q (log_error s e m w)
  unfolding log_error
  log_error_keeps s e m w h = k.by_log _ _ w h

  download_attachment_keeps : (a : Attachment) (w : World p) → Q w → Q (download_attachment a w)
  unfolding download_attachment
  download_attachment_keeps a w h = k.by_log _ _ _ (k.by_save _ w h)

  pub logout_keeps : (u : Option User) (w : World p) → Q w → Q (Users.logout u w)
  unfolding Users.logout
  logout_keeps none w h = k.by_log _ _ w h
  logout_keeps (some u) w h = k.by_logout u w h

  load_signatory_keeps :
      (id : Option String) (w : World p) → Q w → Q (Certificates.load_signatory id w).0
  unfolding Certificates.load_signatory
  load_signatory_keeps id w h =
      if_keeps {A = World p × List (Call p)} (λ r. Q r.0) (truthy id) h (k.by_dispatch _ w h)

  failure_keeps :
      (name s : String) (e : Option JsError) (m : ResponseMetadata) (w : World p)
      → Q w
      → Q (report name e m (log_error s e m w))
  unfolding log_error
  failure_keeps name s e m w h = register_http_error_keeps name m _ _ (k.by_log _ _ w h)

  -- The rest of a thunk keeps the property, if its callback does.
  pub resume_keeps :
      (c : Call p) (r : HttpResponse (Answer c)) (w : World p) → Tame Q c → Q w → Q (resume c r w).0
  unfolding resume Users.sign_up Users.login Users.get_user Invitations.create_invitation
      Invitations.get_invitation Certificates.create_certificate Certificates.get_certificate
      Certificates.get_certificate_signatory Certificates.get_certificates_by_account_id
      Certificates.get_signing_certificates Certificates.download_certificate_body
      Certificates.download_certificate_private_key Certificates.get_certificate_options
  resume_keeps (sign_up req callback) r w t h =
      elim r.body as (λ o. Q (Users.sign_up req callback (with_body r o) w)) [
        | none ↦ t false _ (failure_keeps _ _ _ _ w h)
        | some body ↦ t true _ (k.by_dispatch _ _ (k.by_store body _ (k.by_log _ _ w h)))
      ]
  resume_keeps (login req callback) r w t h =
      elim r.body as (λ o. Q (Users.login req callback (with_body r o) w)) [
        | none ↦ t false _ (failure_keeps _ _ _ _ w h)
        | some body ↦ t true _ (k.by_dispatch _ _ (k.by_store body _ (k.by_log _ _ w h)))
      ]
  resume_keeps (get_user id) r w t h =
      elim r.body as (λ o. Q (Users.get_user id (with_body r o) w)) [
        | none ↦ failure_keeps _ _ _ _ w h
        | some body ↦ k.by_dispatch _ _ (k.by_log _ _ w h)
      ]
  resume_keeps (create_invitation req callback) r w t h =
      elim r.body as (λ o. Q (Invitations.create_invitation req callback (with_body r o) w)) [
        | none ↦ t false _ (failure_keeps _ _ _ _ w h)
        | some body ↦ t true _ (k.by_log _ _ w h)
      ]
  resume_keeps (get_invitation id) r w t h =
      elim r.body as (λ o. Q (Invitations.get_invitation id (with_body r o) w)) [
        | none ↦ failure_keeps _ _ _ _ w h
        | some body ↦ k.by_dispatch _ _ (k.by_log _ _ w h)
      ]
  resume_keeps (create_certificate req callback) r w t h =
      elim r.body as (λ o. Q (Certificates.create_certificate req callback (with_body r o) w).0) [
        | none ↦ t false none _ (log_error_keeps _ _ _ w h)
        | some body ↦
            t true (some body.id) _ (load_signatory_keeps body.signatory_id _ (k.by_dispatch _ w h))
      ]
  resume_keeps (get_certificate id) r w t h =
      elim r.body as (λ o. Q (Certificates.get_certificate id (with_body r o) w).0) [
        | none ↦ log_error_keeps _ _ _ w h
        | some body ↦ load_signatory_keeps body.signatory_id _ (k.by_dispatch _ w h)
      ]
  resume_keeps (get_certificate_signatory id) r w t h =
      elim r.body as (λ o. Q (Certificates.get_certificate_signatory id (with_body r o) w)) [
        | none ↦ log_error_keeps _ _ _ w h
        | some body ↦ k.by_dispatch _ w h
      ]
  resume_keeps (get_certificates_by_account_id id) r w t h =
      elim r.body as (λ o. Q (Certificates.get_certificates_by_account_id id (with_body r o) w)) [
        | none ↦ log_error_keeps _ _ _ w h
        | some body ↦ k.by_dispatch _ w h
      ]
  resume_keeps (get_signing_certificates id) r w t h =
      elim r.body as (λ o. Q (Certificates.get_signing_certificates id (with_body r o) w)) [
        | none ↦ log_error_keeps _ _ _ w h
        | some body ↦ k.by_dispatch _ w h
      ]
  resume_keeps (download_certificate_body id full) r w t h =
      elim r.body as (λ o. Q (Certificates.download_certificate_body id full (with_body r o) w)) [
        | none ↦ log_error_keeps _ _ _ w h
        | some body ↦ download_attachment_keeps body w h
      ]
  resume_keeps (download_certificate_private_key id pw callback) r w t h =
      elim r.body
        as (λ o.
          Q (Certificates.download_certificate_private_key id pw callback (with_body r o) w)) [
            | none ↦ t false _ (log_error_keeps _ _ _ w h)
            | some body ↦ download_attachment_keeps body _ (t true w h)
          ]
  resume_keeps get_certificate_options r w t h =
      elim r.body as (λ o. Q (Certificates.get_certificate_options (with_body r o) w)) [
        | none ↦ log_error_keeps _ _ _ w h
        | some body ↦ k.by_dispatch _ w h
      ]
