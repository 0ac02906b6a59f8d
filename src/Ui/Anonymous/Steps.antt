-- ===== src/Ui/Anonymous/Steps.antt =====
-- Every step of the app keeps a tab anonymous, if the server lets nobody in.
use webca.Common.{
  ◌≡◌, refl, ap, ◌∙◌, inl, inr, String, Option, none, is_some, List, [], All, Bool-cases,
}
use webca.Common.Text.{truthy}
use webca.Common.Dict.{lookup}
use webca.Constants.{user_id_key, auth_token_key}
use webca.Types.{HttpResponse, ErrorState}
use webca.State.{reducer}
use webca.State.Actions.{on_error, remove_error}
use webca.Platform.{Platform}
use webca.World.{World, Level, state, push, write_log, dispatch}
use webca.Operations.{resume}
use webca.Operations.Calls.{
  Call, Answer, sign_up, login, get_user, create_invitation, get_invitation, create_certificate,
  get_certificate, get_certificate_signatory, get_certificates_by_account_id,
  get_signing_certificates, download_certificate_body, download_certificate_private_key,
  get_certificate_options,
}
use webca.Operations.Failure.{resume_failure}
use webca.Hooks.{restore_session, use_is_authenticated, use_remove_error}
use webca.Containers.{login_callback, on_sign_up, handle_login, handle_signup}
use webca.System.{
  Event, logs_in, signs_up, logs_out, invites, opens_invitation_form, requests_certificate,
  opens_certificate, opens_certificate_form, downloads, downloads_private_key, selects_menu_item,
  authenticates, shows_certificate, shows_options, lists_certificates, searches_signatories,
  dismisses_error, visits, logs_form, hears_check, closes_down, perform,
}
use webca.Pages.Gesture.{
  Gesture, does, follows, logs, sets_field, changes_form, changes_search, picks_key_size,
  types_duration, changes_modal,
}
use webca.Pages.Offered.{IsPublic}
use webca.Ui.{act}
use webca.Ui.Anonymous.{IsAnonymous, IsEntry, LetsNobodyIn}
use webca.Ui.Steps.{Answers}

module _ {p : Platform} where
  -- A tab that is anonymous, and calls that are logins or sign-ups.
  abbrev pub IsOutside : World p × List (Call p) → Type 0
  IsOutside r = IsAnonymous r.0 × All IsEntry r.1

  pub push-IsAnonymous : (path : String) (w : World p) → IsAnonymous w → IsAnonymous (push path w)
  push-IsAnonymous path w h = record {
    nobody = h.nobody;
    no_token = h.no_token;
    no_header = h.no_header;
  }

  log-IsAnonymous :
      (l : Level) (m : String) (w : World p) → IsAnonymous w → IsAnonymous (write_log l m w)
  log-IsAnonymous l m w h = record {
    nobody = h.nobody;
    no_token = h.no_token;
    no_header = h.no_header;
  }

  -- A world whose user, storage and client are the same.
  same-IsAnonymous :
      (v w : World p)
      → (state v).user.loaded ≡ (state w).user.loaded
      → v.session_storage ≡ w.session_storage
      → v.client ≡ w.client
      → IsAnonymous w
      → IsAnonymous v
  same-IsAnonymous v w user storage client h = record {
    nobody = user ∙ h.nobody;
    no_token = ap (lookup auth_token_key) storage ∙ h.no_token;
    no_header = ap (λ c. lookup "Authorization" (p.get_headers c)) client ∙ h.no_header;
  }

  removed-IsAnonymous :
      (w : World p) → IsAnonymous w → IsAnonymous (dispatch (on_error remove_error) w)
  unfolding reducer
  removed-IsAnonymous w h =
      same-IsAnonymous _ w (ap (λ s. s.user.loaded) (p.get_state-dispatch _ _)) refl refl h

  pub dismiss-IsAnonymous :
      (seen : ErrorState) (w : World p) → IsAnonymous w → IsAnonymous (use_remove_error seen w)
  unfolding use_remove_error
  dismiss-IsAnonymous seen w h = elim (Bool-cases (is_some seen.error)) [
    | inl there ↦ rw there (removed-IsAnonymous w h)
    | inr gone ↦ rw gone h
  ]

  nothing_stored : (id : Option String) (w : World p) → restore_session id none w ≡ (w, [])
  unfolding restore_session
  nothing_stored id w = elim (Bool-cases (truthy id)) [ inl e ↦ rw e refl | inr e ↦ rw e refl ]

  pub authenticates-IsOutside : (w : World p) → IsAnonymous w → IsOutside (perform authenticates w)
  unfolding perform use_is_authenticated
  authenticates-IsOutside w h =
      rw (h.no_token, nothing_stored (lookup user_id_key w.session_storage) w) (h, tt)

  -- A refused login or sign-up.
  pub resume-IsOutside :
      (Gives : Answers p) (c : Call p) (r : HttpResponse (Answer c)) (w : World p)
      → LetsNobodyIn Gives
      → Gives c r
      → IsEntry c
      → IsAnonymous w
      → IsOutside (resume c r w)
  unfolding login_callback on_sign_up
  resume-IsOutside Gives (login req callback) r w refuses given same h =
      let (told, (kept, (client, storage, _, _, _))) =
        resume_failure (login req callback) r w (refuses.by_login req callback r given) in
      rw (told, same) (same-IsAnonymous _ w (ap (λ s. s.user.loaded) kept) storage client h, tt)
  resume-IsOutside Gives (sign_up req callback) r w refuses given same h =
      let (told, (kept, (client, storage, _, _, _))) =
        resume_failure (sign_up req callback) r w (refuses.by_sign_up req callback r given) in
      rw (told, same) (same-IsAnonymous _ w (ap (λ s. s.user.loaded) kept) storage client h, tt)
  resume-IsOutside Gives (get_user id) r w refuses given none_such h = absurd none_such
  resume-IsOutside Gives (create_invitation req cb) r w refuses given none_such h = absurd none_such
  resume-IsOutside Gives (get_invitation id) r w refuses given none_such h = absurd none_such
  resume-IsOutside Gives (create_certificate req cb) r w refuses given none_such h =
      absurd none_such
  resume-IsOutside Gives (get_certificate id) r w refuses given none_such h = absurd none_such
  resume-IsOutside Gives (get_certificate_signatory id) r w refuses given none_such h =
      absurd none_such
  resume-IsOutside Gives (get_certificates_by_account_id id) r w refuses given none_such h =
      absurd none_such
  resume-IsOutside Gives (get_signing_certificates id) r w refuses given none_such h =
      absurd none_such
  resume-IsOutside Gives (download_certificate_body id full) r w refuses given none_such h =
      absurd none_such
  resume-IsOutside Gives (download_certificate_private_key id pw cb) r w refuses given none_such h =
      absurd none_such
  resume-IsOutside Gives get_certificate_options r w refuses given none_such h = absurd none_such

  -- What the pages for somebody who is not logged in offer.
  event-IsOutside :
      (e : Event) (w : World p) → IsPublic (does e) → IsAnonymous w → IsOutside (perform e w)
  unfolding perform handle_login handle_signup
  event-IsOutside (logs_in req) w public h = (h, (refl, tt))
  event-IsOutside (signs_up req) w public h = (h, (refl, tt))
  event-IsOutside (dismisses_error seen) w public h = (dismiss-IsAnonymous seen w h, tt)
  event-IsOutside logs_out w public h = absurd public
  event-IsOutside (invites req) w public h = absurd public
  event-IsOutside opens_invitation_form w public h = absurd public
  event-IsOutside (requests_certificate req) w public h = absurd public
  event-IsOutside (opens_certificate id) w public h = absurd public
  event-IsOutside opens_certificate_form w public h = absurd public
  event-IsOutside (downloads full) w public h = absurd public
  event-IsOutside (downloads_private_key password) w public h = absurd public
  event-IsOutside (selects_menu_item key) w public h = absurd public
  event-IsOutside authenticates w public h = absurd public
  event-IsOutside (shows_certificate id) w public h = absurd public
  event-IsOutside shows_options w public h = absurd public
  event-IsOutside lists_certificates w public h = absurd public
  event-IsOutside searches_signatories w public h = absurd public
  event-IsOutside (visits path) w public h = absurd public
  event-IsOutside (logs_form text) w public h = absurd public
  event-IsOutside (hears_check service outcome) w public h = absurd public
  event-IsOutside closes_down w public h = absurd public

  pub act-IsOutside : (g : Gesture) (w : World p) → IsPublic g → IsAnonymous w → IsOutside (act g w)
  unfolding act perform
  act-IsOutside (does e) w public h = event-IsOutside e w public h
  act-IsOutside (follows path) w public h = (push-IsAnonymous path w h, tt)
  act-IsOutside (logs text) w public h = (log-IsAnonymous _ text w h, tt)
  act-IsOutside (sets_field key value) w public h = absurd public
  act-IsOutside (changes_form i) w public h = absurd public
  act-IsOutside (changes_search i) w public h = absurd public
  act-IsOutside (picks_key_size value) w public h = absurd public
  act-IsOutside (types_duration typed) w public h = absurd public
  act-IsOutside (changes_modal i) w public h = absurd public
