-- ===== src/System/Reachable.antt =====
-- What every elementary effect keeps holds in every reachable system.
use mathlib.Core.Bool.{true≢false}
use webca.Common.{
  ◌≡◌, refl, sym, Bool, true, false, if◌then◌else◌, String, Option, none, some, List, [], ◌++◌, not,
  leb, All, All-append, All-middle, is_some, ◌||◌,
}
use webca.Common.Text.{truthy}
use webca.Common.Dict.{lookup}
use webca.Constants.{user_id_key, auth_token_key}
use webca.Types.{Certificate, HttpResponse}
use webca.Platform.{Platform}
use webca.World.{World, state, set_token}
use webca.Utils.ApiUtil.{shown}
use webca.Operations.{resume}
use webca.Operations.Calls.{Call, Answer, get_certificates_by_account_id, get_signing_certificates}
use webca.Operations.Certificates
use webca.Startup.{answers, fails, run_check, check_health, check_health_failed, teardown}
use webca.Hooks.{
  for_account, fetch_certificate_options, fetch_certificates, fetch_signatories, restore_session,
  use_is_authenticated, fetch_selected_certificate, use_remove_error, use_account_id,
}
use webca.Containers.{
  login_callback, on_sign_up, on_invitation_created, on_create_success, on_certificate,
  handle_login, handle_signup, request_invitation, create_new_invitation, request_certificate,
  open_certificate, create_new_certificate, download_certificate, download_private_key,
  handle_logout, select_menu_item,
}
use webca.System.Closed.{Closed, Tame, if_keeps, with_body, resume_keeps, logout_keeps}
use webca.System.{
  Event, logs_in, signs_up, logs_out, invites, opens_invitation_form, requests_certificate,
  opens_certificate, opens_certificate_form, downloads, downloads_private_key, selects_menu_item,
  authenticates, shows_certificate, shows_options, lists_certificates, searches_signatories,
  dismisses_error, visits, logs_form, hears_check, closes_down, perform, System, Step, event,
  response, Reach, here, next,
}

module _ {p : Platform} {Q : World p → Type 0} (k : Closed Q) where
  -- A world that has the property, and calls whose callbacks keep it.
  abbrev Keeps : World p × List (Call p) → Type 0
  Keeps r = Q r.0 × All (Tame Q) r.1

  for_account-Keeps :
      (id : Option String) (call : String → Call p) (w : World p)
      → ((s : String) → Tame Q (call s))
      → Q w
      → Keeps (for_account id call w)
  for_account-Keeps none call w t h = (h, tt)
  for_account-Keeps (some id) call w t h = if_keeps Keeps (truthy (some id)) (h, (t id, tt)) (h, tt)

  on_certificate-Keeps :
      (c : Option Certificate) (call : Certificate → Call p) (w : World p)
      → ((c : Certificate) → Tame Q (call c))
      → Q w
      → Keeps (on_certificate c call w)
  on_certificate-Keeps none call w t h = (h, tt)
  on_certificate-Keeps (some c) call w t h = (h, (t c, tt))

  with_token :
      (token : Option String) (w : World p)
      → token ≡ lookup auth_token_key w.session_storage
      → truthy token ≡ true
      → Q w
      → Q (set_token (shown token) w)
  with_token none w same filled h = absurd (true≢false (sym filled))
  with_token (some token) w same filled h = k.by_token token w (sym same) h

  restore_cases :
      (a b : Bool) (r : World p × List (Call p)) (w : World p)
      → Q w
      → (b ≡ true → Keeps r)
      → Keeps (if not a || not b then (w, []) else r)
  restore_cases true true r w h kept = kept refl
  restore_cases true false r w h kept = (h, tt)
  restore_cases false b r w h kept = (h, tt)

  restore_session-Keeps :
      (id token : Option String) (w : World p)
      → token ≡ lookup auth_token_key w.session_storage
      → Q w
      → Keeps (restore_session id token w)
  unfolding restore_session
  restore_session-Keeps id token w same h =
      restore_cases (truthy id) (truthy token) _ w h
        (λ filled. (with_token token w same filled h, (tt, tt)))

  pub perform-Keeps : (e : Event) (w : World p) → Q w → Keeps (perform e w)
  unfolding perform handle_login handle_signup handle_logout request_invitation
      create_new_invitation request_certificate open_certificate create_new_certificate
      download_certificate download_private_key select_menu_item use_is_authenticated
      fetch_selected_certificate fetch_certificate_options fetch_certificates fetch_signatories
      run_check check_health check_health_failed teardown use_remove_error login_callback on_sign_up
      on_invitation_created on_create_success
  perform-Keeps (logs_in req) w h = (h, (λ b v q. if_keeps Q b (k.by_push _ v q) q, tt))
  perform-Keeps (signs_up req) w h = (h, (λ b v q. if_keeps Q b (k.by_push _ v q) q, tt))
  perform-Keeps logs_out w h = (logout_keeps k _ w h, tt)
  perform-Keeps (invites req) w h = (h, (λ b v q. if_keeps Q b (k.by_push _ v q) q, tt))
  perform-Keeps opens_invitation_form w h = (k.by_push _ w h, tt)
  perform-Keeps (requests_certificate req) w h =
      (h, (λ b id v q. if_keeps Q b (k.by_dispatch _ _ (k.by_push _ v q)) q, tt))
  perform-Keeps (opens_certificate id) w h = (k.by_push _ w h, tt)
  perform-Keeps opens_certificate_form w h = (k.by_push _ w h, tt)
  perform-Keeps (downloads fullchain) w h = on_certificate-Keeps _ _ w (λ c. tt) h
  perform-Keeps (downloads_private_key password) w h = on_certificate-Keeps _ _ w (λ c b v q. q) h
  perform-Keeps (selects_menu_item key) w h = (k.by_push _ _ (k.by_log _ _ w h), tt)
  perform-Keeps authenticates w h =
      restore_session-Keeps (lookup user_id_key w.session_storage)
        (lookup auth_token_key w.session_storage) w refl h
  perform-Keeps (shows_certificate id) w h =
      if_keeps Keeps (truthy id) (h, (tt, tt)) (k.by_log _ _ w h, tt)
  perform-Keeps shows_options w h = (h, (tt, tt))
  perform-Keeps lists_certificates w h =
      for_account-Keeps (use_account_id w) get_certificates_by_account_id w (λ s. tt) h
  perform-Keeps searches_signatories w h =
      if_keeps Keeps (not (state w).certificates.signatories.loaded)
        {x = for_account (use_account_id w) get_signing_certificates w} {y = (w, [])}
        (for_account-Keeps (use_account_id w) get_signing_certificates w (λ s. tt) h) (h, tt)
  perform-Keeps (dismisses_error seen) w h =
      (if_keeps Q (is_some seen.error) (k.by_dispatch _ w h) h, tt)
  perform-Keeps (visits path) w h = (k.by_push _ w h, tt)
  perform-Keeps (logs_form text) w h = (k.by_log _ _ w h, tt)
  perform-Keeps (hears_check service (answers status body)) w h =
      (k.by_log _ _ _ (if_keeps Q (leb 300 status) (k.by_log _ _ w h) h), tt)
  perform-Keeps (hears_check service (fails e)) w h = (k.by_log _ _ w h, tt)
  perform-Keeps closes_down w h = (k.by_log _ _ w h, tt)

  load_signatory-Tame :
      (id : Option String) (w : World p) → All (Tame Q) (Certificates.load_signatory id w).1
  unfolding Certificates.load_signatory
  load_signatory-Tame id w =
      if_keeps {A = World p × List (Call p)} (λ r. All (Tame Q) r.1) (truthy id) (tt, tt) tt

  -- The calls that a response leads to keep the property.
  resume-Tame :
      (c : Call p) (r : HttpResponse (Answer c)) (w : World p) → All (Tame Q) (resume c r w).1
  unfolding resume Certificates.create_certificate Certificates.get_certificate
  resume-Tame (Call.create_certificate req callback) r w =
      elim r.body
        as (λ o. All (Tame Q) (Certificates.create_certificate req callback (with_body r o) w).1) [
          | none ↦ tt
          | some body ↦ load_signatory-Tame body.signatory_id _
        ]
  resume-Tame (Call.get_certificate id) r w =
      elim r.body as (λ o. All (Tame Q) (Certificates.get_certificate id (with_body r o) w).1) [
        | none ↦ tt
        | some body ↦ load_signatory-Tame body.signatory_id _
      ]
  resume-Tame _ r w = tt

  abbrev Holds : System p → Type 0
  Holds s = Keeps (s.world, s.pending)

  pub Step-keeps : {s t : System p} → Step s t → Holds s → Holds t
  Step-keeps {s} (event e same) (h, t) =
      let (h', t') = perform-Keeps e s.world h in rw same (h', All-append (Tame Q) _ s.pending t' t)
  Step-keeps {s} (response before after c r listed same) (h, t) =
      let (tame, rest) = All-middle (Tame Q) before c after (rw listed at t) in
      rw same (
        resume_keeps k c r s.world tame h,
        All-append (Tame Q) _ (before ++ after) (resume-Tame c r s.world) rest,
      )

  pub Reach-keeps : {s t : System p} → Reach s t → Holds s → Holds t
  Reach-keeps here h = h
  Reach-keeps (next r st) h = Step-keeps st (Reach-keeps r h)
