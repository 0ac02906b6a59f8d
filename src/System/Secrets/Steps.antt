-- ===== src/System/Secrets/Steps.antt =====
-- Every step of the system, with other passwords.

use mathlib.Core.List.{map-append}
use webca.Common.{
  ◌≡◌, refl, sym, ap, ◌∙◌, String, Bool, true, false, not, Option, none, some, List, [], ◌∷◌, ◌++◌,
  map, if◌then◌else◌, ◌||◌, Bool-cases, inl, inr,
}
use webca.Common.Text.{truthy}
use webca.Types.{Certificate}
use webca.Platform.{Platform}
use webca.World.{World, state}
use webca.Hooks.{
  use_is_authenticated, restore_session, fetch_selected_certificate, fetch_certificate_options,
  fetch_certificates, fetch_signatories, for_account, use_account_id,
}
use webca.Containers.{
  handle_login, handle_signup, handle_logout, request_invitation, create_new_invitation,
  request_certificate, open_certificate, create_new_certificate, download_certificate,
  download_private_key, select_menu_item, on_certificate,
}
use webca.Operations.{resume}
use webca.Operations.Calls.{
  Call, get_user, get_certificates_by_account_id, get_signing_certificates,
}
use webca.System.{
  Event, logs_in, signs_up, logs_out, invites, opens_invitation_form, requests_certificate,
  opens_certificate, opens_certificate_form, downloads, downloads_private_key, selects_menu_item,
  authenticates, shows_certificate, shows_options, lists_certificates, searches_signatories,
  dismisses_error, visits, logs_form, hears_check, closes_down, perform, System, Step, event,
  response, Reach, here, next,
}
use webca.System.Secrets.{hide_event, hide, hide_all, Hides, same_answer, resume-hide}

module _ (secret : String) {p : Platform} where
  for_account-hide :
      (id : Option String) (call : String → Call p) (w : World p)
      → ((a : String) → hide secret (call a) ≡ call a)
      → Hides secret (for_account id call w) (for_account id call w)
  for_account-hide none call w h = refl
  for_account-hide (some id) call w h = elim (Bool-cases (truthy (some id))) [
    | inl e ↦ rw e (ap (λ c. (w, c ∷ [])) (sym (h id)))
    | inr e ↦ rw e refl
  ]

  on_certificate-hide :
      (o : Option Certificate) (call other : Certificate → Call p) (w : World p)
      → ((c : Certificate) → other c ≡ hide secret (call c))
      → Hides secret (on_certificate o call w) (on_certificate o other w)
  on_certificate-hide none call other w h = refl
  on_certificate-hide (some c) call other w h = ap (λ d. (w, d ∷ [])) (h c)

  restore_cases :
      (a b : Bool) (id : String) (v w : World p)
      → Hides secret
          (if not a || not b then (w, []) else (v, get_user id ∷ []))
          (if not a || not b then (w, []) else (v, get_user id ∷ []))
  restore_cases true true id v w = refl
  restore_cases true false id v w = refl
  restore_cases false b id v w = refl

  perform-hide :
      (e : Event) (w : World p) → Hides secret (perform e w) (perform (hide_event secret e) w)
  unfolding perform handle_login handle_signup request_certificate download_certificate
      download_private_key use_is_authenticated restore_session fetch_selected_certificate
      fetch_certificate_options fetch_certificates fetch_signatories request_invitation
      handle_logout create_new_invitation open_certificate create_new_certificate select_menu_item
  perform-hide (logs_in req) w = refl
  perform-hide (signs_up req) w = refl
  perform-hide logs_out w = refl
  perform-hide (invites req) w = refl
  perform-hide opens_invitation_form w = refl
  perform-hide (requests_certificate req) w = refl
  perform-hide (opens_certificate id) w = refl
  perform-hide opens_certificate_form w = refl
  perform-hide (downloads full) w =
      on_certificate-hide (state w).certificates.selected.certificate _ _ w (λ c. refl)
  perform-hide (downloads_private_key password) w =
      on_certificate-hide (state w).certificates.selected.certificate _ _ w (λ c. refl)
  perform-hide (selects_menu_item key) w = refl
  perform-hide authenticates w = restore_cases _ _ _ _ w
  perform-hide (shows_certificate id) w = elim (Bool-cases (truthy id)) [
    | inl e ↦ rw e refl
    | inr e ↦ rw e refl
  ]
  perform-hide shows_options w = refl
  perform-hide lists_certificates w =
      for_account-hide (use_account_id w) get_certificates_by_account_id w (λ a. refl)
  perform-hide searches_signatories w =
      elim (Bool-cases (not (state w).certificates.signatories.loaded)) [
        | inl e ↦ rw e (for_account-hide (use_account_id w) get_signing_certificates w (λ a. refl))
        | inr e ↦ rw e refl
      ]
  perform-hide (dismisses_error seen) w = refl
  perform-hide (visits path) w = refl
  perform-hide (logs_form text) w = refl
  perform-hide (hears_check service outcome) w = refl
  perform-hide closes_down w = refl

  -- The world and the calls after a step, with the passwords hidden.
  after :
      (r r' : World p × List (Call p)) (pending : List (Call p))
      → Hides secret r r'
      → hide_all secret (record { world = r.0; pending = r.1 ++ pending })
        ≡ record { world = r'.0; pending = r'.1 ++ map (hide secret) pending }
  after r r' pending h =
      rw h (ap (λ cs. record { world = r.0; pending = cs }) (map-append (hide secret) r.1 pending))

  Step-hide : {s t : System p} → Step s t → Step (hide_all secret s) (hide_all secret t)
  Step-hide {s} (event e same) = event (hide_event secret e) (
      ap (hide_all secret) same
      ∙ after (perform e s.world) (perform (hide_event secret e) s.world) s.pending
          (perform-hide e s.world))
  Step-hide {s} (response before behind c r listed same) =
      response (map (hide secret) before) (map (hide secret) behind) (hide secret c)
        (same_answer secret c r)
        (ap (map (hide secret)) listed ∙ map-append (hide secret) before (c ∷ behind))
        (ap (hide_all secret) same
          ∙ (after (resume c r s.world) (resume (hide secret c) (same_answer secret c r) s.world)
                (before ++ behind) (resume-hide secret c r s.world)
              ∙ ap
                  (λ cs. record {
                    world = (resume (hide secret c) (same_answer secret c r) s.world).0;
                    pending = (resume (hide secret c) (same_answer secret c r) s.world).1 ++ cs;
                  })
                  (map-append (hide secret) before behind)))

  -- Whatever a system reaches, the system with the password `secret` for every password of a login, of a
  -- sign-up, of a request for a certificate and its signatory, and of a private key reaches too, with
  -- the same tab, that is the same store, headers, storages, log, files and locations, and with the
  -- same calls but for their passwords.
  pub Reach-hide_all : {s t : System p} → Reach s t → Reach (hide_all secret s) (hide_all secret t)
  Reach-hide_all here = here
  Reach-hide_all (next r st) = next (Reach-hide_all r) (Step-hide st)
