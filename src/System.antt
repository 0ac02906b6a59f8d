-- ===== src/System.antt =====
-- The web app as a concurrent system: one tab and the calls that wait for a response. JavaScript
-- runs one handler at a time, and the responses come in any order, so a step is a whole gesture of
-- the user, a whole effect of a hook, or the rest of one waiting thunk.
pub mod Closed
pub mod Reachable
pub mod Invariants
pub mod Identity
pub mod Credentials
pub mod Session
pub mod Steps
pub mod Races
pub mod Logout
pub mod Leftovers
pub mod Authorization
pub mod Creation
pub mod Drain
pub mod Secrets
pub mod Order
use webca.Common.{◌≡◌, String, Bool, Option, none, some, List, [], ◌∷◌, ◌++◌}
use webca.Common.Dict.{lookup}
use webca.Types.{
  AuthenticationRequest, InvitationCreationRequest, CertificateRequest, ErrorState, HttpResponse,
}
use webca.Constants.{user_id_key, auth_token_key}
use webca.Platform.{Platform}
use webca.World.{World, state, info, push, write_log}
use webca.Operations.Calls.{Call, Answer, SuccessCallback}
use webca.Operations.{resume}
use webca.Startup.{Outcome, run_check, teardown}
use webca.Hooks.{
  use_fetch_certificate_options, use_fetch_certificates, use_fetch_signatories,
  use_is_authenticated, use_selected_certificate, use_remove_error,
}
use webca.Containers.{
  handle_login, handle_signup, request_invitation, create_new_invitation, request_certificate,
  open_certificate, create_new_certificate, download_certificate, download_private_key,
  handle_logout, select_menu_item,
}

-- What a user, React or a health check can start at any time.
pub data Event : Type 0 where
  logs_in : AuthenticationRequest → Event
  signs_up : AuthenticationRequest → Event
  logs_out : Event
  invites : InvitationCreationRequest → Event
  opens_invitation_form : Event
  requests_certificate : CertificateRequest → Event
  opens_certificate : String → Event
  opens_certificate_form : Event
  downloads : Bool → Event
  downloads_private_key : String → Event
  selects_menu_item : String → Event
  authenticates : Event
  shows_certificate : Option String → Event
  shows_options : Event
  lists_certificates : Event
  searches_signatories : Event
  dismisses_error : ErrorState → Event
  -- A `Link`, or the browser's own navigation.
  visits : String → Event
  -- A form whose values antd refuses is logged.
  logs_form : String → Event
  -- A health check of a service comes to something.
  hears_check : String → Outcome → Event
  -- The app is taken off the page.
  closes_down : Event

module _ {p : Platform} where
  -- The callback of a private key's download sets the state of the dialog, which is not part of the
  -- world.
  abbrev pub dialog_callback : SuccessCallback p
  dialog_callback success w = w

  unfoldable pub perform : Event → World p → World p × List (Call p)
  perform (logs_in req) w = handle_login req w
  perform (signs_up req) w = handle_signup req w
  perform logs_out w = handle_logout w
  perform (invites req) w = request_invitation req w
  perform opens_invitation_form w = create_new_invitation w
  perform (requests_certificate req) w = request_certificate req w
  perform (opens_certificate id) w = open_certificate id w
  perform opens_certificate_form w = create_new_certificate w
  perform (downloads fullchain) w = download_certificate fullchain w
  perform (downloads_private_key password) w = download_private_key password dialog_callback w
  perform (selects_menu_item key) w = select_menu_item key w
  perform authenticates w = (use_is_authenticated w).1 w
  perform (shows_certificate id) w = (use_selected_certificate id w).1 w
  perform shows_options w = (use_fetch_certificate_options w).1 w
  perform lists_certificates w = (use_fetch_certificates w).1 w
  perform searches_signatories w = (use_fetch_signatories w).1 w
  perform (dismisses_error seen) w = (use_remove_error seen w, [])
  perform (visits path) w = (push path w, [])
  perform (logs_form text) w = (write_log info text w, [])
  perform (hears_check service outcome) w = (run_check service outcome w, [])
  perform closes_down w = (teardown w, [])

pub record System (p : Platform) : Type 0 where
  pub world : World p
  pub pending : List (Call p)

module _ {p : Platform} where
  pub data Step (s t : System p) : Type 0 where
    event :
        (e : Event)
        → t ≡ record { world = (perform e s.world).0; pending = (perform e s.world).1 ++ s.pending }
        → Step s t
    response :
        (before after : List (Call p)) (c : Call p) (r : HttpResponse (Answer c))
        → s.pending ≡ before ++ c ∷ after
        → t ≡ record {
          world = (resume c r s.world).0;
          pending = (resume c r s.world).1 ++ (before ++ after);
        }
        → Step s t

  pub data Reach (s : System p) : System p → Type 0 where
    here : Reach s s
    next : {t u : System p} → Reach s t → Step t u → Reach s u
