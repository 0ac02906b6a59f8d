-- ===== src/Tests/SystemTests.antt =====
-- The theorems about the store, the thunks and the reachable systems, at concrete inputs.
use webca.Common.{◌≡◌, ◌≢◌, refl, false, none, some, [], ◌∷◌, ◌++◌, arith, eq_iff}
use webca.Common.Dict.{lookup}
use webca.Constants.{client_id_key, auth_token_key, user_id_key}
use webca.State.{initial_state}
use webca.State.Actions.{on_user, on_certificates, add_user, select_certificate}
use webca.State.History.{state_of, view_after, empty_view, run}
use webca.State.History.Laws.{run-eq-view_after}
use webca.State.Consistency.{IsConsistent}
use webca.Platform.{plain}
use webca.World.{World, state, headers, set_token}
use webca.Startup.{init_state, get_client_info, get_or_create_id}
use webca.Operations.{resume}
use webca.Operations.Calls.{Call, login, get_user}
use webca.Operations.Failure.{resume_failure, told_failure, handler, Failed, shown_as}
use webca.Operations.Users
use webca.Hooks.{use_is_authenticated}
use webca.Containers.{login_callback, handle_login}
use webca.System.{System, Step, Reach, here, next, event, response, perform, logs_in}
use webca.System.Invariants.{idle, Reach-IsConsistent}
use webca.System.Identity.{Reach-client_id}
use webca.System.Credentials.{IsPaired, Reach-IsPaired, logout-restore_session}
use webca.System.Session.{
  SignsIn, sign_in_success, reload, reload-restores, HasCredentials, logged_in,
}
use webca.System.Logout.{logout_undone}
use webca.Tests.Samples.{
  alice, login_request, auth, root, answer, refused, refused_metadata, blank, signed_in_tab,
}

run-eq-view_after_example :
    run initial_state (on_user (add_user alice) ∷ on_certificates (select_certificate root) ∷ [])
    ≡ state_of (
        view_after empty_view
          (on_user (add_user alice) ∷ on_certificates (select_certificate root) ∷ []))
run-eq-view_after_example =
    run-eq-view_after (on_user (add_user alice) ∷ on_certificates (select_certificate root) ∷ [])

-- A login that is asked for and answered.
abbrev asked : World plain → System plain
asked w = record {
  world = (perform (logs_in login_request) w).0;
  pending = (perform (logs_in login_request) w).1 ++ [];
}

abbrev request_sent : Call plain
request_sent = login login_request login_callback

abbrev pub answered : World plain → System plain
answered w = record {
  world = (resume request_sent (answer auth) w).0;
  pending = (resume request_sent (answer auth) w).1 ++ [];
}

pub answered-Reach : (w : World plain) → Reach (idle w) (answered w)
unfolding perform handle_login
answered-Reach w = next (next here asking) (response [] [] request_sent (answer auth) refl refl)
  where
    asking : Step (idle w) (asked w)
    asking = event (logs_in login_request) refl

Reach-IsConsistent_example : IsConsistent (state (answered blank).world)
Reach-IsConsistent_example = Reach-IsConsistent blank (answered blank) refl (answered-Reach blank)

abbrev started : World plain
started = init_state "new-id" "tab-1" blank

Reach-client_id_example :
    let t = answered started in
    (lookup "X-Client-ID" (headers t.world) ≡ some "new-id")
    × (lookup "X-Session-ID" (headers t.world) ≡ some "tab-1")
    × (get_or_create_id "next-id" client_id_key t.world ≡ ("new-id", t.world))
unfolding get_client_info get_or_create_id lookup
Reach-client_id_example =
    Reach-client_id "new-id" "tab-1" "next-id" blank (answered started)
      (ground (arith, eq_iff "new-id" "")) (answered-Reach started)

Reach-IsPaired_example : IsPaired (answered blank).world
unfolding lookup
Reach-IsPaired_example = Reach-IsPaired blank (answered blank) refl (answered-Reach blank)

token_ne : auth.token ≢ ""
token_ne = ground (arith, eq_iff "header.body.signature" "")

id_ne : auth.user.id ≢ ""
id_ne = ground (arith, eq_iff "alice-id" "")

resume_failure_example :
    (resume request_sent refused blank
      ≡ (told_failure request_sent (handler request_sent none refused_metadata blank), []))
    × Failed
        (shown_as request_sent)
        none
        refused_metadata
        blank
        (handler request_sent none refused_metadata blank)
resume_failure_example = resume_failure request_sent refused blank refl

logout-restore_session_example :
    let w' = Users.logout (some alice) signed_in_tab in
    (lookup auth_token_key w'.session_storage ≡ none)
    × (lookup user_id_key w'.session_storage ≡ none)
    × ((use_is_authenticated w').0 ≡ false)
    × ((use_is_authenticated w').1 w' ≡ (w', []))
logout-restore_session_example = logout-restore_session alice signed_in_tab

sign_in_success_example :
    SignsIn login_callback auth blank (Users.login login_request login_callback (answer auth) blank)
    × SignsIn login_callback auth blank
        (Users.sign_up login_request login_callback (answer auth) blank)
sign_in_success_example = sign_in_success login_request login_callback (answer auth) auth blank refl

signed_in_tab-HasCredentials : HasCredentials auth signed_in_tab
unfolding lookup
signed_in_tab-HasCredentials = record { token = refl; user_id = refl; authorization = refl }

reload-restores_example :
    let fresh = reload [] signed_in_tab in
    let restored = set_token auth.token fresh in
    let after = (resume (get_user auth.user.id) (answer alice) restored).0 in
    ((use_is_authenticated fresh).0 ≡ false)
    × ((use_is_authenticated fresh).1 fresh ≡ (restored, get_user auth.user.id ∷ []))
    × (state after ≡ record initial_state { user = logged_in alice })
    × HasCredentials auth after
reload-restores_example =
    reload-restores auth [] signed_in_tab (answer alice) alice signed_in_tab-HasCredentials token_ne
      id_ne refl

logout_undone_example :
    (t : System plain) × Reach (idle signed_in_tab) t
    × (t.pending ≡ [])
    × (lookup auth_token_key t.world.session_storage ≡ none)
    × (lookup user_id_key t.world.session_storage ≡ none)
    × ((state t.world).user ≡ logged_in alice)
logout_undone_example =
    logout_undone auth alice alice (answer alice) signed_in_tab signed_in_tab-HasCredentials
      token_ne id_ne refl refl
