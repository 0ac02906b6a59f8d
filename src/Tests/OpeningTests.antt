-- ===== src/Tests/OpeningTests.antt =====
-- The theorems about the opening of a tab, at concrete inputs: alice reloads the page.
use webca.Common.{All, ◌≡◌, refl, ap, String, Option, some, none, [], ◌∷◌, map, arith, eq_iff}
use webca.Common.Dict.{Dict, lookup}
use webca.Constants.{client_id_key}
use webca.State.Consistency.{IsConsistent}
use webca.Platform.{plain}
use webca.World.{World, state, headers}
use webca.Translations.{messages}
use webca.Translations.En.{en_us}
use webca.Translations.Format.{Intl, or_key, use_formated_message}
use webca.Api
use webca.Api.{check_api_server, check_httplogger}
use webca.Operations.{resume}
use webca.Operations.Calls.{get_user}
use webca.Hooks.{use_is_authenticated, restore_session}
use webca.Startup.{get_or_create_id, fails, get_client_info}
use webca.System.{System, Reach, here, next, event, response, hears_check, perform, visits}
use webca.System.Authorization.{IsAuthorized}
use webca.Opening.{Sent, load_tab, open_tab}
use webca.Opening.Requests.{header_of, then_twice, open_tab-sent}
use webca.Opening.Laws.{Reach-opened}
use webca.Ui.{Ui, settle, after_event, world_of}
use webca.Ui.Steps
use webca.Ui.Anonymous.{IsAnonymous, IsEntry}
use webca.Pages.Router.Segments.{plain_router}
use webca.Opening.Visitors.{open_app, visitor}
use webca.Tests.UiTests.{refusing, refusing-LetsNobodyIn}
use webca.Tests.Samples.{alice, answer}

abbrev kept_locally : Dict
kept_locally = ("@webca:web-app:CLIENT_ID", "browser-1") ∷ []

abbrev kept_session : Dict
kept_session = ("@webca:web-app:AUTH_TOKEN", "a.b.c") ∷ ("@webca:web-app:USER_ID", "alice-id") ∷ []

abbrev loaded : World plain
loaded = load_tab kept_locally kept_session "/certificates"

open_tab-sent_example :
    let sent = (open_tab "new-id" "tab-1" loaded).sent in
    (map (λ (s : Sent). s.request) sent
      ≡ Api.get_user "alice-id" ∷ check_api_server ∷ check_httplogger ∷ [])
    × (header_of "Content-Type" sent ≡ then_twice (some "application/json") "application/json")
    × (header_of "Authorization" sent ≡ then_twice (some "Bearer a.b.c") "Bearer a.b.c")
    × (header_of "X-Client-ID" sent ≡ then_twice none "browser-1")
    × (header_of "X-Session-ID" sent ≡ then_twice none "tab-1")
unfolding lookup get_client_info
open_tab-sent_example =
    open_tab-sent plain "alice-id" "a.b.c" "new-id" "tab-1" "/certificates" kept_locally
      kept_session refl refl (ground (arith, eq_iff "alice-id" ""))
      (ground (arith, eq_iff "a.b.c" ""))

abbrev opened : System plain
opened = (open_tab "new-id" "tab-1" loaded).system

-- A check fails, and then the answer about the user comes.
abbrev checked : System plain
checked = record {
  world = (perform (hears_check "httplogger" (fails "timeout")) opened.world).0;
  pending = opened.pending;
}

abbrev answered : System plain
answered = record {
  world = (resume (get_user "alice-id") (answer alice) checked.world).0;
  pending = [];
}

answered-Reach : Reach opened answered
unfolding perform open_tab use_is_authenticated restore_session lookup resume
answered-Reach =
    next (next here (event (hears_check "httplogger" (fails "timeout")) refl))
      (response [] [] (get_user "alice-id") (answer alice) refl refl)

Reach-opened_example :
    IsConsistent (state answered.world)
    × IsAuthorized answered.world
    × (lookup "Content-Type" (headers answered.world) ≡ some "application/json")
    × (lookup "X-Client-ID" (headers answered.world) ≡ some "browser-1")
    × (lookup "X-Session-ID" (headers answered.world) ≡ some "tab-1")
    × (lookup client_id_key answered.world.local_storage ≡ some "browser-1")
unfolding lookup get_client_info
Reach-opened_example =
    Reach-opened plain "new-id" "tab-1" "/certificates" kept_locally kept_session answered
      answered-Reach

-- A `formatMessage` that shows the message of a key, and the key if there is none.
abbrev in_words : Option Dict → String → String
in_words none key = key
in_words (some messages) key = or_key key (lookup key messages)

abbrev simple_intl : Intl
simple_intl = record {
  format_message = in_words;
  found = λ messages key text there plain filled. ap (or_key key) there;
  missing = λ messages key missing. ap (or_key key) missing;
}

signup_title : use_formated_message simple_intl "signup.title" ≡ "webca.io"
unfolding use_formated_message messages en_us lookup
signup_title = refl

-- A first visit: the browser kept nothing, and goes to the login.
abbrev first_visit : Ui plain
first_visit = open_app "new-id" "tab-1" (load_tab [] [] "/")

abbrev at_login : Ui plain
at_login = settle plain_router (after_event (visits "/login") first_visit)

at_login-Reach : Steps.Reach plain_router refusing first_visit at_login
at_login-Reach = Steps.next Steps.here (Steps.browses "/login" refl)

visitor_example :
    IsAnonymous (world_of at_login)
    × All IsEntry at_login.system.pending
    × (lookup "X-Client-ID" (headers (world_of at_login)) ≡ some "new-id")
    × (lookup "X-Session-ID" (headers (world_of at_login)) ≡ some "tab-1")
unfolding lookup get_client_info get_or_create_id
visitor_example =
    visitor plain plain_router refusing "new-id" "tab-1" "/" [] [] at_login refusing-LetsNobodyIn
      refl at_login-Reach
