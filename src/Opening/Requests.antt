-- ===== src/Opening/Requests.antt =====
-- The first requests of a tab, and the headers that they carry.
use webca.Opening.Headers.{set_token-header, client_id-set_token, init_state-header}
use webca.Common.Text.{truthy}
use webca.Common.{true, ◌++◌, ◌≡◌, ◌≢◌, refl, String, ◌<>◌, Option, none, some, List, [], ◌∷◌, map}
use webca.Common.Dict.{Dict, lookup}
use webca.Constants.{user_id_key, auth_token_key}
use webca.Platform.{Platform}
use webca.World.{World, set_token}
use webca.Api
use webca.Api.{check_api_server, check_httplogger}
use webca.Operations.Calls.{request}
use webca.Hooks.{use_is_authenticated, restore_session}
use webca.Startup.{get_client_info, init_state}
use webca.System.Session.{truthy_of_ne}
use webca.Opening.{base_headers, send, Sent, load_tab, app_effect, open_tab}

-- The header of a name in each of the requests.
abbrev pub header_of : String → List Sent → List (Option String)
header_of name sent = map (λ s. lookup name s.client_headers) sent

-- What the first of three requests carries under a name, and the two after it.
abbrev pub then_twice : Option String → String → List (Option String)
then_twice first later = first ∷ some later ∷ some later ∷ []

base_type : lookup "Content-Type" base_headers ≡ some "application/json"
unfolding lookup
base_type = refl

no_client : lookup "X-Client-ID" base_headers ≡ none
unfolding lookup
no_client = refl

no_session : lookup "X-Session-ID" base_headers ≡ none
unfolding lookup
no_session = refl

module _ {p : Platform} where
  -- The first requests of a tab with a session, the client's headers at each written out.
  opened-session :
      (id token new_id session_id : String) (w : World p)
      → lookup user_id_key w.session_storage ≡ some id
      → lookup auth_token_key w.session_storage ≡ some token
      → truthy (some id) ≡ true
      → truthy (some token) ≡ true
      → (open_tab new_id session_id w).sent
        ≡ send (set_token token w) (Api.get_user id ∷ [])
          ++ send
              (init_state new_id session_id (set_token token w))
              (check_api_server ∷ check_httplogger ∷ [])
  unfolding open_tab app_effect use_is_authenticated restore_session request
  opened-session id token new_id session_id w user there filled given =
      rw (user, there, filled, given) refl

-- If a tab is opened while the session storage holds a user's id and a token that are not empty,
-- its first three requests are for that user and for the two health checks, in this order. All
-- three carry the type of their content and the token. The two checks carry the id of
-- the client and of the session, and the request for the user carries neither.
pub open_tab-sent :
    (p : Platform) (id token new_id session_id location : String) (local session : Dict)
    → lookup user_id_key session ≡ some id
    → lookup auth_token_key session ≡ some token
    → id ≢ ""
    → token ≢ ""
    → let loaded = load_tab {p = p} local session location in
      let sent = (open_tab new_id session_id loaded).sent in
      let client = (get_client_info new_id session_id loaded).0 in
      let bearer = "Bearer " <> token in
      (map (λ (s : Sent). s.request) sent
        ≡ Api.get_user id ∷ check_api_server ∷ check_httplogger ∷ [])
      × (header_of "Content-Type" sent ≡ then_twice (some "application/json") "application/json")
      × (header_of "Authorization" sent ≡ then_twice (some bearer) bearer)
      × (header_of "X-Client-ID" sent ≡ then_twice none client.id)
      × (header_of "X-Session-ID" sent ≡ then_twice none session_id)
open_tab-sent p id token new_id session_id location local session user there filled given =
    rw
      (opened-session id token new_id session_id (load_tab local session location) user there
        (truthy_of_ne id filled) (truthy_of_ne token given))
      (
        refl,
        simp (set_token-header, init_state-header, p.get_headers-new_client, base_type),
        simp (set_token-header, init_state-header),
        simp (
          set_token-header, init_state-header, p.get_headers-new_client, client_id-set_token,
          no_client,
        ),
        simp (set_token-header, init_state-header, p.get_headers-new_client, no_session),
      )
