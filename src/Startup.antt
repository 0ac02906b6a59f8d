-- ===== src/Startup.antt =====
-- Start of the app: state/initState.ts, `initState` of state/index.ts, `initHttpclient` of
-- api/httpclient.ts and the health checks of api/index.ts. `uuid()` is an argument, a new text for
-- each call. The configuration of the log's handlers is left out.
use webca.Api.{HttpRequest, check_api_server, check_httplogger}
use webca.Common.{ℕ, String, Option, none, some, List, [], ◌∷◌, ◌<>◌, if◌then◌else◌, leb}
use webca.Common.Text.{truthy}
use webca.Common.Decimal.{decimal}
use webca.Common.Dict.{lookup, insert}
use webca.Constants.{client_id_key}
use webca.Types.{Client, StatusBody}
use webca.Platform.{Platform}
use webca.World.{World, debug, info, error, write_log}
use webca.Utils.ApiUtil.{shown}

-- What a check comes to: an answer with its status and its body, or an error with its text.
pub data Outcome : Type 0 where
  answers : ℕ → Option StatusBody → Outcome
  fails : String → Outcome

-- `${body}`: JavaScript writes an object without its contents.
abbrev body_text : Option StatusBody → String
body_text none = "undefined"
body_text (some body) = "[object Object]"

module _ {p : Platform} where
  unfoldable pub get_or_create_id : String → String → World p → String × World p
  get_or_create_id new_id key w =
      let id = lookup key w.local_storage in
      if truthy id
      then (shown id, w)
      else (new_id, record w { local_storage = insert key new_id w.local_storage })

  -- `getClientInfo`, with the two texts that `uuid()` would return.
  unfoldable pub get_client_info : String → String → World p → Client × World p
  unfolding get_or_create_id
  get_client_info new_id session_id w =
      let (id, w') = get_or_create_id new_id client_id_key w in
      (record { id = id; session_id = session_id }, w')

  unfoldable pub init_httpclient : Client → World p → World p
  init_httpclient client w = record w {
    client = p.new_client (
        insert "X-Session-ID" client.session_id
          (insert "X-Client-ID" client.id (p.get_headers w.client)));
  }

  unfoldable pub init_log_and_httpclient : Client → World p → World p
  unfolding init_httpclient
  init_log_and_httpclient client w =
      write_log debug "initiated httpclient"
        (write_log debug "initiated remotelogger" (init_httpclient client w))

  unfoldable pub init_state : String → String → World p → World p
  unfolding get_client_info init_log_and_httpclient
  init_state new_id session_id w =
      let (client, w') = get_client_info new_id session_id w in
      write_log info "initialized application state" (init_log_and_httpclient client w')

  unfoldable pub teardown : World p → World p
  teardown w = write_log info "closed down application" w

  -- `checkHealth` when the check answers.
  unfoldable pub check_health : String → Option StatusBody → ℕ → World p → World p
  check_health service body status w =
      let w' =
        if leb 300 status
        then write_log error
            (service
              <> (" unhealthy. status=" <> (decimal status <> (", body=" <> body_text body))))
            w
        else w in
      write_log info (service <> (" healthy. status=" <> decimal status)) w'

  -- `checkHealth` when the check is rejected; the text of the error is an argument.
  unfoldable pub check_health_failed : String → String → World p → World p
  check_health_failed service e =
      write_log error ("failed to call " <> (service <> (". error=" <> e)))

  unfoldable pub run_check : String → Outcome → World p → World p
  unfolding check_health check_health_failed
  run_check service (answers status body) w = check_health service body status w
  run_check service (fails e) w = check_health_failed service e w

-- `checkBackendHealth`: the services that are checked, each with its request. The outcomes come in any
-- order, and `run_check` runs for each.
abbrev pub check_backend_health : List (String × HttpRequest)
check_backend_health = ("api-server", check_api_server) ∷ ("httplogger", check_httplogger) ∷ []
