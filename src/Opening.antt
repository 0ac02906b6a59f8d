-- ===== src/Opening.antt =====
-- A tab is opened: what the modules set up when they are loaded (api/httpclient.ts, state/index.ts),
-- and the effects of the first render of App.tsx. React runs the effects of children before those of
-- their parent: the one of `Routes` comes before the one of `App`. Nobody is authenticated at the
-- first render, and no error is shown, so no other component has an effect that does something.
pub mod Headers
pub mod Requests
pub mod Laws
pub mod Visitors
use webca.Common.{String, List, [], ◌∷◌, ◌++◌, map}
use webca.Common.Dict.{Dict}
use webca.Platform.{Platform}
use webca.World.{World, headers}
use webca.Api.{HttpRequest}
use webca.Operations.Calls.{request}
use webca.Hooks.{use_is_authenticated}
use webca.Startup.{init_state, check_backend_health}
use webca.System.{System}

-- A request as it leaves the tab, with the headers that the client holds when it is made.
pub record Sent : Type 0 where
  pub client_headers : Dict
  pub request : HttpRequest

-- A system whose first requests are listed.
pub record Opened (p : Platform) : Type 0 where
  pub system : System p
  pub sent : List Sent

abbrev pub base_headers : Dict
base_headers = ("Content-Type", "application/json") ∷ []

-- `httpclient` as the module sets it up.
abbrev pub initial_httpclient : (p : Platform) → p.HttpClient
initial_httpclient p = p.new_client base_headers

abbrev pub init_store : (p : Platform) → p.Store
init_store p = p.create_store

module _ {p : Platform} where
  -- The tab when the modules are loaded, with the storages that the browser kept.
  abbrev pub load_tab : Dict → Dict → String → World p
  load_tab local session location = record {
    store = init_store p;
    client = initial_httpclient p;
    session_storage = session;
    local_storage = local;
    log = [];
    saved = [];
    locations = location ∷ [];
  }

  abbrev pub send : World p → List HttpRequest → List Sent
  send w requests = map (λ r. record { client_headers = headers w; request = r }) requests

  -- The effect of `App`: the tab that `initState` leaves, and the health checks.
  unfoldable pub app_effect : String → String → World p → World p × List HttpRequest
  app_effect new_id session_id w =
      (init_state new_id session_id w, map (λ check. check.1) check_backend_health)

  -- The first render of the app, with the texts that `uuid()` returns.
  unfoldable pub open_tab : String → String → World p → Opened p
  unfolding app_effect
  open_tab new_id session_id loaded =
      let (restored, calls) = (use_is_authenticated loaded).1 loaded in
      let (ready, checks) = app_effect new_id session_id restored in
      record {
        system = record { world = ready; pending = calls };
        sent = send restored (map request calls) ++ send ready checks;
      }
