-- ===== src/World.antt =====
-- One open tab of the web app: the store, the HTTP client (the module variable `httpclient` of
-- web-app/src/api/httpclient.ts), the two storages of the browser, and, newest first, what was
-- logged through remotelogger, what `saveAs` was asked to save, and the locations that the tab was
-- sent to, by `history.push` or by the browser.
use webca.Common.{String, ◌<>◌, List, ◌∷◌}
use webca.Common.Dict.{Dict, insert, remove}
use webca.State.{AppState}
use webca.State.Actions.{AnyAction}
use webca.Platform.{Platform}

pub data Level : Type 0 where
  debug info error : Level

pub record LogEntry : Type 0 where
  pub level : Level
  pub message : String

-- The arguments of `new Blob([body], { type })` and `saveAs(blob, filename)`.
pub record SavedFile : Type 0 where
  pub content : String
  pub type : String
  pub filename : String

pub record World (p : Platform) : Type 0 where
  pub store : p.Store
  pub client : p.HttpClient
  pub session_storage : Dict
  pub local_storage : Dict
  pub log : List LogEntry
  pub saved : List SavedFile
  pub locations : List String

module _ {p : Platform} where
  abbrev pub state : World p → AppState
  state w = p.get_state w.store

  abbrev pub headers : World p → Dict
  headers w = p.get_headers w.client

  -- `dispatch(action)` for a plain action.
  abbrev pub dispatch : AnyAction → World p → World p
  dispatch a w = record w { store = p.dispatch a w.store }

  abbrev pub write_log : Level → String → World p → World p
  write_log l m w = record w { log = record { level = l; message = m } ∷ w.log }

  -- `history.push(path)`
  abbrev pub push : String → World p → World p
  push path w = record w { locations = path ∷ w.locations }

  -- `setHeader` and `setToken` of httpclient.ts.
  unfoldable pub set_header : String → String → World p → World p
  set_header name value w = record w {
    client = p.set_headers (insert name value (p.get_headers w.client)) w.client;
  }

  unfoldable pub set_token : String → World p → World p
  unfolding set_header
  set_token token = set_header "Authorization" ("Bearer " <> token)

  abbrev pub set_session_item : String → String → World p → World p
  set_session_item k v w = record w { session_storage = insert k v w.session_storage }

  abbrev pub remove_session_item : String → World p → World p
  remove_session_item k w = record w { session_storage = remove k w.session_storage }
