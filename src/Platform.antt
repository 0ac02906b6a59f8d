-- ===== src/Platform.antt =====
-- What the program takes from packages that are not part of the repository, with the documented
-- behaviour that it relies on: the store of redux (`createStore`, `getState`, `dispatch`), the
-- client of @czarsimon/httpclient (its constructor, `getHeaders`, `setHeaders`), and the
-- case mapping of the JavaScript engine.
use webca.Common.{String, ◌≡◌, refl}
use webca.Common.Dict.{Dict}
use webca.State.Actions.{AnyAction}
use webca.State.{AppState, initial_state, reducer}

pub record Platform : Type 1 where
  pub Store : Type 0
  pub create_store : Store
  pub get_state : Store → AppState
  pub dispatch : AnyAction → Store → Store
  pub get_state-create_store : get_state create_store ≡ initial_state
  pub get_state-dispatch :
      (a : AnyAction) (s : Store) → get_state (dispatch a s) ≡ reducer (get_state s) a
  pub HttpClient : Type 0
  pub new_client : Dict → HttpClient
  pub get_headers : HttpClient → Dict
  pub set_headers : Dict → HttpClient → HttpClient
  pub get_headers-new_client : (h : Dict) → get_headers (new_client h) ≡ h
  pub get_headers-set_headers : (h : Dict) (c : HttpClient) → get_headers (set_headers h c) ≡ h
  pub to_upper_case : String → String

-- A platform that meets the laws: the store is its state, the client is its headers.
abbrev pub plain : Platform
plain = record {
  Store = AppState;
  create_store = initial_state;
  get_state = λ s. s;
  dispatch = λ a s. reducer s a;
  get_state-create_store = refl;
  get_state-dispatch = λ a s. refl;
  HttpClient = Dict;
  new_client = λ h. h;
  get_headers = λ h. h;
  set_headers = λ h c. h;
  get_headers-new_client = λ h. refl;
  get_headers-set_headers = λ h c. refl;
  to_upper_case = λ s. s;
}
