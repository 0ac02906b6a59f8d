-- ===== src/Ui/Anonymous.antt =====
-- What the app does before anybody has logged in.
pub mod Steps
pub mod Laws
use webca.Common.{◌≡◌, false, none, Option, String, List, All}
use webca.Common.Dict.{lookup}
use webca.Constants.{auth_token_key}
use webca.Types.{HttpResponse, AuthenticationResponse, AuthenticationRequest}
use webca.Platform.{Platform}
use webca.World.{World, state, headers}
use webca.Operations.Calls.{Call, SuccessCallback, login, sign_up}
use webca.Containers.{login_callback, on_sign_up}
use webca.Ui.Steps.{Answers}

-- A server that lets nobody in: no login and no sign-up is answered with a body.
pub record LetsNobodyIn {p : Platform} (Gives : Answers p) : Type 0 where
  pub by_login :
      (req : AuthenticationRequest) (callback : SuccessCallback p)
      (r : HttpResponse AuthenticationResponse)
      → Gives (login req callback) r
      → r.body ≡ none
  pub by_sign_up :
      (req : AuthenticationRequest) (callback : SuccessCallback p)
      (r : HttpResponse AuthenticationResponse)
      → Gives (sign_up req callback) r
      → r.body ≡ none

-- A tab in which nobody is logged in: no user is loaded, no token is stored, and the client sends no
-- header `Authorization`.
pub record IsAnonymous {p : Platform} (w : World p) : Type 0 where
  pub nobody : (state w).user.loaded ≡ false
  pub no_token : lookup auth_token_key w.session_storage ≡ none
  pub no_header : lookup "Authorization" (headers w) ≡ none

-- A login or a sign-up, with the callback of its page.
abbrev pub IsEntry : {p : Platform} → Call p → Type 0
IsEntry (login req callback) = callback ≡ login_callback
IsEntry (sign_up req callback) = callback ≡ on_sign_up
IsEntry _ = ⊥
