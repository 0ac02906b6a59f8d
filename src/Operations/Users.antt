-- ===== src/Operations/Users.antt =====
-- state/user/operations.ts; each thunk from its response on.
use webca.Common.{String, ◌<>◌, true, false, Option, none, some}
use webca.Constants.{user_id_key, auth_token_key}
use webca.Types.{
  AuthenticationRequest, AuthenticationResponse, User, JsError, ResponseMetadata, HttpResponse,
}
use webca.State.Actions.{on_user, add_user, remove_user}
use webca.Platform.{Platform}
use webca.World.{
  World, debug, info, error, write_log, dispatch, set_token, set_session_item, remove_session_item,
}
use webca.Utils.ApiUtil.{log_error}
use webca.Operations.Calls.{SuccessCallback}
use webca.Operations.Errors.{report}

module _ {p : Platform} where
  unfoldable pub store_auth_response : AuthenticationResponse → World p → World p
  unfolding set_token
  store_auth_response auth w =
      set_session_item user_id_key auth.user.id
        (set_session_item auth_token_key auth.token (set_token auth.token w))

  unfoldable pub handle_signup_error :
      AuthenticationRequest → Option JsError → ResponseMetadata → World p → World p
  handle_signup_error req e metadata w =
      report "api.signup" e metadata
        (log_error ("Failed to create user/account. accountName=" <> req.account_name) e metadata w)

  unfoldable pub handle_login_error :
      AuthenticationRequest → Option JsError → ResponseMetadata → World p → World p
  handle_login_error req e metadata w =
      report "api.login" e metadata
        (log_error ("Failed to login user. accountName=" <> req.account_name) e metadata w)

  unfoldable pub handle_get_user_error :
      String → Option JsError → ResponseMetadata → World p → World p
  handle_get_user_error user_id e metadata w =
      report "api.getUser" e metadata
        (log_error ("Failed to retrieve user(id=" <> (user_id <> ").")) e metadata w)

  unfoldable pub sign_up :
      AuthenticationRequest
      → SuccessCallback p
      → HttpResponse AuthenticationResponse
      → World p
      → World p
  unfolding store_auth_response handle_signup_error
  sign_up req callback r w = elim r.body [
    | none ↦ callback false (handle_signup_error req r.error r.metadata w)
    | some body ↦ callback true (
        dispatch (on_user (add_user body.user)) (
          store_auth_response body (
            write_log debug ("Successfully created new user for account: " <> req.account_name) w)))
  ]

  unfoldable pub login :
      AuthenticationRequest
      → SuccessCallback p
      → HttpResponse AuthenticationResponse
      → World p
      → World p
  unfolding store_auth_response handle_login_error
  login req callback r w = elim r.body [
    | none ↦ callback false (handle_login_error req r.error r.metadata w)
    | some body ↦ callback true (
        dispatch (on_user (add_user body.user)) (
          store_auth_response body
            (write_log debug ("Successfully logged in user for account: " <> req.account_name) w)))
  ]

  unfoldable pub get_user : String → HttpResponse User → World p → World p
  unfolding handle_get_user_error
  get_user id r w = elim r.body [
    | none ↦ handle_get_user_error id r.error r.metadata w
    | some body ↦ dispatch (on_user (add_user body)) (
        write_log debug
          ("Successfully retrieved user(id="
            <> (id <> (", accountId=" <> (body.account.id <> ")"))))
          w)
  ]

  -- `logout` awaits nothing: it runs to its end when it is dispatched.
  unfoldable pub logout : Option User → World p → World p
  unfolding set_token
  logout none w = write_log error "Failed to log out undefined user" w
  logout (some user) w = dispatch (on_user remove_user) (
      remove_session_item user_id_key (
        remove_session_item auth_token_key
          (set_token "" (write_log info ("Logged out user user(id=" <> (user.id <> ")")) w))))
