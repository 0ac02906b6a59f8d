-- ===== src/Hooks.antt =====
-- web-app/src/state/hooks/index.ts. A selector is a function of the store's state. The function that
-- a hook hands to `useEffect` takes the values that it closed over at the render, and returns the
-- world and the calls that it dispatched. Hooks/Effects says at which
-- renders React runs an effect.
pub mod Effects
use webca.Common.{
  String, ◌<>◌, Bool, not, ◌||◌, Option, none, some, List, [], ◌∷◌, is_some, if◌then◌else◌,
}
use webca.Common.Text.{truthy}
use webca.Common.Dict.{lookup}
use webca.Constants.{user_id_key, auth_token_key}
use webca.Types.{
  Account, User, Certificate, CertificateOptions, Certificates, ErrorState, UserState,
  SelectedCertificate, CertificateState,
}
use webca.State.Actions.{on_error, remove_error}
use webca.Platform.{Platform}
use webca.World.{World, state, error, write_log, dispatch, set_token}
use webca.Utils.ApiUtil.{shown}
use webca.Operations.Calls.{
  Call, get_user, get_certificate, get_certificates_by_account_id, get_signing_certificates,
  get_certificate_options,
}

abbrev pub account_of : Option User → Option Account
account_of none = none
account_of (some user) = some user.account

abbrev pub account_id_of : Option Account → Option String
account_id_of none = none
account_id_of (some account) = some account.id

module _ {p : Platform} where
  abbrev pub use_certificate_state : World p → CertificateState
  use_certificate_state w = (state w).certificates

  abbrev pub use_certificate_options : World p → Option CertificateOptions
  use_certificate_options w = (use_certificate_state w).options

  abbrev pub use_certificates : World p → Certificates
  use_certificates w = (use_certificate_state w).certificates

  abbrev pub use_signatories : World p → List Certificate
  use_signatories w = (use_certificate_state w).signatories.certificates

  abbrev pub use_user_state : World p → UserState
  use_user_state w = (state w).user

  abbrev pub use_error_state : World p → ErrorState
  use_error_state w = (state w).error

  abbrev pub use_account : World p → Option Account
  use_account w = account_of (use_user_state w).user

  abbrev pub use_account_id : World p → Option String
  use_account_id w = account_id_of (use_account w)

  -- The effects of `useFetchCertificateOptions`, `useFetchCertificates` and `useFetchSignatories`.
  unfoldable pub fetch_certificate_options : World p → World p × List (Call p)
  fetch_certificate_options w = (w, get_certificate_options ∷ [])

  -- `if (accountId) dispatch(call(accountId))`
  abbrev pub for_account : Option String → (String → Call p) → World p → World p × List (Call p)
  for_account none call w = (w, [])
  for_account (some id) call w = if truthy (some id) then (w, call id ∷ []) else (w, [])

  unfoldable pub fetch_certificates : Option String → World p → World p × List (Call p)
  fetch_certificates account_id = for_account account_id get_certificates_by_account_id

  unfoldable pub fetch_signatories : Option String → Bool → World p → World p × List (Call p)
  fetch_signatories account_id loaded w =
      if not loaded then for_account account_id get_signing_certificates w else (w, [])

  -- These hooks: what each returns, and its effect.
  abbrev pub use_fetch_certificate_options :
      World p → Option CertificateOptions × (World p → World p × List (Call p))
  use_fetch_certificate_options w = (use_certificate_options w, fetch_certificate_options)

  abbrev pub use_fetch_certificates : World p → Certificates × (World p → World p × List (Call p))
  use_fetch_certificates w = (use_certificates w, fetch_certificates (use_account_id w))

  abbrev pub use_fetch_signatories :
      World p → List Certificate × (World p → World p × List (Call p))
  use_fetch_signatories w = (
    use_signatories w,
    fetch_signatories (use_account_id w) (use_certificate_state w).signatories.loaded,
  )

  -- The effect of `useIsAuthenticated`, on the two session items read at the render.
  unfoldable pub restore_session : Option String → Option String → World p → World p × List (Call p)
  unfolding set_token
  restore_session user_id auth_token w =
      if not (truthy user_id) || not (truthy auth_token)
      then (w, [])
      else (set_token (shown auth_token) w, get_user (shown user_id) ∷ [])

  -- `useIsAuthenticated`: what it returns, and its effect.
  unfoldable pub use_is_authenticated : World p → Bool × (World p → World p × List (Call p))
  unfolding restore_session
  use_is_authenticated w = (
    (use_user_state w).loaded,
    restore_session (lookup user_id_key w.session_storage)
        (lookup auth_token_key w.session_storage),
  )

  -- The effect of `useSelectedCertificate`, on the `certificateId` of the route.
  unfoldable pub fetch_selected_certificate : Option String → World p → World p × List (Call p)
  fetch_selected_certificate certificate_id w =
      if truthy certificate_id
      then (w, get_certificate (shown certificate_id) ∷ [])
      else (write_log error ("invalid certificate id: " <> shown certificate_id) w, [])

  -- `useSelectedCertificate`: what it returns, and its effect.
  abbrev pub use_selected_certificate :
      Option String → World p → SelectedCertificate × (World p → World p × List (Call p))
  use_selected_certificate certificate_id w =
      ((use_certificate_state w).selected, fetch_selected_certificate certificate_id)

  -- `useRemoveError`: the callback, which closes over the error state of its render.
  unfoldable pub use_remove_error : ErrorState → World p → World p
  use_remove_error seen w = if is_some seen.error then dispatch (on_error remove_error) w else w
