-- ===== src/Containers.antt =====
-- The containers of web-app/src/modules: what a user's gesture on a page does to the tab, and which
-- calls it dispatches. A container's handler sees the state of its last render, which is the current
-- one, since the store's changes render the page again.
use webca.Common.{String, ◌<>◌, Bool, Option, none, some, List, [], ◌∷◌, if◌then◌else◌}
use webca.Types.{AuthenticationRequest, InvitationCreationRequest, CertificateRequest, Certificate}
use webca.State.Actions.{on_certificates, remove_signing_certificates}
use webca.Platform.{Platform}
use webca.World.{World, state, info, write_log, dispatch, push}
use webca.Utils.ApiUtil.{shown}
use webca.Operations.Calls.{
  Call, SuccessCallback, CreateCallback, login, sign_up, create_invitation, create_certificate,
  download_certificate_body, download_certificate_private_key,
}
use webca.Operations.Users

module _ {p : Platform} where
  -- modules/login/LoginContainer.tsx
  unfoldable pub login_callback : SuccessCallback p
  login_callback success w = if success then push "/" w else w

  unfoldable pub handle_login : AuthenticationRequest → World p → World p × List (Call p)
  handle_login req w = (w, login req login_callback ∷ [])

  -- modules/signup/SignUpContainer.tsx
  unfoldable pub on_sign_up : SuccessCallback p
  on_sign_up success w = if success then push "/" w else w

  unfoldable pub handle_signup : AuthenticationRequest → World p → World p × List (Call p)
  handle_signup req w = (w, sign_up req on_sign_up ∷ [])

  -- modules/account/NewInvitationContainer.tsx
  unfoldable pub on_invitation_created : SuccessCallback p
  on_invitation_created success w = if success then push "/account" w else w

  unfoldable pub request_invitation : InvitationCreationRequest → World p → World p × List (Call p)
  request_invitation req w = (w, create_invitation req on_invitation_created ∷ [])

  -- modules/account/UserManagementContainer.tsx
  unfoldable pub create_new_invitation : World p → World p × List (Call p)
  create_new_invitation w = (push "/invitations/add" w, [])

  -- modules/certificates/NewCertificateContainer.tsx
  unfoldable pub on_create_success : CreateCallback p
  on_create_success success id w =
      if success
      then dispatch (on_certificates remove_signing_certificates)
          (push ("/certificates/" <> shown id) w)
      else w

  unfoldable pub request_certificate : CertificateRequest → World p → World p × List (Call p)
  request_certificate req w = (w, create_certificate req on_create_success ∷ [])

  -- modules/certificates/CertificateListContainer.tsx
  unfoldable pub open_certificate : String → World p → World p × List (Call p)
  open_certificate id w = (push ("/certificates/" <> id) w, [])

  unfoldable pub create_new_certificate : World p → World p × List (Call p)
  create_new_certificate w = (push "/certificates/add" w, [])

  -- modules/certificate/CertificateContainer.tsx
  abbrev pub on_certificate :
      Option Certificate → (Certificate → Call p) → World p → World p × List (Call p)
  on_certificate none call w = (w, [])
  on_certificate (some certificate) call w = (w, call certificate ∷ [])

  unfoldable pub download_certificate : Bool → World p → World p × List (Call p)
  download_certificate fullchain w =
      on_certificate (state w).certificates.selected.certificate
        (λ c. download_certificate_body c.id fullchain) w

  unfoldable pub download_private_key :
      String → SuccessCallback p → World p → World p × List (Call p)
  download_private_key password callback w =
      on_certificate (state w).certificates.selected.certificate
        (λ c. download_certificate_private_key c.id password callback) w

  -- modules/settings/Settings.tsx
  unfoldable pub handle_logout : World p → World p × List (Call p)
  handle_logout w = (Users.logout (state w).user.user w, [])

  -- modules/navigation/SideMenu.tsx
  unfoldable pub goto_path : String → World p → World p
  goto_path path w = push path (write_log info ("selected menu item: " <> path) w)

  unfoldable pub select_menu_item : String → World p → World p × List (Call p)
  unfolding goto_path
  select_menu_item key w = (goto_path ("/" <> key) w, [])
