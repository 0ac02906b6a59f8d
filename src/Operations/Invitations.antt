-- ===== src/Operations/Invitations.antt =====
-- state/invitation/operations.ts; each thunk from its response on.
use webca.Common.{String, ◌<>◌, true, false, Option, none, some}
use webca.Types.{InvitationCreationRequest, Invitation, JsError, ResponseMetadata, HttpResponse}
use webca.State.Actions.{on_invitation, add_invitation}
use webca.Platform.{Platform}
use webca.World.{World, debug, write_log, dispatch}
use webca.Utils.ApiUtil.{log_error}
use webca.Operations.Calls.{SuccessCallback}
use webca.Operations.Errors.{report}

module _ {p : Platform} where
  unfoldable pub handle_create_invitation_error :
      InvitationCreationRequest → Option JsError → ResponseMetadata → World p → World p
  handle_create_invitation_error req e metadata w =
      report "api.createInvitation" e metadata
        (log_error "Failed to create invitation" e metadata w)

  unfoldable pub handle_get_invitation_error :
      String → Option JsError → ResponseMetadata → World p → World p
  handle_get_invitation_error invitation_id e metadata w =
      report "api.getInvitation" e metadata
        (log_error ("Failed to retrieve invitation(id=" <> (invitation_id <> ").")) e metadata w)

  unfoldable pub create_invitation :
      InvitationCreationRequest → SuccessCallback p → HttpResponse Invitation → World p → World p
  unfolding handle_create_invitation_error
  create_invitation req callback r w = elim r.body [
    | none ↦ callback false (handle_create_invitation_error req r.error r.metadata w)
    | some body ↦ callback true (
        write_log debug
          ("Successfully created invitation(id="
            <> (body.id
                <> (", role="
                    <> (body.role <> (", createdById=" <> (body.created_by_id <> ")}"))))))
          w)
  ]

  unfoldable pub get_invitation : String → HttpResponse Invitation → World p → World p
  unfolding handle_get_invitation_error
  get_invitation id r w = elim r.body [
    | none ↦ handle_get_invitation_error id r.error r.metadata w
    | some body ↦ dispatch (on_invitation (add_invitation body)) (
        write_log debug
          ("Successfully retrieved invitation(id="
            <> (id <> (", accountId=" <> (body.account.id <> ")"))))
          w)
  ]
