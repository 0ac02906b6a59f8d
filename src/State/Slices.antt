-- ===== src/State/Slices.antt =====
-- reducer.ts of state/error, state/user and state/invitation.
use webca.Common.{none, some, true, false}
use webca.Types.{ErrorInfo, ErrorState, User, UserState, Invitation, InvitationState}
use webca.State.Actions.{
  AnyAction, on_error, on_user, on_invitation, ErrorAction, UserAction, InvitationAction,
}

abbrev pub initial_error : ErrorState
initial_error = record { error = none }

abbrev pub add_error : ErrorState → ErrorInfo → ErrorState
add_error s e = record s { error = some e }

abbrev pub remove_error : ErrorState → ErrorState
remove_error s = record s { error = none }

unfoldable pub error_reducer : ErrorState → AnyAction → ErrorState
error_reducer s (on_error (ErrorAction.add_error e)) = add_error s e
error_reducer s (on_error ErrorAction.remove_error) = remove_error s
error_reducer s _ = s

abbrev pub initial_user : UserState
initial_user = record { user = none; loaded = false }

abbrev pub add_user : UserState → User → UserState
add_user s u = record s { user = some u; loaded = true }

abbrev pub remove_user : UserState → UserState
remove_user s = record s { user = none; loaded = false }

unfoldable pub user_reducer : UserState → AnyAction → UserState
user_reducer s (on_user (UserAction.add_user u)) = add_user s u
user_reducer s (on_user UserAction.remove_user) = remove_user s
user_reducer s _ = s

abbrev pub initial_invitation : InvitationState
initial_invitation = record { invitation = none; loaded = false }

abbrev pub add_invitation : InvitationState → Invitation → InvitationState
add_invitation s i = record s { invitation = some i; loaded = true }

unfoldable pub invitation_reducer : InvitationState → AnyAction → InvitationState
invitation_reducer s (on_invitation (InvitationAction.add_invitation i)) = add_invitation s i
invitation_reducer s _ = s
