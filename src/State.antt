-- ===== src/State.antt =====
-- web-app/src/state: the redux store. `AnyAction` is the union of the four slices' actions.
-- `createReducer` of typesafe-actions sends an action to the handler that is registered for its
-- type and answers any other with the state; `combineReducers` of redux hands every action to every
-- slice.
pub mod Actions
pub mod Slices
pub mod Certificates
pub mod History
pub mod Consistency
use webca.Types.{ErrorState, CertificateState, UserState, InvitationState}
use Actions.{AnyAction}
use Slices.{
  error_reducer, user_reducer, invitation_reducer, initial_error, initial_user, initial_invitation,
}
use Certificates.{certificates_reducer, initial_certificates}

pub record AppState : Type 0 where
  pub error : ErrorState
  pub certificates : CertificateState
  pub user : UserState
  pub invitation : InvitationState

unfoldable pub reducer : AppState → AnyAction → AppState
unfolding error_reducer certificates_reducer user_reducer invitation_reducer
reducer s a = record {
  error = error_reducer s.error a;
  certificates = certificates_reducer s.certificates a;
  user = user_reducer s.user a;
  invitation = invitation_reducer s.invitation a;
}

-- The state of a new store.
abbrev pub initial_state : AppState
initial_state = record {
  error = initial_error;
  certificates = initial_certificates;
  user = initial_user;
  invitation = initial_invitation;
}
