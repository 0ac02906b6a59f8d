-- ===== src/State/Actions.antt =====
-- The actions of the four slices: actions.ts of state/error, state/certificates, state/user and
-- state/invitation.
use webca.Common.{List}
use webca.Types.{ErrorInfo, Certificate, CertificateOptions, Page, User, Invitation}

pub data ErrorAction : Type 0 where
  add_error : ErrorInfo → ErrorAction
  remove_error : ErrorAction

pub data CertificateAction : Type 0 where
  add_certificates : Page Certificate → CertificateAction
  remove_certificates : CertificateAction
  add_signing_certificates : List Certificate → CertificateAction
  remove_signing_certificates : CertificateAction
  select_certificate : Certificate → CertificateAction
  add_selected_signatory : Certificate → CertificateAction
  remove_selected_signatory : CertificateAction
  deselect_certificate : CertificateAction
  add_options : CertificateOptions → CertificateAction
  remove_options : CertificateAction

pub data UserAction : Type 0 where
  add_user : User → UserAction
  remove_user : UserAction

pub data InvitationAction : Type 0 where
  add_invitation : Invitation → InvitationAction

pub data AnyAction : Type 0 where
  on_error : ErrorAction → AnyAction
  on_certificates : CertificateAction → AnyAction
  on_user : UserAction → AnyAction
  on_invitation : InvitationAction → AnyAction
